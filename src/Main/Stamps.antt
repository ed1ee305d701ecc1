-- ===== src/Main/Stamps.antt =====
-- The picture that is made takes the time of the oldest frame that waits.
use vcu.Prelude.{
  subst, ℕ, zero, suc, ◌≤◌, ◌≡◌, refl, sym, ap, ◌∙◌, ◌↔◌, Bool, true, false, none, some, List, [],
  ◌∷◌, ◌++◌, map, append_assoc, append-nil, arith, length, length-append, get_elem?,
}
use vcu.Prelude.Outcome.{done, aborted, access}
use vcu.RtpDataManager.Thread.{CodecType}
use vcu.VcuControl.{push_data}
use vcu.Picture.{Reals, Libyuv, Target, yuv_to_rgb_scale, block_of, pad_data}
use vcu.Main.{FpgaInput, Feed, note_mark, rtp_callback, make_picture, take_stamp, queue_picture}
use vcu.Main.Events.{
  Event, packet, decoded, queued, round, Can, as_list, picture, id_of, ids, marks, awaited,
  passes_over, taken, IsFresh, step, Runs, starts, goes_on,
}
use vcu.Main.Steps.{
  bind-done, access_aborts, empty_list, result, note_mark_lem, ids_making, nothing_awaited,
  queue_picture_lem, input_round_lem,
}

module _ (fl : Reals) (lib : Libyuv) (t : Target) (codec : CodecType) where
  pub record IsStamped (before : List ℕ) (es : List Event) (s : Feed) : Type 0 where
    pub stamps : List ℕ
    pub first : s.isfirst ≡ passes_over codec (marks es)
    pub waits : stamps ++ s.que_timestamp ≡ awaited codec (marks es)
    pub counted : length stamps ≡ taken es
    pub made : ids s ≡ before ++ stamps
    pub small : length s.pic_queue ≤ 2

  starts-IsStamped : (s : Feed) → IsFresh s → IsStamped (ids s) [] s
  starts-IsStamped s f = record {
    stamps = [];
    first = f.0 ∙ (nothing_awaited codec).0;
    waits = f.1 ∙ (nothing_awaited codec).1;
    counted = omega arith;
    made = sym (append-nil _);
    small = rw (f.3) (omega arith);
  }

  -- The times are noted as the marked packets come.
  packet-IsStamped :
      (before : List ℕ) (es : List Event) (pdata : List ℕ) (mark : Bool) (time : ℕ) (s s' : Feed)
      → IsStamped before es s
      → rtp_callback codec pdata mark time s ≡ done s'
      → IsStamped before (packet pdata mark time ∷ es) s'
  unfolding rtp_callback
  packet-IsStamped before es pdata mark time s s' m h =
      let (v, pushed, same) = bind-done (push_data pdata s.vcu) _ h in
      let (first, waits) = note_mark_lem codec mark time (marks es) in
      subst (IsStamped before (packet pdata mark time ∷ es)) (ap (result s) same) (record {
        stamps = m.stamps;
        first = rw m.first first;
        waits =
            sym (append_assoc m.stamps s.que_timestamp _)
            ∙ rw m.first (
                ap (λ l. l ++ (note_mark codec mark (passes_over codec (marks es)) time).1) m.waits
                ∙ waits);
        counted = m.counted;
        made = m.made;
        small = m.small;
      })

  -- What `vcu_callback` leaves, where it makes a picture.
  pub record IsTaken (s s' : Feed) : Type 0 where
    pub input : FpgaInput
    pub time : s.que_timestamp ≡ input.pic_id ∷ s'.que_timestamp
    pub made : s'.making ≡ some input
    pub queue : s'.pic_queue ≡ s.pic_queue
    pub gone : s'.gone ≡ s.gone
    pub first : s'.isfirst ≡ s.isfirst

  make_picture-IsTaken :
      (yuv : List ℕ) (height width : ℕ) (s s' : Feed) (times : List ℕ)
      → s.que_timestamp ≡ times
      → make_picture fl lib t yuv height width s times ≡ done s'
      → IsTaken s s'
  unfolding make_picture
  make_picture-IsTaken yuv height width s s' [] e h = cc
  make_picture-IsTaken yuv height width s s' (time ∷ times) e h =
      let (rgb, converted, h') = bind-done (access (yuv_to_rgb_scale lib _ yuv height width)) _ h in
      let (pad, padded, same) = bind-done (access (block_of (pad_data t rgb))) _ h' in
      subst (IsTaken s) (ap (result s) same)
        (record { input = _; time = e; made = refl; queue = refl; gone = refl; first = refl })

  decoded-IsStamped :
      (before : List ℕ) (es : List Event) (can : Bool) (yuv : List ℕ) (height width : ℕ)
      (s s' : Feed)
      → IsStamped before es s
      → s.making ≡ none
      → take_stamp fl lib t can yuv height width s ≡ done s'
      → IsStamped before (decoded can yuv height width ∷ es) s'
  unfolding take_stamp
  decoded-IsStamped before es false yuv height width s s' m idle h =
      subst (IsStamped before (decoded false yuv height width ∷ es)) (ap (result s) h) (record {
        stamps = m.stamps;
        first = m.first;
        waits = m.waits;
        counted = m.counted;
        made = m.made;
        small = m.small;
      })
  decoded-IsStamped before es true yuv height width s s' m idle h =
      let k = make_picture-IsTaken yuv height width s s' s.que_timestamp refl h in
      record {
        stamps = m.stamps ++ (k.input.pic_id ∷ []);
        first = k.first ∙ m.first;
        waits =
            append_assoc m.stamps (k.input.pic_id ∷ []) s'.que_timestamp
            ∙ ap (λ l. m.stamps ++ l) (sym k.time)
            ∙ m.waits;
        counted = omega (arith, m.counted, length-append m.stamps (k.input.pic_id ∷ []));
        made =
            ap (map id_of) (λ i. map picture (k.gone i) ++ (k.queue i ++ as_list (k.made i)))
            ∙ ids_making k.input s.gone s.pic_queue
            ∙ ap (λ l. l ++ (k.input.pic_id ∷ []))
                (ap (λ m. map id_of (map picture s.gone ++ (s.pic_queue ++ as_list m))) (sym idle)
                  ∙ m.made)
            ∙ append_assoc before m.stamps _;
        small = rw k.queue m.small;
      }

  step-IsStamped :
      (before : List ℕ) (es : List Event) (e : Event) (s s' : Feed)
      → IsStamped before es s
      → Can e s
      → step fl lib t codec e s ≡ done s'
      → IsStamped before (e ∷ es) s'
  unfolding queue_picture
  step-IsStamped before es (packet pdata mark time) s s' m c h =
      packet-IsStamped before es pdata mark time s s' m h
  step-IsStamped before es (decoded can yuv height width) s s' m c h =
      decoded-IsStamped before es can yuv height width s s' m c h
  step-IsStamped before es (queued p) s s' m c h =
      let (same, small) = queue_picture_lem p s c m.small in
      subst (IsStamped before (queued p ∷ es)) (ap (result s) h) (record {
        stamps = m.stamps;
        first = m.first;
        waits = m.waits;
        counted = m.counted;
        made = same ∙ m.made;
        small = small;
      })
  step-IsStamped before es round s s' m c h =
      let (same, small, first, waits) = input_round_lem s.pic_queue s m.small in
      subst (IsStamped before (round ∷ es)) (ap (result s) h) (record {
        stamps = m.stamps;
        first = first ∙ m.first;
        waits = ap (λ l. m.stamps ++ l) waits ∙ m.waits;
        counted = m.counted;
        made = same ∙ m.made;
        small = small;
      })

  Runs-IsStamped :
      (start : Feed) (es : List Event) (s : Feed)
      → IsFresh start
      → Runs fl lib t codec start es s
      → IsStamped (ids start) es s
  Runs-IsStamped start _ _ f starts = starts-IsStamped start f
  Runs-IsStamped start _ _ f (goes_on {es = es} {s = s} {s' = s'} r e c h) =
      step-IsStamped (ids start) es e s s' (Runs-IsStamped start es s f r) c h

  -- From a fresh state, in whatever order the threads' steps fall: the pictures made are as many as the
  -- decoder's callbacks at which the client wanted boxes, and the times that they carry, followed by the
  -- times that still wait, are those of the marked packets in order, without the first one of an H.264
  -- stream. The pictures that left the queue, deleted or handed to the FPGA, those in it and the one being
  -- made are, in order, the ones before and these; and the queue never holds more than two.
  pub stamped :
      (start : Feed) (es : List Event) (s : Feed)
      → IsFresh start
      → Runs fl lib t codec start es s
      → (stamps : List ℕ) × (stamps ++ s.que_timestamp ≡ awaited codec (marks es))
        × (length stamps ≡ taken es)
        × (ids s ≡ ids start ++ stamps)
        × (length s.pic_queue ≤ 2)
  stamped start es s f r =
      let m = Runs-IsStamped start es s f r in (m.stamps, m.waits, m.counted, m.made, m.small)

  get_elem?-append_here :
      (xs ys : List ℕ) (y : ℕ) (n : ℕ) → length xs ≡ n → get_elem? (xs ++ (y ∷ ys)) n ≡ some y
  get_elem?-append_here [] ys y zero h = refl
  get_elem?-append_here [] ys y (suc n) h = absurd (omega arith)
  get_elem?-append_here (x ∷ xs) ys y zero h = absurd (omega arith)
  get_elem?-append_here (x ∷ xs) ys y (suc n) h = get_elem?-append_here xs ys y n (omega arith)

  -- A callback's assertion fails only where no time waits: what libyuv or the padding does is no abort.
  make_picture-aborted :
      (yuv : List ℕ) (height width : ℕ) (s : Feed) (times : List ℕ)
      → (make_picture fl lib t yuv height width s times ≡ aborted) ↔ (times ≡ [])
  unfolding make_picture
  make_picture-aborted yuv height width s [] = ((λ h. refl), (λ h. refl))
  make_picture-aborted yuv height width s (time ∷ times) = (
    (λ h.
        let (rgb, converted, h') = access_aborts (yuv_to_rgb_scale lib _ yuv height width) _ h in
        let (pad, padded, h'') = access_aborts (block_of (pad_data t rgb)) _ h' in cc),
    (λ h. cc),
  )

  -- In a state that the threads reach from a fresh one, a callback of the decoder at which the client wants
  -- boxes fails its assertion exactly when as many pictures were made as times have been noted. A picture that it makes carries the time of the frame in the place
  -- given by the number of callbacks so far at which the client wanted boxes: the frames whose pictures it
  -- did not want are counted on.
  pub late_stamp :
      (start : Feed) (es : List Event) (s : Feed) (yuv : List ℕ) (height width : ℕ)
      → IsFresh start
      → Runs fl lib t codec start es s
      → ((take_stamp fl lib t true yuv height width s ≡ aborted)
          ↔ (taken es ≡ length (awaited codec (marks es))))
        × ((s' : Feed)
            → take_stamp fl lib t true yuv height width s ≡ done s'
            → (p : FpgaInput) × (s'.making ≡ some p)
              × (get_elem? (awaited codec (marks es)) (taken es) ≡ some p.pic_id))
  unfolding take_stamp
  late_stamp start es s yuv height width f r =
      let m = Runs-IsStamped start es s f r in
      let all = ap length (sym m.waits) ∙ length-append m.stamps s.que_timestamp in
      (
        (
          (λ h.
              let none_left = (make_picture-aborted yuv height width s s.que_timestamp).0 h in
              omega (arith, m.counted, all, ap length none_left)),
          (λ e.
              (make_picture-aborted yuv height width s s.que_timestamp).1
                (empty_list s.que_timestamp (omega (arith, m.counted, all, e)))),
        ),
        (λ s' h.
            let k = make_picture-IsTaken yuv height width s s' s.que_timestamp refl h in
            (
              k.input,
              k.made,
              subst (λ l. get_elem? l (taken es) ≡ some k.input.pic_id)
                  (ap (λ l. m.stamps ++ l) (sym k.time) ∙ m.waits)
                  (get_elem?-append_here m.stamps s'.que_timestamp k.input.pic_id (taken es)
                    m.counted),
            )),
      )
