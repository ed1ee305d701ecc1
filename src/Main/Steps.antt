-- ===== src/Main/Steps.antt =====
-- What each step does to the times that wait and to the pictures in order.
use vcu.Prelude.{
  ℕ, ◌≤◌, ◌≡◌, refl, sym, ap, ◌∙◌, Bool, true, false, Option, none, some, List, [], ◌∷◌, ◌++◌, map,
  append_assoc, append-nil, arith, length, length-append, if◌then◌else◌,
}
use mathlib.Core.List.{map-append}
use vcu.Prelude.Outcome.{Outcome, done, aborted, overrun, access, ◌>>=◌}
use vcu.RtpDataManager.Thread.{CodecType, h264, h265}
use vcu.Main.{FpgaInput, Departed, Feed, note_mark, drop_head, queue_picture, input_round}
use vcu.Main.Events.{as_list, picture, id_of, ids, awaited, passes_over}

-- A bind that ends has both parts end.
pub bind-done {ℓ κ} :
    {A : Type ℓ} {B : Type κ} (m : Outcome A) (f : A → Outcome B) {b : B}
    → (m >>= f) ≡ done b
    → (a : A) × (m ≡ done a) × (f a ≡ done b)
bind-done (done a) f h = (a, refl, h)
bind-done aborted f h = cc
bind-done overrun f h = cc

pub access_aborts {ℓ κ} :
    {A : Type ℓ} {B : Type κ} (o : Option A) (f : A → Outcome B)
    → (access o >>= f) ≡ aborted
    → (a : A) × (o ≡ some a) × (f a ≡ aborted)
access_aborts none f h = cc
access_aborts (some a) f h = (a, refl, h)

pub empty_list : (xs : List ℕ) → length xs ≡ 0 → xs ≡ []
empty_list [] h = refl
empty_list (x ∷ xs) h = absurd (omega arith)

abbrev pub result {ℓ} : {A : Type ℓ} → A → Outcome A → A
result d (done a) = a
result d aborted = d
result d overrun = d

pub note_mark_lem :
    (codec : CodecType) (mark : Bool) (time : ℕ) (ms : List ℕ)
    → let n = note_mark codec mark (passes_over codec ms) time in
      let ms' = if mark then ms ++ (time ∷ []) else ms in
      (n.0 ≡ passes_over codec ms') × (awaited codec ms ++ n.1 ≡ awaited codec ms')
unfolding note_mark
note_mark_lem h264 true time [] = (refl, refl)
note_mark_lem h264 true time (m ∷ ms) = (refl, refl)
note_mark_lem h265 true time ms = (refl, refl)
note_mark_lem codec false time ms = (refl, append-nil _)

-- The picture that is made behind those queued
pub ids_making :
    (p : FpgaInput) (gone : List Departed) (queue : List FpgaInput)
    → map id_of (map picture gone ++ (queue ++ (p ∷ [])))
      ≡ map id_of (map picture gone ++ (queue ++ [])) ++ (p.pic_id ∷ [])
ids_making p gone queue = simp (append-nil, map-append, append_assoc)

pub nothing_awaited : (codec : CodecType) → (true ≡ passes_over codec []) × ([] ≡ awaited codec [])
nothing_awaited h264 = (refl, refl)
nothing_awaited h265 = (refl, refl)

-- Picking the newest queued picture leaves the order alone.
drop_head_lem :
    (queue : List FpgaInput) (gone : List Departed)
    → length queue ≤ 2
    → let d = drop_head queue gone in
      (map picture d.1 ++ d.0 ≡ map picture gone ++ queue) × (length d.0 ≤ 1)
unfolding drop_head
drop_head_lem [] gone h = (refl, omega arith)
drop_head_lem (p ∷ []) gone h = (refl, omega arith)
drop_head_lem (p ∷ q ∷ []) gone h = (simp (map-append, append_assoc), omega arith)
drop_head_lem (p ∷ q ∷ r ∷ rest) gone h = absurd (omega arith)

pub queue_picture_lem :
    (p : FpgaInput) (s : Feed)
    → s.making ≡ some p
    → length s.pic_queue ≤ 2
    → (ids (queue_picture p s) ≡ ids s) × (length (queue_picture p s).pic_queue ≤ 2)
unfolding queue_picture
queue_picture_lem p s busy h =
    let (same, small) = drop_head_lem s.pic_queue s.gone h in
    let regroup : (xs ys : List FpgaInput)
        → xs ++ ((ys ++ (p ∷ [])) ++ []) ≡ (xs ++ ys) ++ (p ∷ []) =
      λ xs ys. simp (append-nil, append_assoc) in
    (
      ap (map id_of) (
          regroup _ (drop_head s.pic_queue s.gone).0
          ∙ ap (λ l. l ++ (p ∷ [])) same
          ∙ append_assoc _ s.pic_queue (p ∷ [])
          ∙ ap (λ m. map picture s.gone ++ (s.pic_queue ++ as_list m)) (sym busy)),
      omega (arith, length-append (drop_head s.pic_queue s.gone).0 (p ∷ [])),
    )

pub input_round_lem :
    (queue : List FpgaInput) (s : Feed)
    → length queue ≤ 2
    → let s' = input_round (record s { pic_queue = queue }) in
      (ids s' ≡ ids (record s { pic_queue = queue }))
      × (length s'.pic_queue ≤ 2)
      × (s'.isfirst ≡ s.isfirst)
      × (s'.que_timestamp ≡ s.que_timestamp)
unfolding input_round
input_round_lem [] s h = (refl, h, refl, refl)
input_round_lem (p ∷ rest) s h =
    (ap (map id_of) (simp (map-append, append_assoc)), omega arith, refl, refl)
