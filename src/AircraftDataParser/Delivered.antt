-- ===== src/AircraftDataParser/Delivered.antt =====
-- A packet that arrives in pieces is delivered once, whole.
use vcu.Prelude.{
  take_enough, drop_enough, joined, ℕ, ◌+◌, ◌≤◌, ◌<◌, ◌≡◌, refl, sym, ap, ◌∙◌, inl, List, [], ◌∷◌,
  ◌++◌, append_assoc, append-nil,
}
use vcu.Prelude.{arith, length, take, drop, pos, length-append}
use vcu.Prelude.Outcome.{done, overrun}
use vcu.ByteArray.{contents}
use vcu.ByteArray.Valid.{IsValid, length-contents}
use vcu.AircraftDataParser.{AircraftData, no_value, get_msgid, statements, leave, parser}
use vcu.AircraftDataParser.Packets.{
  incomplete, packet, packet_at, find, View, step, receive, payload,
}
use vcu.AircraftDataParser.Round.{view}
use vcu.AircraftDataParser.Refine.{parser_refines}
use vcu.AircraftDataParser.Pieces.{Head, gps_packet, feed, take-append, find-front, find-gps_packet}

nonempty :
    (xs : List ℕ) (x : ℕ) (last : List ℕ) → (y : ℕ) × (ys : List ℕ) × (xs ++ (x ∷ last) ≡ y ∷ ys)
nonempty [] x last = (x, last, refl)
nonempty (y ∷ ys) x last = (y, ys ++ (x ∷ last), refl)

module _ (h : Head) (bytes : List ℕ) (low high : ℕ) where
  abbrev whole : List ℕ
  whole = gps_packet h bytes low high

  length-whole : length whole ≡ 12 + length bytes
  length-whole = omega (arith, length-append bytes (low ∷ high ∷ []))

  abbrev delivered : View → View
  delivered v = record v { held = []; gps_data = take 28 bytes }

  step-whole :
      (v : View)
      → 28 ≤ length bytes
      → v.held ≡ whole
      → (step v (packet (packet_at whole 0))).1 ≡ delivered v
  unfolding step get_msgid
  step-whole v enough e =
      let cut : drop (0 + (10 + length bytes + 2)) whole ≡ [] =
        drop_enough _ whole (omega (arith, length-whole)) in
      let data_bytes : payload whole (packet_at whole 0) ≡ take 28 bytes =
        take-append 28 bytes (low ∷ high ∷ []) enough in
      rw (e, cut, data_bytes) refl

  size_lem :
      (s : AircraftData) (piece rest : List ℕ)
      → IsValid s.full_packet
      → contents s.full_packet ++ (piece ++ rest) ≡ whole
      → s.full_packet.data_size + length piece ≤ 12 + length bytes
  size_lem s piece rest v e = omega (
    arith,
    length-contents s.full_packet v,
    ap length e,
    length-append (contents s.full_packet) (piece ++ rest),
    length-append piece rest,
    length-whole,
  )

  waits :
      (s : AircraftData) (piece : List ℕ) (x : ℕ) (rest : List ℕ)
      → IsValid s.full_packet
      → 12 + length bytes < s.full_packet.capacity
      → 12 + length bytes < 1024
      → contents s.full_packet ++ (piece ++ (x ∷ rest)) ≡ whole
      → (s' : AircraftData) × (parser s piece (pos (length piece)) ≡ done s')
        × IsValid s'.full_packet
        × (view s' ≡ record (view s) { held = contents s.full_packet ++ piece })
        × (s.full_packet.capacity ≤ s'.full_packet.capacity)
  unfolding receive step leave
  waits s piece x rest v room small e =
      let size = size_lem s piece (x ∷ rest) v e in
      let front : find (contents s.full_packet ++ piece) ≡ incomplete =
        find-front h bytes low high _ x rest
          (append_assoc (contents s.full_packet) piece (x ∷ rest) ∙ e) in
      let held : contents s.full_packet ++ take (length piece) piece
          ≡ contents s.full_packet ++ piece =
        ap (λ l. contents s.full_packet ++ l) (take_enough (length piece) piece (omega arith)) in
      let ((r, s'), _, called, ends) =
        parser_refines s piece (length piece) v (omega arith) (inl (omega arith)) (omega arith)
          (rw (held, front) refl) in
      let (null_result, v', out, kept) = rw (held, front) at ends in
      (s', called ∙ ap (λ t. leave (t, s')) null_result, v', out, kept)

  delivers :
      (s : AircraftData) (piece : List ℕ)
      → IsValid s.full_packet
      → 12 + length bytes < s.full_packet.capacity
      → 12 + length bytes < 1024
      → 28 ≤ length bytes
      → contents s.full_packet ++ piece ≡ whole
      → (s' : AircraftData) × (statements s piece (pos (length piece)) ≡ done (no_value, s'))
        × (parser s piece (pos (length piece)) ≡ overrun)
        × IsValid s'.full_packet
        × (view s' ≡ delivered (view s))
  unfolding receive step get_msgid leave
  delivers s piece v room small enough e =
      let size =
        size_lem s piece [] v (ap (λ l. contents s.full_packet ++ l) (append-nil piece) ∙ e) in
      let held : contents s.full_packet ++ take (length piece) piece ≡ whole =
        ap (λ l. contents s.full_packet ++ l) (take_enough (length piece) piece (omega arith))
        ∙ e in
      let found = find-gps_packet h bytes low high in
      let ((r, s'), parsed, called, ends) =
        parser_refines s piece (length piece) v (omega arith) (inl (omega arith)) (omega arith)
          (rw (held, found) (ground arith)) in
      let (at_end, v', out, _) = rw (held, found) at ends in
      (
        s',
        parsed ∙ ap (λ t. done (t, s')) at_end,
        called ∙ ap (λ t. leave (t, s')) at_end,
        v',
        out ∙ step-whole (record (view s) { held = whole }) enough refl,
      )

  -- However a GPS packet is cut into pieces, the calls on all pieces but the last return, and the
  -- statements of the last call lead to the end of the function, having filled `gps_data` with the first
  -- 28 bytes of the payload, left `attitude_data` as it was and left nothing held. That call is undefined, as
  -- there is no `return` at the end, and so are the calls on the pieces as a whole. The array is valid with
  -- room for the packet, and the bytes it holds before, if any, are the front of the packet that the pieces
  -- go on with; the payload has at least 28 bytes, the packet fewer than 1024; the last piece is not empty.
  pub gps_packet_delivered :
      (s : AircraftData) (pieces : List (List ℕ)) (x : ℕ) (last : List ℕ)
      → IsValid s.full_packet
      → 12 + length bytes < s.full_packet.capacity
      → 12 + length bytes < 1024
      → 28 ≤ length bytes
      → contents s.full_packet ++ (joined pieces ++ (x ∷ last)) ≡ whole
      → (s1 : AircraftData) × (s' : AircraftData) × (feed s pieces ≡ done s1)
        × (statements s1 (x ∷ last) (pos (length (x ∷ last))) ≡ done (no_value, s'))
        × (feed s (pieces ++ ((x ∷ last) ∷ [])) ≡ overrun)
        × IsValid s'.full_packet
        × (view s'
            ≡ record { held = []; gps_data = take 28 bytes; attitude_data = s.attitude_data })
  unfolding feed
  gps_packet_delivered s [] x last v room small enough e =
      let (s', parsed, called, v', out) = delivers s (x ∷ last) v room small enough e in
      (s, s', refl, parsed, rw called refl, v', out)
  gps_packet_delivered s (piece ∷ pieces) x last v room small enough e =
      let (y, ys, later) = nonempty (joined pieces) x last in
      let shifted : contents s.full_packet ++ (piece ++ (joined pieces ++ (x ∷ last))) ≡ whole =
        ap (λ l. contents s.full_packet ++ l) (sym (append_assoc piece (joined pieces) (x ∷ last)))
        ∙ e in
      let (s1, parsed, v1, out1, kept) =
        waits s piece y ys v room small
          (ap (λ l. contents s.full_packet ++ (piece ++ l)) (sym later) ∙ shifted) in
      let joint : contents s1.full_packet ++ (joined pieces ++ (x ∷ last)) ≡ whole =
        ap (λ (w : View). w.held ++ (joined pieces ++ (x ∷ last))) out1
        ∙ append_assoc (contents s.full_packet) piece (joined pieces ++ (x ∷ last))
        ∙ shifted in
      let (s2, s3, fed, ended, undefined, v3, out3) =
        gps_packet_delivered s1 pieces x last v1 (omega arith) small enough joint in
      (s2, s3, rw parsed fed, ended, rw parsed undefined, v3, out3 ∙ ap delivered out1)
