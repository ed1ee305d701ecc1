-- ===== src/RtpDataManager/H264/Depacketize.antt =====
-- What a packet of an H.264 stream stands for (RFC 6184), and that the parser adds exactly that.
use vcu.Prelude.{
  ℕ, ◌+◌, ◌*◌, ◌/◌, ◌%◌, ◌^◌, ◌≤◌, ◌<◌, ◌≡◌, refl, subst, sym, ap, ◌∙◌, inl, inr, List, [], ◌∷◌,
  ◌++◌,
}
use vcu.Prelude.{
  arith, length, drop, some, none, get_elem?, ltb, leb, ◌==◌, if◌then◌else◌, Bool-cases, bit_and,
}
use vcu.Prelude.Bits.{eq_on_bytes, agree_below, bit_or_disjoint}
use vcu.Prelude.Memory.{IsBytes, drop-IsBytes}
use vcu.Prelude.Outcome.{Outcome, done, aborted, overrun, access, ◌>>=◌}
use vcu.ByteArray.{ByteArray, append_char}
use vcu.RtpModel.{RtpHeader}
use vcu.RtpDataManager.{append_start_code, append_from, start_code}
use vcu.RtpDataManager.H264.{nalu_header, add_fragment_264, add_packet_264}
use vcu.RtpDataManager.Laws.{
  Holds, Adds, append_start_code_lem, append_from_lem, append_char-Holds, drop-drop, get_elem?-drop,
}

-- A fragment, from its second byte on: the first has the unit's type in it and starts the unit, the
-- others have its bytes only. The mark bit must be clear on the first, and set on the last.
unfoldable pub fragment_bytes : ℕ → ℕ → List ℕ → Outcome (List ℕ)
fragment_bytes mark key [] = overrun
fragment_bytes mark key (fu_header ∷ body) =
    if leb 128 fu_header
    then (if mark == 0
        then done (start_code ++ ((key / 32 * 32 + fu_header % 32) ∷ body))
        else aborted)
    else if leb 64 fu_header
    then (if mark == 1 then done body else aborted)
    else done body

-- The bytes of the Annex B stream that a payload stands for.
unfoldable pub payload_bytes : ℕ → List ℕ → Outcome (List ℕ)
payload_bytes mark [] = overrun
payload_bytes mark (key ∷ rest) =
    if ltb (key % 32) 24
    then done (start_code ++ (key ∷ rest))
    else if key % 32 == 28
    then fragment_bytes mark key rest
    else aborted

low_five : (b : ℕ) → b < 256 → bit_and b 0x1f ≡ b % 32
unfolding agree_below
low_five b h = eq_on_bytes (λ x. bit_and x 0x1f) (λ x. x % 32) refl b h

high_three : (b : ℕ) → b < 256 → bit_and b 0xe0 ≡ b / 32 * 2 ^ 5
unfolding agree_below
high_three b h = eq_on_bytes (λ x. bit_and x 0xe0) (λ x. x / 32 * 2 ^ 5) refl b h

start_bit : (b : ℕ) → b < 256 → (bit_and b 0x80 / 2 ^ 7 == 1) ≡ leb 128 b
unfolding agree_below
start_bit b h = ground (arith, eq_on_bytes (λ x. bit_and x 0x80 / 2 ^ 7) (λ x. x / 128) refl b h)

end_bit : (b : ℕ) → b < 128 → (bit_and b 0x40 / 2 ^ 6 == 1) ≡ leb 64 b
unfolding agree_below
end_bit b h =
    ground (arith, eq_on_bytes (λ x. bit_and x 0x40 / 2 ^ 6) (λ x. x / 64 % 2) refl b (omega arith))

pub nalu_header_lem :
    (key fu : ℕ) → key < 256 → fu < 256 → nalu_header key fu ≡ key / 32 * 32 + fu % 32
unfolding nalu_header
nalu_header_lem key fu h k =
    rw (high_three key h, low_five fu k) (bit_or_disjoint 5 (key / 32) (fu % 32) (omega arith))

module _ (header : RtpHeader) (pdata : List ℕ) (full : ByteArray) (small : length pdata ≤ 1500)
    (empty : Holds [] full) where
  add_whole :
      (key : ℕ) (rest : List ℕ)
      → drop 12 pdata ≡ key ∷ rest
      → Adds (append_start_code full >>= append_from 12 pdata) (done (start_code ++ (key ∷ rest)))
  add_whole key rest e =
      let (a, ea, ha) = append_start_code_lem full empty in
      let (b, eb, hb) = append_from_lem 12 pdata start_code a ha (omega arith) in
      rw (ea, eb) (subst (λ t. Holds (start_code ++ t) b) e hb)

  module _ (key fu : ℕ) (body : List ℕ) (e : drop 12 pdata ≡ key ∷ fu ∷ body) where
    drop_fragment : drop 14 pdata ≡ body
    drop_fragment = sym (drop-drop 12 2 14 pdata (omega arith)) ∙ ap (drop 2) e

    second_byte : get_elem? pdata 13 ≡ some fu
    second_byte = get_elem?-drop 12 1 13 pdata (omega arith) ∙ ap (λ t. get_elem? t 1) e

    add_body : Adds (append_from 14 pdata full) (done body)
    add_body =
        let (b, eb, hb) = append_from_lem 14 pdata [] full empty (omega arith) in
        rw eb (subst (λ t. Holds t b) drop_fragment hb)

    add_first :
        Adds
          (append_start_code full >>= λ a.
            access (append_char a (nalu_header key fu)) >>= append_from 14 pdata)
          (done (start_code ++ (nalu_header key fu ∷ body)))
    add_first =
        let (a, ea, ha) = append_start_code_lem full empty in
        let (b, eb, hb) = append_char-Holds (nalu_header key fu) start_code a ha in
        let (c, ec, hc) = append_from_lem 14 pdata _ b hb (omega arith) in
        rw (ea, eb, ec)
          (subst (λ t. Holds (start_code ++ (nalu_header key fu ∷ t)) c) drop_fragment hc)

    add_piece :
        key < 256
        → fu < 256
        → Adds (add_fragment_264 header key pdata full) (fragment_bytes header.mark key (fu ∷ body))
    unfolding add_fragment_264 fragment_bytes
    add_piece hk hf = elim (Bool-cases (leb 128 fu)) [
      | inl first ↦ elim (Bool-cases (header.mark == 0)) [
        | inl clear ↦
            rw (second_byte, start_bit fu hf, first, clear, ← nalu_header_lem key fu hk hf)
              add_first
        | inr marked ↦ rw (second_byte, start_bit fu hf, first, marked) tt
      ]
      | inr later ↦ elim (Bool-cases (leb 64 fu)) [
        | inl last ↦ elim (Bool-cases (header.mark == 1)) [
          | inl marked ↦
              rw (second_byte, start_bit fu hf, end_bit fu (ground arith), later, last, marked)
                add_body
          | inr clear ↦
              rw (second_byte, start_bit fu hf, end_bit fu (ground arith), later, last, clear) tt
        ]
        | inr middle ↦
            rw (second_byte, start_bit fu hf, end_bit fu (ground arith), later, middle) add_body
      ]
    ]

  cut_short :
      (key : ℕ)
      → drop 12 pdata ≡ key ∷ []
      → Adds (add_fragment_264 header key pdata full) (fragment_bytes header.mark key [])
  unfolding add_fragment_264 fragment_bytes
  cut_short key e =
      let past_end : get_elem? pdata 13 ≡ none =
        get_elem?-drop 12 1 13 pdata (omega arith) ∙ ap (λ t. get_elem? t 1) e in
      rw past_end tt

  -- A payload that is not empty adds the bytes that it stands for, or ends as they do.
  pub add_packet_264_lem :
      (key : ℕ) (rest : List ℕ)
      → drop 12 pdata ≡ key ∷ rest
      → IsBytes pdata
      → Adds (add_packet_264 header key pdata full) (payload_bytes header.mark (key ∷ rest))
  unfolding add_packet_264 payload_bytes
  add_packet_264_lem key rest e bytes = split rest e (subst IsBytes e (drop-IsBytes 12 pdata bytes))
    where
      other :
          (rest : List ℕ)
          → drop 12 pdata ≡ key ∷ rest
          → key < 256
          → Adds (add_fragment_264 header key pdata full) (fragment_bytes header.mark key rest)
          → Adds (add_packet_264 header key pdata full) (payload_bytes header.mark (key ∷ rest))
      other rest e hk fragment = elim (Bool-cases (ltb (key % 32) 24)) [
        | inl single ↦ rw (low_five key hk, single) (add_whole key rest e)
        | inr no_single ↦ elim (Bool-cases (key % 32 == 28)) [
          | inl fu_a ↦ rw (low_five key hk, no_single, fu_a) fragment
          | inr unknown ↦ rw (low_five key hk, no_single, unknown) tt
        ]
      ]

      split :
          (rest : List ℕ)
          → drop 12 pdata ≡ key ∷ rest
          → IsBytes (key ∷ rest)
          → Adds (add_packet_264 header key pdata full) (payload_bytes header.mark (key ∷ rest))
      split [] e h = other [] e h.0 (cut_short key e)
      split (fu ∷ body) e h = other (fu ∷ body) e h.0 (add_piece key fu body e h.0 h.1.0)
