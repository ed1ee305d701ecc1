-- ===== src/RtpDataManager/H265/Depacketize.antt =====
-- What a packet of an H.265 stream stands for (RFC 7798), and that the parser adds exactly that where
-- the layer id fits its low five bits.
use vcu.Prelude.{
  ℕ, ◌+◌, ◌*◌, ◌/◌, ◌%◌, ◌^◌, ◌≤◌, ◌<◌, ◌≡◌, refl, subst, sym, ap, ◌∙◌, inl, inr, List, [], ◌∷◌,
  ◌++◌,
}
use vcu.Prelude.{
  arith, length, drop, some, get_elem?, leb, ◌==◌, if◌then◌else◌, Bool, true, false, Bool-cases,
  bit_and, bit_or,
}
use native.Mathlib.Decide.{dec_lt}
use vcu.Prelude.Bits.{eq_on_bytes, agree_below}
use vcu.Prelude.Memory.{IsBytes, drop-IsBytes}
use vcu.Prelude.Outcome.{Outcome, done, aborted, overrun, access, check, ◌>>=◌, ◌>>◌}
use vcu.ByteArray.{ByteArray, append_char}
use vcu.RtpModel.{RtpHeader}
use vcu.RtpDataManager.{append_start_code, append_from, start_code}
use vcu.RtpDataManager.H265.{nalu_header_1, add_fragment_265, add_packet_265}
use vcu.RtpDataManager.Laws.{
  Holds, Adds, append_start_code_lem, append_from_lem, append_char-Holds, drop-drop, get_elem?-drop,
}

-- The first byte of a unit's header: the forbidden bit and the layer id's high bit of the packet's
-- first byte, around the unit type that the fragment names.
abbrev pub unit_header : ℕ → ℕ → ℕ
unit_header key fu_header = key / 128 * 128 + fu_header % 64 * 2 + key % 2

-- A fragment, from its second byte on.
unfoldable pub fragment_bytes : ℕ → ℕ → List ℕ → Outcome (List ℕ)
fragment_bytes mark key (second ∷ fu_header ∷ body) =
    if leb 128 fu_header
    then (if mark == 0
        then done (start_code ++ (unit_header key fu_header ∷ second ∷ body))
        else aborted)
    else if leb 64 fu_header
    then (if mark == 1 then done body else aborted)
    else done body
fragment_bytes mark key _ = overrun

-- The bytes of the Annex B stream that a payload stands for; combined packets are refused.
unfoldable pub payload_bytes : ℕ → List ℕ → Outcome (List ℕ)
payload_bytes mark [] = overrun
payload_bytes mark (key ∷ rest) =
    if key / 2 % 64 == 49
    then fragment_bytes mark key rest
    else if key / 2 % 64 == 48
    then aborted
    else done (start_code ++ (key ∷ rest))

unit_type : (b : ℕ) → b < 256 → bit_and (b / 2) 0x3f ≡ b / 2 % 64
unfolding agree_below
unit_type b h = eq_on_bytes (λ x. bit_and (x / 2) 0x3f) (λ x. x / 2 % 64) refl b h

start_bit : (b : ℕ) → b < 256 → (bit_and (b / 2 ^ 7) 0x01 == 1) ≡ leb 128 b
unfolding agree_below
start_bit b h = ground (arith, eq_on_bytes (λ x. bit_and (x / 2 ^ 7) 0x01) (λ x. x / 128) refl b h)

end_bit : (b : ℕ) → b < 128 → (bit_and (b / 2 ^ 6) 0x01 == 1) ≡ leb 64 b
unfolding agree_below
end_bit b h =
    ground
      (arith, eq_on_bytes (λ x. bit_and (x / 2 ^ 6) 0x01) (λ x. x / 64 % 2) refl b (omega arith))

type_bits : (b : ℕ) → b < 256 → bit_and b 0x3f * 2 % 2 ^ 8 ≡ b % 64 * 2
unfolding agree_below
type_bits b h = eq_on_bytes (λ x. bit_and x 0x3f * 2 % 2 ^ 8) (λ x. x % 64 * 2) refl b h

forbidden_bit : (b : ℕ) → b < 256 → bit_and b 0x80 ≡ b / 128 * 128
unfolding agree_below
forbidden_bit b h = eq_on_bytes (λ x. bit_and x 0x80) (λ x. x / 128 * 128) refl b h

without_bit : (b : ℕ) → b < 256 → bit_or (b % 64 * 2) 0 ≡ 0 + b % 64 * 2
unfolding agree_below
without_bit b h = eq_on_bytes (λ x. bit_or (x % 64 * 2) 0) (λ x. 0 + x % 64 * 2) refl b h

with_bit : (b : ℕ) → b < 256 → bit_or (b % 64 * 2) 128 ≡ 128 + b % 64 * 2
unfolding agree_below
with_bit b h = eq_on_bytes (λ x. bit_or (x % 64 * 2) 128) (λ x. 128 + x % 64 * 2) refl b h

header_bits :
    (key fu : ℕ) → key < 256 → fu < 256 → nalu_header_1 key fu ≡ key / 128 * 128 + fu % 64 * 2
unfolding nalu_header_1
header_bits key fu h k = elim (dec_lt key 128) [
  | yes low ↦
      let clear : key / 128 * 128 ≡ 0 = omega arith in
      rw (type_bits fu k, forbidden_bit key h, clear) (without_bit fu k)
  | no high ↦
      let set : key / 128 * 128 ≡ 128 = omega arith in
      rw (type_bits fu k, forbidden_bit key h, set) (with_bit fu k)
]

-- The header byte that the parser rebuilds is the unit's, less the high bit of its layer id.
pub nalu_header_1_lem :
    (key fu : ℕ) → key < 256 → fu < 256 → nalu_header_1 key fu + key % 2 ≡ unit_header key fu
nalu_header_1_lem key fu h k = omega (arith, header_bits key fu h k)

module _ (header : RtpHeader) (pdata : List ℕ) (full : ByteArray) (small : length pdata ≤ 1500)
    (empty : Holds [] full) where
  add_whole :
      (key : ℕ) (rest : List ℕ)
      → drop 12 pdata ≡ key ∷ rest
      → Adds (append_start_code full >>= append_from 12 pdata) (done (start_code ++ (key ∷ rest)))
  add_whole key rest e =
      let (a, ea, ha) = append_start_code_lem full empty in
      let (b, eb, hb) = append_from_lem 12 pdata start_code a ha (omega arith) in
      rw (ea, eb) (subst (λ t. Holds (start_code ++ t) b) e hb)

  module _ (key second fu : ℕ) (body : List ℕ) (e : drop 12 pdata ≡ key ∷ second ∷ fu ∷ body) where
    drop_fragment : drop 15 pdata ≡ body
    drop_fragment = sym (drop-drop 12 3 15 pdata (omega arith)) ∙ ap (drop 3) e

    second_byte : get_elem? pdata 13 ≡ some second
    second_byte = get_elem?-drop 12 1 13 pdata (omega arith) ∙ ap (λ t. get_elem? t 1) e

    third_byte : get_elem? pdata 14 ≡ some fu
    third_byte = get_elem?-drop 12 2 14 pdata (omega arith) ∙ ap (λ t. get_elem? t 2) e

    -- The later fragments, with the check of the mark bit behind the append.
    add_body :
        (ok : Bool)
        → Adds
            (append_from 15 pdata full >>= λ a. check ok >> done a)
            (if ok then done body else aborted)
    add_body ok =
        let (b, eb, hb) = append_from_lem 15 pdata [] full empty (omega arith) in
        elim ok
          as (λ c.
            Adds (append_from 15 pdata full >>= λ a. check c >> done a)
              (if c then done body else aborted)) [
                | true ↦ rw eb (subst (λ t. Holds t b) drop_fragment hb)
                | false ↦ rw eb tt
              ]

    add_middle : Adds (append_from 15 pdata full) (done body)
    add_middle =
        let (b, eb, hb) = append_from_lem 15 pdata [] full empty (omega arith) in
        rw eb (subst (λ t. Holds t b) drop_fragment hb)

    add_first :
        (h : ℕ) (ok : Bool)
        → Adds
            (append_start_code full >>= λ a. access (append_char a h) >>= λ b.
              access (append_char b second) >>= λ c.
              append_from 15 pdata c >>= λ d. check ok >> done d)
            (if ok then done (start_code ++ (h ∷ second ∷ body)) else aborted)
    add_first h ok =
        let (a, ea, ha) = append_start_code_lem full empty in
        let (b, eb, hb) = append_char-Holds h start_code a ha in
        let (c, ec, hc) = append_char-Holds second _ b hb in
        let (d, ed, hd) = append_from_lem 15 pdata _ c hc (omega arith) in
        let held = subst (λ t. Holds (start_code ++ (h ∷ second ∷ t)) d) drop_fragment hd in
        rw (ea, eb, ec, ed) (last ok d held)
      where
        last :
            (ok : Bool) (d : ByteArray)
            → Holds (start_code ++ (h ∷ second ∷ body)) d
            → Adds
                (check ok >> done d)
                (if ok then done (start_code ++ (h ∷ second ∷ body)) else aborted)
        last true d held = held
        last false d held = tt

    -- The layer id's high bit is clear.
    add_piece :
        key < 256
        → fu < 256
        → key % 2 ≡ 0
        → Adds
            (add_fragment_265 header key pdata full)
            (fragment_bytes header.mark key (second ∷ fu ∷ body))
    unfolding add_fragment_265 fragment_bytes
    add_piece hk hf layer =
        let name : nalu_header_1 key fu ≡ unit_header key fu =
          omega (arith, nalu_header_1_lem key fu hk hf) in
        elim (Bool-cases (leb 128 fu)) [
          | inl first ↦
              rw (third_byte, second_byte, start_bit fu hf, first, ← name)
                (add_first (nalu_header_1 key fu) (header.mark == 0))
          | inr later ↦ elim (Bool-cases (leb 64 fu)) [
            | inl last ↦
                rw
                  (third_byte, second_byte, start_bit fu hf, end_bit fu (ground arith), later, last)
                  (add_body (header.mark == 1))
            | inr middle ↦
                rw
                  (
                    third_byte,
                    second_byte,
                    start_bit fu hf,
                    end_bit fu (ground arith),
                    later,
                    middle,
                  )
                  add_middle
          ]
        ]

  cut_short :
      (key : ℕ) (rest : List ℕ)
      → drop 12 pdata ≡ key ∷ rest
      → length rest < 2
      → Adds (add_fragment_265 header key pdata full) (fragment_bytes header.mark key rest)
  unfolding add_fragment_265 fragment_bytes
  cut_short key (a ∷ b ∷ rest) e h = absurd (omega arith)
  cut_short key [] e h =
      rw (get_elem?-drop 12 2 14 pdata (omega arith) ∙ ap (λ t. get_elem? t 2) e) tt
  cut_short key (a ∷ []) e h =
      rw (get_elem?-drop 12 2 14 pdata (omega arith) ∙ ap (λ t. get_elem? t 2) e) tt

  -- A payload that is not empty, of a unit whose layer id is below 32, adds the bytes that it stands
  -- for, or ends as they do.
  pub add_packet_265_lem :
      (key : ℕ) (rest : List ℕ)
      → drop 12 pdata ≡ key ∷ rest
      → IsBytes pdata
      → key % 2 ≡ 0
      → Adds (add_packet_265 header key pdata full) (payload_bytes header.mark (key ∷ rest))
  unfolding add_packet_265 payload_bytes
  add_packet_265_lem key rest e bytes layer =
      split rest e (subst IsBytes e (drop-IsBytes 12 pdata bytes))
    where
      other :
          (rest : List ℕ)
          → drop 12 pdata ≡ key ∷ rest
          → key < 256
          → Adds (add_fragment_265 header key pdata full) (fragment_bytes header.mark key rest)
          → Adds (add_packet_265 header key pdata full) (payload_bytes header.mark (key ∷ rest))
      other rest e hk fragment = elim (Bool-cases (key / 2 % 64 == 49)) [
        | inl piece ↦ rw (unit_type key hk, piece) fragment
        | inr no_piece ↦ elim (Bool-cases (key / 2 % 64 == 48)) [
          | inl combined ↦ rw (unit_type key hk, no_piece, combined) tt
          | inr single ↦ rw (unit_type key hk, no_piece, single) (add_whole key rest e)
        ]
      ]

      split :
          (rest : List ℕ)
          → drop 12 pdata ≡ key ∷ rest
          → IsBytes (key ∷ rest)
          → Adds (add_packet_265 header key pdata full) (payload_bytes header.mark (key ∷ rest))
      split [] e h = other [] e h.0 (cut_short key [] e (omega arith))
      split (a ∷ []) e h = other (a ∷ []) e h.0 (cut_short key (a ∷ []) e (omega arith))
      split (a ∷ fu ∷ body) e h =
          other (a ∷ fu ∷ body) e h.0 (add_piece key a fu body e h.0 h.1.1.0 layer)
