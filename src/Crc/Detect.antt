-- ===== src/Crc/Detect.antt =====
-- The checksum tells apart any two messages that differ in one byte.
use vcu.Prelude.{
  ℕ, zero, suc, ◌/◌, ◌%◌, ◌^◌, ◌<◌, ◌≡◌, ◌≢◌, refl, sym, ap, ◌∙◌, List, [], ◌∷◌, ◌++◌, arith,
  bit_xor, ◌⊎◌, inl, inr,
}
use vcu.Prelude.Bits.{bit_xor-lt}
use vcu.Prelude.Bits.Xor.{bit_xor_comm, bit_xor_cancel, bit_xor-injective}
use vcu.Prelude.Memory.{IsBytes}
use vcu.Crc.{crc_round, crc_rounds, crc_byte, crc_bytes, crc16_code}
use vcu.Crc.Residue.{
  crc_round-even, crc_round-odd, crc_round-lt, crc_byte-lt, crc_bytes-lt, crc_bytes-append,
}

parity : (t : ℕ) → (t % 2 ≡ 0) ⊎ (t % 2 ≡ 1)
parity t = omega arith

poly_injective : (x y : ℕ) → bit_xor x 0xa001 ≡ bit_xor y 0xa001 → x ≡ y
poly_injective x y e =
    bit_xor-injective 0xa001 x y (bit_xor_comm 0xa001 x ∙ e ∙ bit_xor_comm y 0xa001)

-- The polynomial's high bit shows whether a round used it.
poly_high : (x y : ℕ) → x < 2 ^ 15 → y < 2 ^ 15 → bit_xor x 0xa001 ≢ y
poly_high x y hx hy e =
    let back : 0xa001 ≡ bit_xor x y = sym (bit_xor_cancel x 0xa001) ∙ ap (bit_xor x) e in
    absurd (omega (arith, back, bit_xor-lt 15 x y hx hy))

crc_round-injective : (x y : ℕ) → x < 2 ^ 16 → y < 2 ^ 16 → crc_round x ≡ crc_round y → x ≡ y
crc_round-injective x y hx hy e = elim (parity x) [
  | inl p ↦ elim (parity y) [
    | inl q ↦ omega (arith, crc_round-even x p, crc_round-even y q)
    | inr q ↦ absurd (
        poly_high (y / 2) (x / 2) (omega arith) (omega arith)
          (sym (crc_round-odd y q) ∙ sym e ∙ crc_round-even x p))
  ]
  | inr p ↦ elim (parity y) [
    | inl q ↦ absurd (
        poly_high (x / 2) (y / 2) (omega arith) (omega arith)
          (sym (crc_round-odd x p) ∙ e ∙ crc_round-even y q))
    | inr q ↦
        omega
          (arith, poly_injective (x / 2) (y / 2) (sym (crc_round-odd x p) ∙ e ∙ crc_round-odd y q))
  ]
]

crc_rounds-injective :
    (i x y : ℕ) → x < 2 ^ 16 → y < 2 ^ 16 → crc_rounds i x ≡ crc_rounds i y → x ≡ y
unfolding crc_rounds
crc_rounds-injective zero x y hx hy e = e
crc_rounds-injective (suc i) x y hx hy e =
    crc_round-injective x y hx hy
      (crc_rounds-injective i (crc_round x) (crc_round y) (crc_round-lt x hx) (crc_round-lt y hy) e)

module _ (x y : ℕ) (hx : x < 2 ^ 16) (hy : y < 2 ^ 16) where
  crc_byte-injective :
      (b c : ℕ) → b < 256 → c < 256 → crc_byte x b ≡ crc_byte y c → bit_xor b x ≡ bit_xor c y
  unfolding crc_byte
  crc_byte-injective b c hb hc e =
      crc_rounds-injective 8 (bit_xor b x) (bit_xor c y) (bit_xor-lt 16 b x (omega arith) hx)
        (bit_xor-lt 16 c y (omega arith) hy) e

crc_bytes-injective :
    (x y : ℕ) (buf : List ℕ)
    → x < 2 ^ 16
    → y < 2 ^ 16
    → IsBytes buf
    → crc_bytes x buf ≡ crc_bytes y buf
    → x ≡ y
unfolding crc_bytes
crc_bytes-injective x y [] hx hy h e = e
crc_bytes-injective x y (b ∷ buf) hx hy (hb, h) e = bit_xor-injective b x y (
    crc_byte-injective x y hx hy b b hb hb (
      crc_bytes-injective (crc_byte x b) (crc_byte y b) buf (crc_byte-lt x b hx hb)
        (crc_byte-lt y b hy hb) h e))

crc16_code-append :
    (xs ys : List ℕ) (b : ℕ)
    → crc16_code (xs ++ (b ∷ ys)) ≡ crc_bytes (crc_byte (crc_bytes 0xffff xs) b) ys
unfolding crc16_code crc_bytes
crc16_code-append [] ys b = refl
crc16_code-append (x ∷ xs) ys b = crc_bytes-append 0xffff (x ∷ xs) (b ∷ ys)

-- Two messages that differ in exactly one byte, wherever it stands, have different checksums.
pub crc16_code_detects :
    (before after : List ℕ) (b c : ℕ)
    → IsBytes before
    → IsBytes after
    → b < 256
    → c < 256
    → b ≢ c
    → crc16_code (before ++ (b ∷ after)) ≢ crc16_code (before ++ (c ∷ after))
crc16_code_detects before after b c hbefore hafter hb hc ne e =
    let t = crc_bytes 0xffff before in
    let ht : t < 2 ^ 16 = crc_bytes-lt 0xffff before (omega arith) hbefore in
    let rest : crc_bytes (crc_byte t b) after ≡ crc_bytes (crc_byte t c) after =
      sym (crc16_code-append before after b) ∙ e ∙ crc16_code-append before after c in
    let same =
      crc_bytes-injective (crc_byte t b) (crc_byte t c) after (crc_byte-lt t b ht hb)
        (crc_byte-lt t c ht hc) hafter rest in
    ne (
      bit_xor-injective t b c
        (bit_xor_comm t b ∙ crc_byte-injective t t ht ht b c hb hc same ∙ bit_xor_comm c t))
