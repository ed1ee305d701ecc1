-- ===== src/Crc/Residue.antt =====
-- A message in front of its checksum, low byte first, has the checksum 0.
use vcu.Prelude.{
  ℕ, zero, suc, ◌+◌, ◌*◌, ◌/◌, ◌%◌, ◌^◌, ◌<◌, ◌≡◌, refl, sym, ap, ◌∙◌, List, [], ◌∷◌, ◌++◌, arith,
  bit_xor,
}
use vcu.Prelude.Bits.{bit_xor_low, bit_xor-lt, bit_and-one, scale_suc}
use vcu.Prelude.Memory.{IsBytes}
use vcu.Crc.{crc_round, crc_rounds, crc_byte, crc_bytes, crc16_code}

-- The tests and the two branches of a round, as arithmetic.
pub crc_round-even : (t : ℕ) → t % 2 ≡ 0 → crc_round t ≡ t / 2
unfolding crc_round
crc_round-even t h = rw (bit_and-one t, h)

pub crc_round-odd : (t : ℕ) → t % 2 ≡ 1 → crc_round t ≡ bit_xor (t / 2) 0xa001
unfolding crc_round
crc_round-odd t h = rw (bit_and-one t, h)

pub crc_round-lt : (t : ℕ) → t < 2 ^ 16 → crc_round t < 2 ^ 16
unfolding crc_round
crc_round-lt t h = ground (arith, bit_xor-lt 16 (t / 2) 0xa001 (omega arith) (omega arith))

pub crc_rounds-lt : (i t : ℕ) → t < 2 ^ 16 → crc_rounds i t < 2 ^ 16
unfolding crc_rounds
crc_rounds-lt zero t h = h
crc_rounds-lt (suc i) t h = crc_rounds-lt i (crc_round t) (crc_round-lt t h)

pub crc_byte-lt : (t b : ℕ) → t < 2 ^ 16 → b < 256 → crc_byte t b < 2 ^ 16
unfolding crc_byte
crc_byte-lt t b h k = crc_rounds-lt 8 (bit_xor b t) (bit_xor-lt 16 b t (omega arith) h)

pub crc_bytes-lt : (t : ℕ) (buf : List ℕ) → t < 2 ^ 16 → IsBytes buf → crc_bytes t buf < 2 ^ 16
unfolding crc_bytes
crc_bytes-lt t [] h k = h
crc_bytes-lt t (b ∷ buf) h (hb, k) = crc_bytes-lt (crc_byte t b) buf (crc_byte-lt t b h hb) k

pub crc_bytes-append :
    (t : ℕ) (xs ys : List ℕ) → crc_bytes t (xs ++ ys) ≡ crc_bytes (crc_bytes t xs) ys
unfolding crc_bytes
crc_bytes-append t [] ys = refl
crc_bytes-append t (x ∷ xs) ys = crc_bytes-append (crc_byte t x) xs ys

crc_round-double : (q : ℕ) → crc_round (q * 2) ≡ q
crc_round-double q = crc_round-even (q * 2) (omega arith) ∙ omega arith

-- Rounds that see only zero bits are a shift.
crc_rounds-shift : (i q : ℕ) → crc_rounds i (q * 2 ^ i) ≡ q
unfolding crc_rounds
crc_rounds-shift zero q = omega arith
crc_rounds-shift (suc i) q =
    ap (λ t. crc_rounds i (crc_round t)) (scale_suc q i)
    ∙ ap (crc_rounds i) (crc_round-double (q * 2 ^ i))
    ∙ crc_rounds-shift i q

-- The low byte of the checksum, then the high one, clear it.
crc_byte-low : (t : ℕ) → crc_byte t (t % 256) ≡ t / 256
unfolding crc_byte
crc_byte-low t =
    ap (crc_rounds 8)
      (ap (bit_xor (t % 256)) split ∙ bit_xor_low 8 (t / 256) (t % 256) (omega arith))
    ∙ crc_rounds-shift 8 (t / 256)
  where
    split : t ≡ t / 256 * 2 ^ 8 + t % 256
    split = omega arith

residue : (t : ℕ) → t < 2 ^ 16 → crc_bytes t (t % 256 ∷ t / 256 ∷ []) ≡ 0
unfolding crc_bytes
residue t h =
    let small : t / 256 % 256 ≡ t / 256 = omega arith in
    let spent : t / 256 / 256 ≡ 0 = omega arith in
    rw (crc_byte-low t) (ap (crc_byte (t / 256)) (sym small) ∙ crc_byte-low (t / 256) ∙ spent)

crc16_code-nonempty : (b : ℕ) (buf : List ℕ) → crc16_code (b ∷ buf) ≡ crc_bytes 0xffff (b ∷ buf)
unfolding crc16_code
crc16_code-nonempty b buf = refl

-- The checksum of a message of at least one byte is a 16-bit value, and the message followed by it,
-- low byte first, has the checksum 0.
pub crc16_code-residue :
    (b : ℕ) (buf : List ℕ)
    → IsBytes (b ∷ buf)
    → let crc = crc16_code (b ∷ buf) in
      (crc < 2 ^ 16) × (crc16_code ((b ∷ buf) ++ (crc % 256 ∷ crc / 256 ∷ [])) ≡ 0)
crc16_code-residue b buf h =
    let crc = crc_bytes 0xffff (b ∷ buf) in
    let bound : crc < 2 ^ 16 = crc_bytes-lt 0xffff (b ∷ buf) (omega arith) h in
    rw (crc16_code-nonempty b buf) (
      bound,
      crc16_code-nonempty b (buf ++ (crc % 256 ∷ crc / 256 ∷ []))
          ∙ crc_bytes-append 0xffff (b ∷ buf) (crc % 256 ∷ crc / 256 ∷ [])
          ∙ residue crc bound,
    )
