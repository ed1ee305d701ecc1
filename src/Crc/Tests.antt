-- ===== src/Crc/Tests.antt =====
-- The checksum at the usual test input.
use vcu.Prelude.{ℕ, ◌≡◌, ◌≢◌, refl, List, [], ◌∷◌, arith}
use vcu.Crc.{crc16_code, crc_bytes, crc_byte, crc_rounds, crc_round}
use vcu.Crc.Detect.{crc16_code_detects}

abbrev digits : List ℕ
digits = 49 ∷ 50 ∷ 51 ∷ 52 ∷ 53 ∷ 54 ∷ 55 ∷ 56 ∷ 57 ∷ []

crc_of_digits : crc16_code digits ≡ 0x4b37
unfolding crc16_code crc_bytes crc_byte crc_rounds crc_round
crc_of_digits = refl

crc16_code_detects_example : crc16_code (49 ∷ 50 ∷ 51 ∷ []) ≢ crc16_code (49 ∷ 66 ∷ 51 ∷ [])
crc16_code_detects_example =
    crc16_code_detects (49 ∷ []) (51 ∷ []) 50 66 (omega arith) (omega arith) (omega arith)
      (omega arith) (omega arith)
