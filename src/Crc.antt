-- ===== src/Crc.antt =====
-- src/serialPort.cpp: `crc16_code`, the checksum of serial packets. The buffer is the list of its
-- `len` bytes; `len <= 0` is the empty list.
pub mod Residue
pub mod Detect
mod Tests
use vcu.Prelude.{ℕ, zero, suc, ◌/◌, List, [], ◌∷◌, ◌==◌, if◌then◌else◌, bit_and, bit_xor}

unfoldable pub crc_round : ℕ → ℕ
crc_round tmp = if bit_and tmp 0x01 == 0 then tmp / 2 else bit_xor (tmp / 2) 0xa001

unfoldable pub crc_rounds : ℕ → ℕ → ℕ
crc_rounds zero tmp = tmp
crc_rounds (suc i) tmp = crc_rounds i (crc_round tmp)

-- `tmp = buf[n] ^ tmp`, and eight rounds
unfoldable pub crc_byte : ℕ → ℕ → ℕ
crc_byte tmp byte = crc_rounds 8 (bit_xor byte tmp)

unfoldable pub crc_bytes : ℕ → List ℕ → ℕ
crc_bytes tmp [] = tmp
crc_bytes tmp (byte ∷ buf) = crc_bytes (crc_byte tmp byte) buf

unfoldable pub crc16_code : List ℕ → ℕ
crc16_code [] = 0x0000
crc16_code (byte ∷ buf) = crc_bytes 0xffff (byte ∷ buf)
