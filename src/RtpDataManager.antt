-- ===== src/RtpDataManager.antt =====
-- src/rtpDataManager.h, src/rtpDataManager.cpp: received RTP packets put in order, turned into an
-- Annex B byte stream for the decoder, and forwarded.
pub mod H264
pub mod H265
pub mod Reorder
pub mod Thread
pub mod Laws
mod Tests
use vcu.Prelude.{ℕ, ◌+◌, ◌-◌, ◌*◌, ◌/◌, ◌%◌, ◌^◌, Option, none, some, List, [], ◌∷◌, ◌++◌}
use vcu.Prelude.{
  Bool, true, false, get_elem?, length, drop, pos, ltb, if◌then◌else◌, bit_and, bit_or,
}
use vcu.ByteArray.{ByteArray, append, append_char}
use vcu.Prelude.Outcome.{Outcome, done, overrun, access, ◌>>=◌}

-- What the parsers report to `RtspDataManager`.
pub record Session : Type 0 where
  pub ssrc : ℕ
  pub seq : ℕ
  pub version : ℕ

-- The static variables of a parser.
pub record Parser : Type 0 where
  pub is_start : Bool
  pub last_seq : ℕ

-- A parser's return value, its static variables afterwards, and what it wrote through its
-- reference parameters and to the session.
pub record Parsed : Type 0 where
  pub received : Bool
  pub parser : Parser
  pub full_packet : ByteArray
  pub mark : Bool
  pub timestamp : ℕ
  pub session : Session

-- the bytes of `htonl(0x00000001)`
abbrev pub start_code : List ℕ
start_code = 0 ∷ 0 ∷ 0 ∷ 1 ∷ []

abbrev pub append_start_code : ByteArray → Outcome ByteArray
append_start_code b = access (append b (some start_code) (pos 4))

-- `full_packet_data.append(pdata + k, len - k)`
abbrev pub append_from : ℕ → List ℕ → ByteArray → Outcome ByteArray
append_from k pdata b = access (append b (some (drop k pdata)) (pos (length pdata - k)))

abbrev pub byte_at : List ℕ → ℕ → Outcome ℕ
byte_at pdata i = access (get_elem? pdata i)
