-- ===== src/RtpModel.antt =====
-- src/rtpDataModel.h: the RTP header as it is built and read, and the search for an Annex B start
-- code. A packet is the list of its bytes; `none` is a read past its end.
pub mod Header
pub mod Scan
mod Tests
use vcu.Prelude.{ℕ, ◌+◌, ◌*◌, ◌/◌, ◌%◌, ◌^◌, Option, none, some, List, [], ◌∷◌, ◌++◌, bit_and}
use vcu.Prelude.{Bool, true, false, ◌&&◌, ◌==◌, if◌then◌else◌, ℤ, pos, negsuc}

pub record RtpHeader : Type 0 where
  pub version : ℕ
  pub mark : ℕ
  pub load_type : ℕ
  pub seq : ℕ
  pub timestamp : ℕ
  pub ssrc : ℕ

-- Values in network byte order.
abbrev pub be16 : ℕ → ℕ → ℕ
be16 hi lo = hi * 256 + lo

abbrev pub be32 : ℕ → ℕ → ℕ → ℕ → ℕ
be32 a b c d = be16 a b * 2 ^ 16 + be16 c d

abbrev pub be16_bytes : ℕ → List ℕ → List ℕ
be16_bytes n rest = n / 256 % 256 ∷ n % 256 ∷ rest

abbrev pub be32_bytes : ℕ → List ℕ → List ℕ
be32_bytes n rest = be16_bytes (n / 2 ^ 16) (be16_bytes (n % 2 ^ 16) rest)

-- `getRtpHeader(unsigned short seq, int mark, uint32_t timestamp)`, the header in front of `rest`
unfoldable pub put_rtp_header : ℕ → ℕ → ℕ → List ℕ → List ℕ
put_rtp_header seq mark timestamp rest =
    0x80
    ∷ (if mark == 1 then 0xe0 else 0x60)
    ∷ be16_bytes seq (be32_bytes timestamp (be32_bytes 0x12345678 rest))

-- `getRtpHeader(const char *pdata)`
unfoldable pub get_rtp_header : List ℕ → Option RtpHeader
get_rtp_header (b0 ∷ b1 ∷ b2 ∷ b3 ∷ b4 ∷ b5 ∷ b6 ∷ b7 ∷ b8 ∷ b9 ∷ b10 ∷ b11 ∷ _) = some (record {
  version = bit_and b0 0xc0 / 2 ^ 6;
  mark = bit_and b1 0x80 / 2 ^ 7;
  load_type = bit_and b1 0x7f;
  seq = be16 b2 b3;
  timestamp = be32 b4 b5 b6 b7;
  ssrc = be32 b8 b9 b10 b11;
})
get_rtp_header _ = none

abbrev pub is_code4 : ℕ → ℕ → ℕ → ℕ → Bool
is_code4 p0 p1 p2 p3 = p0 == 0 && p1 == 0 && p2 == 0 && p3 == 1

abbrev pub is_code3 : ℕ → ℕ → ℕ → Bool
is_code3 p0 p1 p2 = p0 == 0 && p1 == 0 && p2 == 1

-- `findStartCode`, on the four bytes at `_p`
unfoldable pub find_start_code : ℕ → ℕ → ℕ → ℕ → ℤ
find_start_code p0 p1 p2 p3 =
    if is_code4 p0 p1 p2 p3 then pos 4 else if is_code3 p0 p1 p2 then pos 3 else negsuc 0

pub record StartCode : Type 0 where
  pub found : Bool
  pub move_pos : ℕ
  pub start_code_len : ℤ

-- the bytes to skip where no start code stands
abbrev pub skip : ℕ → ℕ → ℕ → ℕ
skip p1 p2 p3 = if p1 == 0 then 1 else if p2 == 0 then 2 else if p3 == 0 then 3 else 4

-- `findStartCode2`, on the four bytes at `_p`
unfoldable pub find_start_code2 : ℕ → ℕ → ℕ → ℕ → StartCode
find_start_code2 p0 p1 p2 p3 =
    if is_code4 p0 p1 p2 p3
    then record { found = true; move_pos = 4; start_code_len = pos 4 }
    else if is_code3 p0 p1 p2
    then record { found = true; move_pos = 3; start_code_len = pos 3 }
    else record { found = false; move_pos = skip p1 p2 p3; start_code_len = negsuc 0 }
