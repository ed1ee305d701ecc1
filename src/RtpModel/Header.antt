-- ===== src/RtpModel/Header.antt =====
-- The RTP header is read back as it was built, and its fields are the bits of the bytes.
use vcu.Prelude.{ℕ, ◌/◌, ◌%◌, ◌^◌, ◌<◌, ◌≡◌, refl, some, List, arith, ◌==◌, if◌then◌else◌, bit_and}
use vcu.Prelude.Memory.{IsBytes}
use vcu.Prelude.Bits.{eq_on_bytes, agree_below}
use vcu.RtpModel.{put_rtp_header, get_rtp_header}

pub high_two_bits : (b : ℕ) → b < 256 → bit_and b 0xc0 / 2 ^ 6 ≡ b / 64
unfolding agree_below
high_two_bits b h = eq_on_bytes (λ x. bit_and x 0xc0 / 2 ^ 6) (λ x. x / 64) refl b h

pub high_bit : (b : ℕ) → b < 256 → bit_and b 0x80 / 2 ^ 7 ≡ b / 128
unfolding agree_below
high_bit b h = eq_on_bytes (λ x. bit_and x 0x80 / 2 ^ 7) (λ x. x / 128) refl b h

pub low_seven_bits : (b : ℕ) → b < 256 → bit_and b 0x7f ≡ b % 128
unfolding agree_below
low_seven_bits b h = eq_on_bytes (λ x. bit_and x 0x7f) (λ x. x % 128) refl b h

-- A header built for a 16-bit sequence number, any mark and a 32-bit timestamp is read back, whatever
-- follows it, as version 2, the mark bit set exactly for mark 1, payload type 96, that sequence
-- number and timestamp, and the fixed source 0x12345678.
pub get-put_rtp_header :
    (seq mark timestamp : ℕ) (rest : List ℕ)
    → seq < 2 ^ 16
    → timestamp < 2 ^ 32
    → get_rtp_header (put_rtp_header seq mark timestamp rest)
      ≡ some (record {
        version = 2;
        mark = if mark == 1 then 1 else 0;
        load_type = 96;
        seq = seq;
        timestamp = timestamp;
        ssrc = 0x12345678;
      })
unfolding get_rtp_header put_rtp_header
get-put_rtp_header seq mark timestamp rest h k = ground arith

-- A header in front of bytes is bytes, for any fields.
pub put_rtp_header-IsBytes :
    (seq mark timestamp : ℕ) (rest : List ℕ)
    → IsBytes rest
    → IsBytes (put_rtp_header seq mark timestamp rest)
unfolding put_rtp_header
put_rtp_header-IsBytes seq mark timestamp rest h = (
  omega arith,
  (
    ground arith,
    (
      omega arith,
      (
        omega arith,
        (
          omega arith,
          (
            omega arith,
            (
              omega arith,
              (omega arith, (omega arith, (omega arith, (omega arith, (omega arith, h))))),
            ),
          ),
        ),
      ),
    ),
  ),
)
