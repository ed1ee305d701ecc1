-- ===== src/RtpDataManager/H265.antt =====
-- `RtpDataManager::parserRtpH265`.
pub mod Depacketize
use vcu.Prelude.{ℕ, ◌*◌, ◌/◌, ◌%◌, ◌^◌, List}
use vcu.Prelude.{Bool, true, false, ◌||◌, ◌==◌, if◌then◌else◌, bit_and, bit_or}
use vcu.ByteArray.{ByteArray, append_char}
use vcu.Prelude.Outcome.{Outcome, done, aborted, access, check, ◌>>=◌, ◌>>◌}
use vcu.RtpModel.{RtpHeader, get_rtp_header}
use vcu.RtpDataManager.{Parser, Parsed, append_start_code, append_from, byte_at}

-- the first byte of the NAL unit header that a fragment stands for; the shift leaves 8 bits
unfoldable pub nalu_header_1 : ℕ → ℕ → ℕ
nalu_header_1 key fu_header = bit_or (bit_and fu_header 0x3f * 2 % 2 ^ 8) (bit_and key 0x80)

-- unit type 49, a fragment
unfoldable pub add_fragment_265 : RtpHeader → ℕ → List ℕ → ByteArray → Outcome ByteArray
add_fragment_265 header key pdata full = do
  fu_header ← byte_at pdata 14
  nalu_header_2 ← byte_at pdata 13
  let first = bit_and (fu_header / 2 ^ 7) 0x01 == 1
  let last = bit_and (fu_header / 2 ^ 6) 0x01 == 1
  if first
      then (do
        a ← append_start_code full
        b ← access (append_char a (nalu_header_1 key fu_header))
        c ← access (append_char b nalu_header_2)
        d ← append_from 15 pdata c
        check (header.mark == 0)
        done d)
      else if last
      then (append_from 15 pdata full >>= λ a. check (header.mark == 1) >> done a)
      else append_from 15 pdata full

-- the bytes added to the full packet for a started stream; combined packets are refused
unfoldable pub add_packet_265 : RtpHeader → ℕ → List ℕ → ByteArray → Outcome ByteArray
add_packet_265 header key pdata full =
    let unit_type = bit_and (key / 2) 0x3f in
    if unit_type == 49
    then add_fragment_265 header key pdata full
    else if unit_type == 48
    then aborted
    else (append_start_code full >>= append_from 12 pdata)

-- what a packet sets; `mark` and `timestamp` only if its mark bit is set
abbrev pub report_265 : RtpHeader → Bool → ℕ → Bool → Bool → ByteArray → Parsed
report_265 header mark timestamp received is_start full = record {
  received = received;
  parser = record { is_start = is_start; last_seq = header.seq };
  full_packet = full;
  mark = if header.mark == 0 then mark else true;
  timestamp = if header.mark == 0 then timestamp else header.timestamp;
  session = record { ssrc = header.ssrc; seq = header.seq; version = header.version };
}

-- The whole handler. `need_box` is `DataSend::canSendBox()`; `mark` and `timestamp` are the values
-- that the reference parameters have on entry.
unfoldable pub parser_rtp_h265 : Parser → Bool → List ℕ → ByteArray → Bool → ℕ → Outcome Parsed
parser_rtp_h265 parser need_box pdata full mark timestamp = do
  header ← access (get_rtp_header pdata)
  if need_box
      then (do
        key ← byte_at pdata 12
        if parser.is_start || key == 0x40
            then (do
              full' ← add_packet_265 header key pdata full
              done (report_265 header mark timestamp true true full'))
            else done (report_265 header mark timestamp false false full))
      else done (report_265 header mark timestamp false false full)
