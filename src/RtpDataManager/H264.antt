-- ===== src/RtpDataManager/H264.antt =====
-- `RtpDataManager::parserRtpH264`.
pub mod Depacketize
use vcu.Prelude.{ℕ, ◌/◌, ◌^◌, List}
use vcu.Prelude.{Bool, true, false, not, ◌||◌, ltb, ◌==◌, if◌then◌else◌, bit_and, bit_or}
use vcu.ByteArray.{ByteArray, append_char}
use vcu.Prelude.Outcome.{Outcome, done, aborted, access, check, ◌>>=◌, ◌>>◌}
use vcu.RtpModel.{RtpHeader, get_rtp_header}
use vcu.RtpDataManager.{Parser, Parsed, append_start_code, append_from, byte_at}

-- the NAL unit header that a fragment's two header bytes stand for
unfoldable pub nalu_header : ℕ → ℕ → ℕ
nalu_header key fu_header = bit_or (bit_and key 0xe0) (bit_and fu_header 0x1f)

-- packet type 28, a fragment
unfoldable pub add_fragment_264 : RtpHeader → ℕ → List ℕ → ByteArray → Outcome ByteArray
add_fragment_264 header key pdata full = do
  fu_header ← byte_at pdata 13
  let first = bit_and fu_header 0x80 / 2 ^ 7 == 1
  let last = bit_and fu_header 0x40 / 2 ^ 6 == 1
  if first
      then (do
        check (header.mark == 0)
        a ← append_start_code full
        b ← access (append_char a (nalu_header key fu_header))
        append_from 14 pdata b)
      else if last
      then (check (header.mark == 1) >> append_from 14 pdata full)
      else append_from 14 pdata full

-- the bytes added to the full packet for a started stream
unfoldable pub add_packet_264 : RtpHeader → ℕ → List ℕ → ByteArray → Outcome ByteArray
add_packet_264 header key pdata full =
    let packet_type = bit_and key 0x1f in
    if ltb packet_type 24
    then append_start_code full >>= append_from 12 pdata
    else if packet_type == 28
    then add_fragment_264 header key pdata full
    else aborted

-- what a packet sets, whether or not it added bytes
abbrev pub report_264 : RtpHeader → Bool → Bool → ByteArray → Parsed
report_264 header received is_start full = record {
  received = received;
  parser = record { is_start = is_start; last_seq = header.seq };
  full_packet = full;
  mark = not (header.mark == 0);
  timestamp = header.timestamp;
  session = record { ssrc = header.ssrc; seq = header.seq; version = header.version };
}

-- The whole handler. `need_box` is `DataSend::canSendBox()`.
unfoldable pub parser_rtp_h264 : Parser → Bool → List ℕ → ByteArray → Outcome Parsed
parser_rtp_h264 parser need_box pdata full = do
  header ← access (get_rtp_header pdata)
  if need_box
      then (do
        key ← byte_at pdata 12
        if parser.is_start || key == 0x67
            then (do
              full' ← add_packet_264 header key pdata full
              done (report_264 header true true full'))
            else done (report_264 header false false full))
      else done (report_264 header false false full)
