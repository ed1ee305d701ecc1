-- ===== src/DataSend.antt =====
-- src/dataSend.h, src/dataSend.cpp: the boxes sent to a client that asks for them. The program is built
-- with `_GPS`, so every packet of boxes also has the position and the attitude behind them.
pub mod Boxes
pub mod Requests
mod Tests
use vcu.Prelude.{ℕ, zero, suc, ◌+◌, ◌*◌, ◌%◌, ◌^◌, Option, none, some, List, [], ◌∷◌, ◌++◌}
use vcu.Prelude.{Bool, true, false, ◌==◌, if◌then◌else◌, length, take, replicate}
use vcu.Prelude.Memory.{load, ◌>>=◌, zeros}
use vcu.Packets.{
  PacketHead, read_head, packet_bytes, packet_num, chunk, type_con, type_box, type_gps,
  type_stream_param, packet_head_flag, packet_head_len, packet_end_len,
}
use vcu.DataReceive.{box_len, packet_box_len}

-- `sizeof(GPSData) + sizeof(AttitudeData)`
abbrev pub gps_len : ℕ
gps_len = 56

-- The head of packet `i` of `n`, counted from 0
abbrev pub gps_head : ℕ → ℕ → ℕ → ℕ → PacketHead
gps_head n i size id = record {
  head_iden = packet_head_flag;
  frame_type = type_gps;
  cur_frame = i + 1;
  tot_frame = n;
  frame_size = size;
  pic_id = id;
}

-- The packets that the loop of `sendBox` gives to `send` from packet `i` on, while `allowed` says what
-- `can_send_box` is in front of a packet and `sent` what `send` returns. `gps` is `gps_data` and
-- `attitude_data`.
unfoldable pub box_packets :
    List ℕ → List ℕ → ℕ → ℕ → ℕ → ℕ → (ℕ → Bool) → (ℕ → Bool) → ℕ → ℕ → Option (List (List ℕ))
box_packets src gps len n id time allowed sent zero i = some []
box_packets src gps len n id time allowed sent (suc m) i =
    let rest = box_packets src gps len n id time allowed sent m (suc i) in
    if allowed i
    then (chunk src len packet_box_len n i >>= λ boxes.
        (let packet = packet_bytes (gps_head n i (length boxes + gps_len) id) (boxes ++ gps) time in
          if sent i then (rest >>= λ packets. some (packet ∷ packets)) else some (packet ∷ [])))
    else some []

-- The packet for no boxes, which has one empty box.
abbrev pub no_box_packet : ℕ → ℕ → List ℕ
no_box_packet id time =
    packet_bytes
      (record {
        head_iden = packet_head_flag;
        frame_type = type_box;
        cur_frame = 1;
        tot_frame = 1;
        frame_size = box_len;
        pic_id = id;
      })
      (zeros box_len) time

-- `sendBox(pBoxinfo, num, id, _time)`; `can` is the first test of `can_send_box`
unfoldable pub send_box :
    Bool → List ℕ → List ℕ → ℕ → ℕ → ℕ → (ℕ → Bool) → (ℕ → Bool) → Option (List (List ℕ))
send_box can src gps num id time allowed sent =
    if can
    then if num == 0
      then some (no_box_packet id time ∷ [])
      else (let len = num * box_len in
          let n = packet_num len packet_box_len in
          box_packets src gps len n id time allowed sent n 0)
    else some []

-- The members that the requests change. `type` is a signed byte, 255 for -1; `pf_calls` counts the calls
-- of `pf`, and `not_first` is the thread's.
pub record DataSend : Type 0 where
  pub can_send_box : Bool
  pub can_send_con : Bool
  pub is_send : Bool
  pub type : ℕ
  pub pic_index : ℕ
  pub not_first : Bool
  pub pf_calls : ℕ

-- `set_streamInfo(_type)`
abbrev pub set_stream_info : ℕ → DataSend → DataSend
set_stream_info t d = if d.type == 255 then record d { type = t % 256 } else d

-- `get_index()`
abbrev pub get_index : DataSend → ℕ × DataSend
get_index d = let next = (d.pic_index + 1) % 2 ^ 32 in (next, record d { pic_index = next })

-- The start of `receive_thread`'s round, once a client is connected
unfoldable pub connected : DataSend → DataSend
connected d = record d {
  can_send_box = false;
  can_send_con = false;
  not_first = true;
  pf_calls = if d.not_first then suc d.pf_calls else d.pf_calls;
}

-- `send_streamInfo()`; the height and width are -1
abbrev pub stream_info_packet : ℕ → ℕ → List ℕ
stream_info_packet t time =
    packet_bytes
      (record {
        head_iden = packet_head_flag;
        frame_type = type_stream_param;
        cur_frame = 1;
        tot_frame = 1;
        frame_size = 9;
        pic_id = 0;
      })
      (t ∷ replicate 8 255) time

-- `len` in `receive_thread`
abbrev pub request_len : ℕ
request_len = packet_head_len + packet_end_len

-- What a whole request does, by the type in its head; the packet is what it is answered with.
unfoldable pub request : ℕ → ℕ → DataSend → Option (List ℕ) × DataSend
request type time d =
    if type == type_con
    then (none, record d { can_send_con = true })
    else if type == type_box
    then (none, record d { can_send_con = true; can_send_box = true; is_send = true })
    else if type == type_stream_param
    then (some (stream_info_packet d.type time), d)
    else (none, d)

-- A round of the inner loop. `none` for the bytes read is an error, `none` for the result a client that
-- is gone.
unfoldable pub receive_request :
    ℕ → DataSend → Option (List ℕ) → Option (Option (List ℕ) × DataSend)
receive_request time d none = none
receive_request time d (some []) = none
receive_request time d (some (b ∷ bytes)) =
    if length (b ∷ bytes) == request_len
    then (read_head (b ∷ bytes) >>= λ head. some (request head.frame_type time d))
    else some (none, d)

-- The rounds for a client until it is gone or no more is read.
unfoldable pub requests : ℕ → DataSend → List (Option (List ℕ)) → List (Option (List ℕ)) × DataSend
requests time d [] = ([], d)
requests time d (read ∷ reads) = elim (receive_request time d read) [
  | none ↦ ([], d)
  | some (answer, d') ↦ let rest = requests time d' reads in (answer ∷ rest.0, rest.1)
]

-- A round of `receive_thread`'s outer loop
abbrev pub client : ℕ → DataSend → List (Option (List ℕ)) → List (Option (List ℕ)) × DataSend
client time d reads = requests time (connected d) reads
