-- ===== src/DataSend/Tests.antt =====
-- Fifty boxes to a client that takes them, and one that asks for them and then for what the stream is.
use vcu.Prelude.{ℕ, ◌*◌, ◌≤◌, ◌≡◌, refl, some, none, Option, List, [], ◌∷◌, arith}
use vcu.Prelude.{true, false, length, take, replicate, length-replicate, ltb}
use vcu.Packets.{
  packet_num, packet_bytes, PacketHead, type_box, type_stream_param, packet_head_flag,
}
use vcu.DataReceive.{packet_box_len}
use vcu.DataSend.{DataSend, send_box, client, set_stream_info, get_index}
use vcu.DataSend.Boxes.{received, send_box-received}
use vcu.DataSend.Requests.{client-asked}

abbrev boxes : List ℕ
boxes = replicate 1200 7

abbrev gps : List ℕ
gps = replicate 56 1

abbrev boxes_size : length boxes ≡ 1200
boxes_size = length-replicate {A = ℕ} 1200 7

-- The client takes one packet.
send_box-received_example :
    (packets : List (List ℕ)) × (send_box true boxes gps 50 9 0 (λ i. ltb i 1) (λ i. true)
      ≡ some packets)
    × (length packets ≤ packet_num 1200 packet_box_len)
    × (received packets ≡ some (take (length packets * packet_box_len) (take 1200 boxes)))
send_box-received_example =
    send_box-received 50 9 0 boxes gps (λ i. ltb i 1) (λ i. true) (omega arith) (omega arith)
      (omega (arith, boxes_size)) (omega arith)

abbrev ask : ℕ → List ℕ
ask type =
    packet_bytes
      (record {
        head_iden = packet_head_flag;
        frame_type = type;
        cur_frame = 1;
        tot_frame = 1;
        frame_size = 0;
        pic_id = 0;
      })
      [] 0

abbrev idle : DataSend
idle = record {
  can_send_box = false;
  can_send_con = false;
  is_send = false;
  type = 255;
  pic_index = 0;
  not_first = false;
  pf_calls = 0;
}

first_stream : (set_stream_info 0 (set_stream_info 1 idle)).type ≡ 1
first_stream = refl

first_index : (get_index idle).0 ≡ 1
first_index = refl

abbrev reads : List (Option (List ℕ))
reads = some (ask type_box) ∷ some (1 ∷ []) ∷ some (ask type_stream_param) ∷ none ∷ []

client-asked_example :
    (((client 5 idle reads).1).can_send_box ≡ true)
    × (((client 5 idle reads).1).can_send_con ≡ true)
unfolding vcu.Packets.head_bytes vcu.Packets.end_bytes
client-asked_example = client-asked 5 idle reads
