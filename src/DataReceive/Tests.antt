-- ===== src/DataReceive/Tests.antt =====
-- A receiver as the program starts it, and fifty boxes, which go in two packets.
use vcu.Prelude.{ℕ, suc, ◌≡◌, refl, ap, some, none, inl, List, [], ◌∷◌, arith}
use vcu.Prelude.{length, take, replicate, length-replicate}
use vcu.Prelude.Memory.{zeros, length-zeros}
use vcu.Prelude.Outcome.{done, overrun}
use vcu.ByteArray.{ByteArray}
use vcu.Packets.{packet_num}
use vcu.DataReceive.{Receiver, recv_size, exchange, exchanges, answer, send_res2, packet_box_len}
use vcu.DataReceive.Buffers.{IsReady}
use vcu.DataReceive.Delivery.{send_res2-exchanges}
use vcu.DataReceive.Answers.{exchanges-answers, exchange-empty}

abbrev empty_array : ByteArray
empty_array = record { block = zeros 1024; capacity = 1024; data_size = 0 }

-- Its buffer begins with the head of a packet of boxes.
abbrev receiver : Receiver
receiver = record {
  arr = empty_array;
  pic = empty_array;
  last_packet_size = 0;
  recvbuffer = 0x55 ∷ 4 ∷ zeros 1049;
  send_sem = 0;
  pictures = [];
}

buffer_size : length (receiver.recvbuffer) ≡ recv_size
buffer_size = ap (λ n. suc (suc n)) (length-zeros 1049)

receiver-IsReady : IsReady receiver
receiver-IsReady = record {
  arr_valid = record { allocated = length-zeros 1024; room = omega arith };
  arr_room = inl (refl, omega arith);
  pic_valid = record { allocated = length-zeros 1024; room = omega arith };
  pic_room = omega arith;
  buffer = buffer_size;
}

abbrev boxes : List ℕ
boxes = replicate 1200 7

two_packets : packet_num 1200 packet_box_len ≡ 2
unfolding packet_num
two_packets = refl

send_res2-exchanges_example :
    (packets : List (List ℕ)) × (r : Receiver) × (send_res2 boxes 50 9 0 ≡ some packets)
    × (exchanges 5 receiver packets
        ≡ done (replicate (packet_num 1200 packet_box_len) (some (answer 5)), r))
    × IsReady r
    × (r.pictures ≡ (take 1200 boxes, 9) ∷ [])
send_res2-exchanges_example =
    send_res2-exchanges 5 0 50 9 boxes receiver receiver-IsReady (omega arith) (omega arith)
      (omega (arith, length-replicate {A = ℕ} 1200 7)) (omega arith)

exchanges-answers_example :
    (r : Receiver) × (exchanges 5 receiver (replicate 2 (answer 6)) ≡ done (none ∷ none ∷ [], r))
    × (r.send_sem ≡ 2)
    × (length r.recvbuffer ≡ recv_size)
    × (r.arr ≡ empty_array)
    × (r.pic ≡ empty_array)
    × (r.pictures ≡ [])
exchanges-answers_example = exchanges-answers 5 6 2 receiver buffer_size

exchange-empty_example : exchange 5 receiver (some []) ≡ overrun
exchange-empty_example =
    exchange-empty 5 4 receiver receiver-IsReady refl (λ e. absurd (omega arith))
