-- ===== src/DataReceive.antt =====
-- src/dataReceive.h, src/dataReceive.cpp: the datagrams that carry results and pictures, each answered
-- before the next is sent. `receive_thread` waits for `parser_thread` behind every packet, so that the
-- two alternate, and a packet is one round of each.
pub mod Buffers
pub mod Parse
pub mod Delivery
pub mod Answers
mod Tests
use vcu.Prelude.{ℕ, zero, suc, ◌+◌, ◌-◌, ◌*◌, ◌^◌, Option, none, some, List, [], ◌∷◌, ◌++◌}
use vcu.Prelude.{
  ℤ, pos, negsuc, Bool, true, false, ltb, leb, ◌==◌, if◌then◌else◌, length, take, drop, get_elem?,
}
use vcu.Prelude.Memory.{load, store}
use vcu.Prelude.Memory
use vcu.Prelude.Outcome.{Outcome, done, access, ◌>>=◌}
use vcu.ByteArray.{ByteArray, append, mid, clear}
use vcu.Packets.{
  PacketHead, head_bytes, read_head, packet_bytes, packet_num, chunk, type_res, type_box,
  packet_head_flag, packet_len, packet_head_len, packet_end_len,
}

-- `sizeof(BoxInfo2)`
abbrev pub box_len : ℕ
box_len = 24

-- `PACKET_BOX_LEN`
abbrev pub packet_box_len : ℕ
packet_box_len = 42 * box_len

-- The statics of the file, `receive_thread`'s buffer, the semaphore of the answers, and the pictures
-- given to `DataControl::setRgbData`.
pub record Receiver : Type 0 where
  pub arr : ByteArray
  pub pic : ByteArray
  pub last_packet_size : ℕ
  pub recvbuffer : List ℕ
  pub send_sem : ℕ
  pub pictures : List (List ℕ × ℕ)

-- `recvsize`
abbrev pub recv_size : ℕ
recv_size = packet_head_len + packet_len + packet_end_len

-- The answer in `sendbuffer`, with the time at which the thread started
abbrev pub answer : ℕ → List ℕ
answer time =
    packet_bytes
      (record {
        head_iden = packet_head_flag;
        frame_type = type_res;
        cur_frame = 1;
        tot_frame = 1;
        frame_size = 0;
        pic_id = 0;
      })
      [] time

-- `receive_thread` on a read: `none` is -1, and the socket cuts a datagram to the buffer's size. The
-- result is whether the parser is to run.
unfoldable pub receive_read : Receiver → Option (List ℕ) → Outcome (Bool × Receiver)
receive_read r none = done (false, r)
receive_read r (some datagram) = do
  buffer ← access (store r.recvbuffer 0 (take recv_size datagram))
  type ← access (get_elem? buffer 1)
  (if type == type_res
      then done (false, record r { recvbuffer = buffer; send_sem = suc r.send_sem })
      else do
        full ← access (append r.arr (some buffer) (pos (length (take recv_size datagram))))
        done (
          true,
          record r {
            recvbuffer = buffer;
            arr = full;
            last_packet_size = length (take recv_size datagram);
          },
        ))

abbrev pub minus : ℕ → ℕ → ℤ
minus a b = if leb b a then pos (a - b) else negsuc (b - a - 1)

-- a `uint` as the `int` that `append` takes
abbrev pub to_int : ℕ → ℤ
to_int n = if ltb n (2 ^ 31) then pos n else negsuc (2 ^ 32 - 1 - n)

-- `if (pHead->curFrame == 1)`
unfoldable pub start_picture : PacketHead → Receiver → Outcome Receiver
start_picture h r =
    if h.cur_frame == 1
    then (do
      pic ← access (clear r.pic)
      arr ← access (clear r.arr)
      done (record r { pic = pic; arr = arr }))
    else done r

-- `if (pHead->curFrame == pHead->totFrame)`
unfoldable pub finish_picture : PacketHead → Receiver → Outcome Receiver
finish_picture h r =
    if h.cur_frame == h.tot_frame
    then (do
      bytes ← access (load r.pic.block 0 r.pic.data_size)
      arr ← access (clear r.arr)
      pic ← access (clear r.pic)
      done (record r { arr = arr; pic = pic; pictures = r.pictures ++ ((bytes, h.pic_id) ∷ []) }))
    else done r

-- A round of `parser_thread`
unfoldable pub parse_packet_data : Receiver → Outcome Receiver
parse_packet_data r = do
  last ← access (mid r.arr (minus r.arr.data_size r.last_packet_size) (pos r.last_packet_size))
  head ← access (read_head last.block)
  started ← start_picture head r
  pic ←
      access (append started.pic (some (drop packet_head_len last.block)) (to_int head.frame_size))
  finish_picture head (record started { pic = pic })

-- One round of `receive_thread`, with the parser's; the result is the answer, if there is one.
unfoldable pub exchange : ℕ → Receiver → Option (List ℕ) → Outcome (Option (List ℕ) × Receiver)
exchange time r datagram = do
  read ← receive_read r datagram
  (if read.0
      then (do parsed ← parse_packet_data read.1; done (some (answer time), parsed))
      else done (none, read.1))

-- The rounds for the datagrams that arrive one after the other, with their answers.
abbrev pub exchanges : ℕ → Receiver → List (List ℕ) → Outcome (List (Option (List ℕ)) × Receiver)
exchanges time r [] = done ([], r)
exchanges time r (datagram ∷ datagrams) = do
  one ← exchange time r (some datagram)
  others ← exchanges time one.1 datagrams
  done (one.0 ∷ others.0, others.1)

-- The head of packet `i` of `n`, counted from 0
abbrev pub box_head : ℕ → ℕ → ℕ → ℕ → PacketHead
box_head n i size id = record {
  head_iden = packet_head_flag;
  frame_type = type_box;
  cur_frame = i + 1;
  tot_frame = n;
  frame_size = size;
  pic_id = id;
}

-- The packets that the loop of `send_res2` makes from packet `i` on: `m` of them are left of `n`.
unfoldable pub res2_packets : List ℕ → ℕ → ℕ → ℕ → ℕ → ℕ → ℕ → Option (List (List ℕ))
res2_packets src len n id time zero i = some []
res2_packets src len n id time (suc m) i =
    let rest = res2_packets src len n id time m (suc i) in
    Memory.◌>>=◌ (chunk src len packet_box_len n i) (λ content.
      Memory.◌>>=◌ rest
        (λ packets. some (packet_bytes (box_head n i (length content) id) content time ∷ packets)))

-- `send_res2(pBoxinfo, num, id)`
unfoldable pub send_res2 : List ℕ → ℕ → ℕ → ℕ → Option (List (List ℕ))
send_res2 src num id time =
    let len = num * box_len in
    let n = packet_num len packet_box_len in res2_packets src len n id time n 0

-- The packets that the loop of `send_res` makes; each has the box in front of its part of the picture.
unfoldable pub res_packets : List ℕ → List ℕ → ℕ → ℕ → ℕ → ℕ → ℕ → Option (List (List ℕ))
res_packets box src len n time zero i = some []
res_packets box src len n time (suc m) i =
    let rest = res_packets box src len n time m (suc i) in
    Memory.◌>>=◌ (chunk src len packet_len n i) (λ part.
      let content = box ++ part in
      Memory.◌>>=◌ rest
        (λ packets. some (packet_bytes (box_head n i (length content) 0) content time ∷ packets)))

-- `send_res(boxinfo, data, len)`
unfoldable pub send_res : List ℕ → List ℕ → ℕ → ℕ → Option (List (List ℕ))
send_res box src len time = let n = packet_num len packet_len in res_packets box src len n time n 0
