-- ===== src/DataReceive/Buffers.antt =====
-- The buffers of `receive_thread`: a datagram of the protocol fits them.
use vcu.Prelude.{
  ℕ, ◌+◌, ◌%◌, ◌≤◌, ◌<◌, ◌≡◌, ◌≢◌, ◌⊎◌, inl, inr, refl, sym, ap, ◌∙◌, some, List, ◌++◌,
}
use vcu.Prelude.{
  Bool-cases, true, false, leb, ◌==◌, arith, length, take, drop, take_enough, length-append,
  length-drop, pos, get_elem?,
}
use vcu.Prelude.Memory.{store, take-append-length}
use vcu.Prelude.Outcome.{done}
use vcu.ByteArray.{ByteArray, append, contents}
use vcu.ByteArray.Valid.{IsValid}
use vcu.ByteArray.Append.{append_lem, Fits}
use vcu.Packets.{PacketHead, head_bytes, packet_bytes, end_bytes, type_res}
use vcu.Packets.Layout.{length-head_bytes}
use vcu.DataReceive.{Receiver, receive_read, recv_size}

-- The received bytes are empty, or in a block that has room for a packet of pictures.
pub record IsReady (r : Receiver) : Type 0 where
  pub arr_valid : IsValid r.arr
  pub arr_room : ((r.arr.data_size ≡ 0) × (1024 ≤ r.arr.capacity)) ⊎ (1036 ≤ r.arr.capacity)
  pub pic_valid : IsValid r.pic
  pub pic_room : 1024 ≤ r.pic.capacity
  pub buffer : length r.recvbuffer ≡ 1051

pub length-end_bytes : (time : ℕ) → length (end_bytes time) ≡ 9
unfolding end_bytes
length-end_bytes time = refl

pub length-packet_bytes :
    (h : PacketHead) (content : List ℕ) (time : ℕ)
    → length (packet_bytes h content time) ≡ 27 + length content
length-packet_bytes h content time = omega (
  arith,
  length-append (head_bytes h) (content ++ end_bytes time),
  length-append content (end_bytes time),
  length-head_bytes h,
  length-end_bytes time,
)

arr-Fits : (r : Receiver) (n : ℕ) → IsReady r → n ≤ 1035 → Fits r.arr n
arr-Fits r n v h = inl (elim v.arr_room [
  | inl empty ↦ let (none_held, room) = empty in omega arith
  | inr room ↦ let held = v.arr_valid.room in omega arith
])

second :
    (h : PacketHead) (content rest : List ℕ) (time : ℕ)
    → get_elem? (packet_bytes h content time ++ rest) 1 ≡ some (h.frame_type % 256)
unfolding head_bytes
second h content rest time = refl

pub differs : (t u : ℕ) → t ≢ u → (t == u) ≡ false
differs t u other = elim (Bool-cases (t == u)) [
  | inl same ↦ absurd (other (ground arith))
  | inr apart ↦ apart
]

no_answer : (t : ℕ) → t < 256 → t ≢ type_res → ((t % 256) == type_res) ≡ false
no_answer t small other = let low : t % 256 ≡ t = omega arith in rw low (differs t type_res other)

pub store_front :
    (block bytes : List ℕ) (n : ℕ)
    → length bytes ≡ n
    → n ≤ length block
    → store block 0 bytes ≡ some (bytes ++ drop n block)
unfolding store
store_front block bytes n e h =
    let fits : leb (0 + length bytes) (length block) ≡ true = ground arith in
    rw fits
      (ap (λ k. some (bytes ++ drop k block)) (let all : 0 + length bytes ≡ n = omega arith in all))

pub read_steps :
    (r : Receiver) (packet rest : List ℕ) (type n : ℕ) (arr : ByteArray)
    → take recv_size packet ≡ packet
    → length packet ≡ n
    → store r.recvbuffer 0 packet ≡ some (packet ++ rest)
    → get_elem? (packet ++ rest) 1 ≡ some type
    → (type == type_res) ≡ false
    → append r.arr (some (packet ++ rest)) (pos n) ≡ some arr
    → receive_read r (some packet)
      ≡ done (true, record r { recvbuffer = packet ++ rest; arr = arr; last_packet_size = n })
unfolding receive_read
read_steps r packet rest type n arr whole size stored kind other appended =
    rw (whole, stored, kind, other, size, appended)

-- A packet that is no answer is appended to what was received.
pub receive_read_lem :
    (r : Receiver) (h : PacketHead) (content : List ℕ) (time : ℕ)
    → IsReady r
    → h.frame_type < 256
    → h.frame_type ≢ type_res
    → length content ≤ 1008
    → (buffer : List ℕ) × (arr : ByteArray) × (receive_read r (some (packet_bytes h content time))
        ≡ done (
          true,
          record r { recvbuffer = buffer; arr = arr; last_packet_size = 27 + length content },
        ))
      × (length buffer ≡ 1051)
      × IsValid arr
      × (r.arr.capacity ≤ arr.capacity)
      × (contents arr ≡ contents r.arr ++ packet_bytes h content time)
receive_read_lem r h content time v small other short =
    let packet = packet_bytes h content time in
    let size = length-packet_bytes h content time in
    let whole : take recv_size packet ≡ packet = take_enough recv_size packet (omega arith) in
    let rest = drop (27 + length content) r.recvbuffer in
    let (arr, appended, valid, grown, held) =
      append_lem r.arr (packet ++ rest) (27 + length content) v.arr_valid
        (omega (arith, length-append packet rest)) (arr-Fits r _ v (omega arith)) in
    (
      packet ++ rest,
      arr,
      read_steps r packet rest (h.frame_type % 256) (27 + length content) arr whole size
          (store_front r.recvbuffer packet (27 + length content) size (omega (arith, v.buffer)))
          (second h content rest time) (no_answer h.frame_type small other) appended,
      omega (
        arith,
        length-append packet rest,
        length-drop (27 + length content) r.recvbuffer,
        v.buffer,
      ),
      valid,
      grown,
      held
          ∙ ap (λ t. contents r.arr ++ t)
              (take-append-length (27 + length content) packet rest (sym size)),
    )
