-- ===== src/DataReceive/Answers.antt =====
-- The answers that come back to the sender of the packets, and the datagram that is none of the
-- protocol's.
use vcu.Prelude.{
  ℕ, zero, suc, ◌+◌, ◌-◌, ◌≤◌, ◌<◌, ◌≡◌, ◌≢◌, refl, sym, ap, ◌∙◌, none, some, List, [], ◌∷◌, ◌++◌,
  inl, inr,
}
use vcu.Prelude.{
  Option, true, false, ◌==◌, pos, arith, length, drop, replicate, length-append, length-drop,
  get_elem?, Bool-cases, ltb, leb,
}
use vcu.Prelude.Memory.{store}
use vcu.Prelude.Outcome.{done, overrun}
use vcu.ByteArray.{ByteArray, mid, null_array}
use vcu.ByteArray.Append.{append_lem}
use vcu.ByteArray.Edit.{pointer_lem}
use vcu.Packets.{type_res}
use vcu.DataReceive.{
  Receiver, receive_read, parse_packet_data, exchange, exchanges, answer, recv_size, minus,
}
use vcu.DataReceive.Buffers.{differs, IsReady, store_front, read_steps}
use vcu.DataReceive.Parse.{minus_pos}

length-answer : (time : ℕ) → length (answer time) ≡ 27
unfolding vcu.Packets.head_bytes vcu.Packets.end_bytes
length-answer time = refl

released :
    (time time' : ℕ) (r : Receiver) (rest : List ℕ)
    → store r.recvbuffer 0 (answer time') ≡ some (answer time' ++ rest)
    → exchange time r (some (answer time'))
      ≡ done (none, record r { recvbuffer = answer time' ++ rest; send_sem = suc r.send_sem })
unfolding exchange receive_read vcu.Packets.head_bytes vcu.Packets.end_bytes
released time time' r rest stored = rw stored

exchanges_unanswered :
    (time n : ℕ) (r r1 r2 : Receiver) (datagram : List ℕ) (datagrams : List (List ℕ))
    → exchange time r (some datagram) ≡ done (none, r1)
    → exchanges time r1 datagrams ≡ done (replicate n none, r2)
    → exchanges time r (datagram ∷ datagrams) ≡ done (replicate (suc n) none, r2)
exchanges_unanswered time n r r1 r2 datagram datagrams one others = rw (one, others)

-- However many answers arrive, each releases the semaphore once on which the sender waits behind a
-- packet, none of them is answered in turn, and neither buffer nor picture changes by them.
pub exchanges-answers :
    (time time' n : ℕ) (r : Receiver)
    → length r.recvbuffer ≡ recv_size
    → (r' : Receiver) × (exchanges time r (replicate n (answer time'))
        ≡ done (replicate n none, r'))
      × (r'.send_sem ≡ r.send_sem + n)
      × (length r'.recvbuffer ≡ recv_size)
      × (r'.arr ≡ r.arr)
      × (r'.pic ≡ r.pic)
      × (r'.pictures ≡ r.pictures)
exchanges-answers time time' zero r size = (r, refl, omega arith, size, refl, refl, refl)
exchanges-answers time time' (suc n) r size =
    let rest = drop 27 r.recvbuffer in
    let r1 = record r { recvbuffer = answer time' ++ rest; send_sem = suc r.send_sem } in
    let one =
      released time time' r rest
        (store_front r.recvbuffer (answer time') 27 (length-answer time') (omega (arith, size))) in
    let size' : length r1.recvbuffer ≡ recv_size = omega (
      arith,
      length-append (answer time') rest,
      length-answer time',
      length-drop 27 r.recvbuffer,
      size,
    ) in
    let (r2, others, count, kept, arr, pic, pictures) = exchanges-answers time time' n r1 size' in
    (
      r2,
      exchanges_unanswered time n r r1 r2 (answer time') _ one others,
      omega arith,
      kept,
      arr,
      pic,
      pictures,
    )

null_cut :
    (b : ByteArray) → 0 < length b.block → mid b (minus b.data_size 0) (pos 0) ≡ some null_array
unfolding mid vcu.ByteArray.from_ptr
null_cut b some_bytes =
    let inside : ltb b.data_size (b.data_size - 0 + 0) ≡ false = ground arith in
    rw (
      minus_pos b.data_size 0 (omega arith),
      inside,
      pointer_lem b.block b.capacity b.data_size (b.data_size - 0) some_bytes,
    )

parse_none :
    (r : Receiver)
    → mid r.arr (minus r.arr.data_size r.last_packet_size) (pos r.last_packet_size)
      ≡ some null_array
    → parse_packet_data r ≡ overrun
unfolding parse_packet_data null_array vcu.Packets.read_head vcu.Prelude.Memory.load
parse_none r cut = rw cut

exchange_overrun :
    (time : ℕ) (r r1 : Receiver) (packet : List ℕ)
    → receive_read r (some packet) ≡ done (true, r1)
    → parse_packet_data r1 ≡ overrun
    → exchange time r (some packet) ≡ overrun
unfolding exchange
exchange_overrun time r r1 packet read parsed = rw (read, parsed)

-- An empty datagram, behind one that was no answer, makes the parser read a head through a null
-- pointer.
pub exchange-empty :
    (time type : ℕ) (r : Receiver)
    → IsReady r
    → get_elem? r.recvbuffer 1 ≡ some type
    → type ≢ type_res
    → exchange time r (some []) ≡ overrun
exchange-empty time type r v old other =
    let (arr, appended, va, _, _) =
      append_lem r.arr r.recvbuffer 0 v.arr_valid (omega arith)
        (inl (omega (arith, v.arr_valid.room))) in
    let r1 = record r { arr = arr; last_packet_size = 0 } in
    exchange_overrun time r r1 []
      (read_steps r [] r.recvbuffer type 0 arr refl refl
        (store_front r.recvbuffer [] 0 refl (omega arith)) old (differs type type_res other)
        appended)
      (parse_none r1 (null_cut arr (omega (arith, va.allocated, va.room))))
