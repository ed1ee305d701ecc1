-- ===== src/DataReceive/Delivery.antt =====
-- The packets of `send_res2` through the receiver at the other end: every packet is answered, and the
-- boxes arrive as one block.
use vcu.Prelude.{
  ℕ, zero, suc, ◌+◌, ◌-◌, ◌*◌, ◌≤◌, ◌<◌, ◌≡◌, ◌≢◌, ◌⊎◌, ◌^◌, refl, sym, ap, subst, ◌∙◌, inl, inr,
  some, List, [], ◌∷◌, ◌++◌,
}
use vcu.Prelude.{
  pos, true, arith, length, take, drop, length-append, append-nil, append_assoc, replicate, joined,
  length-take, length-drop,
}
use vcu.Prelude.Memory.{take-append-length}
use vcu.Prelude.Outcome.{done}
use vcu.ByteArray.{contents}
use vcu.ByteArray.Valid.{length-contents}
use vcu.ByteArray.Append.{append_lem}
use native.Mathlib.Decide.{dec_le}
use vcu.Packets.{PacketHead, head_bytes, packet_bytes, end_bytes, packet_num, chunk, type_res}
use vcu.Packets.Layout.{IsHead}
use vcu.Packets.Chunks.{part, parts, times_lt, chunk_lem, packet_num_lem, joined-parts}
use vcu.DataReceive.{
  Receiver, receive_read, parse_packet_data, exchange, exchanges, answer, box_head, res2_packets,
  send_res2, box_len, packet_box_len,
}
use vcu.DataReceive.Buffers.{IsReady, receive_read_lem, length-packet_bytes}
use vcu.DataReceive.Parse.{
  start_picture_lem, finish_picture_lem, parse_steps, frame_int, last_packet,
}

exchange_steps :
    (time : ℕ) (r r1 r2 : Receiver) (packet : List ℕ)
    → receive_read r (some packet) ≡ done (true, r1)
    → parse_packet_data r1 ≡ done r2
    → exchange time r (some packet) ≡ done (some (answer time), r2)
unfolding exchange
exchange_steps time r r1 r2 packet read parsed = rw (read, parsed)

packet_split :
    (h : PacketHead) (content : List ℕ) (time : ℕ) (rest : List ℕ)
    → packet_bytes h content time ++ rest ≡ head_bytes h ++ (content ++ (end_bytes time ++ rest))
packet_split h content time rest =
    append_assoc (head_bytes h) (content ++ end_bytes time) rest
    ∙ ap (λ t. head_bytes h ++ t) (append_assoc content (end_bytes time) rest)

≤-cases : (a b : ℕ) → a ≤ b → (a ≡ b) ⊎ (a < b)
≤-cases a b h = elim (dec_le (suc a) b) [
  | yes less ↦ inr (omega arith)
  | no not_less ↦ inl (omega arith)
]

start_room : (r : Receiver) → IsReady r → 1024 ≤ r.arr.capacity
start_room r v = elim v.arr_room [
  | inl empty ↦ let (none_held, room) = empty in room
  | inr room ↦ omega arith
]

-- A packet whose bytes are as many as its head says, with the bytes of the packets before it.
record IsNext (h : PacketHead) (content before : List ℕ) (r : Receiver) : Type 0 where
  head : IsHead h
  type : h.frame_type ≢ type_res
  size : h.frame_size ≡ length content
  short : length content ≤ 1008
  full : h.cur_frame < h.tot_frame → length content ≡ 1008
  first : h.cur_frame ≡ 1 → before ≡ []
  carried : (h.cur_frame ≡ 1) ⊎ (contents r.pic ≡ before)

-- What the receiver is after it.
record IsAfter (h : PacketHead) (bytes : List ℕ) (r r' : Receiver) : Type 0 where
  ready : IsReady r'
  last : h.cur_frame ≡ h.tot_frame → r'.pictures ≡ r.pictures ++ ((bytes, h.pic_id) ∷ [])
  inner : h.cur_frame < h.tot_frame → (r'.pictures ≡ r.pictures) × (contents r'.pic ≡ bytes)

round_lem :
    (time time' : ℕ) (h : PacketHead) (content before : List ℕ) (r : Receiver)
    → IsReady r
    → IsNext h content before r
    → h.cur_frame ≤ h.tot_frame
    → (r' : Receiver) × (exchange time r (some (packet_bytes h content time'))
        ≡ done (some (answer time), r'))
      × IsAfter h (before ++ content) r r'
round_lem time time' h content before r v next order =
    let packet = packet_bytes h content time' in
    let (buffer, arr, read, kept, va, grown, held) =
      receive_read_lem r h content time' v next.head.type next.type next.short in
    let r1 = record r { recvbuffer = buffer; arr = arr; last_packet_size = 27 + length content } in
    let size = length-packet_bytes h content time' in
    let (last, rest, cut, front) =
      last_packet arr (contents r.arr) packet (27 + length content) va held size (omega arith) in
    let (r2, started, p, carried, cap, same) =
      start_picture_lem h r1 before va v.pic_valid next.first next.carried in
    let (pic, appended, vp, room, bytes) =
      append_lem r2.pic (content ++ (end_bytes time' ++ rest)) (length content) p.pic_valid
        (omega (arith, length-append content (end_bytes time' ++ rest)))
        (inl (omega (arith, p.pic_valid.room, v.pic_room, next.short))) in
    let (r3, finished, f) =
      finish_picture_lem h (record r2 { pic = pic }) (before ++ content) p.arr_valid vp
        (bytes
          ∙ ap (λ t. contents r2.pic ++ t) (take-append-length (length content) content _ refl)
          ∙ ap (λ t. t ++ content) carried) in
    let b = f.buffers in
    let long : length (contents r.arr) + (27 + length content) ≡ arr.data_size =
      sym (length-append (contents r.arr) packet ∙ ap (λ k. length (contents r.arr) + k) size)
      ∙ ap length (sym held)
      ∙ length-contents arr va in
    (
      r3,
      exchange_steps time r r1 r3 packet read (
          parse_steps r1 r2 r3 last pic h content (end_bytes time' ++ rest) cut
            (front ∙ packet_split h content time' rest) next.head started
            (frame_int h.frame_size (omega (arith, next.size, next.short)) ∙ ap pos next.size)
            appended finished),
      record {
        ready = record {
          arr_valid = b.arr_valid;
          arr_room = elim (≤-cases h.cur_frame h.tot_frame order) [
            | inl same_frame ↦
                inl (
                  (f.last same_frame).1,
                  omega (arith, b.arr_cap, p.arr_cap, grown, start_room r v),
                )
            | inr more ↦ inr (omega (arith, b.arr_cap, p.arr_cap, va.room, long, next.full more))
          ];
          pic_valid = b.pic_valid;
          pic_room = omega (arith, b.pic_cap, v.pic_room);
          buffer = ap length b.same_buffer ∙ ap length p.same_buffer ∙ kept;
        };
        last = λ e. (f.last e).0 ∙ ap (λ t. t ++ ((before ++ content, h.pic_id) ∷ [])) same;
        inner = λ e. ((f.inner e).0 ∙ same, (f.inner e).1);
      },
    )

-- The packets of one call of `send_res2`, and the bytes of its boxes.
record IsSent (len n id : ℕ) (src bytes : List ℕ) : Type 0 where
  count : n ≡ packet_num len packet_box_len
  some_bytes : 0 < len
  held : len ≤ length src
  small : len < 2 ^ 31
  whole : bytes ≡ take len src
  id_range : id < 2 ^ 32

length-part :
    (i n len : ℕ) (bytes : List ℕ)
    → length bytes ≡ len
    → i < n - 1
    → (n - 1) * packet_box_len < len
    → length (part packet_box_len i bytes) ≡ 1008
length-part i n len bytes e inner starts = omega (
  arith,
  length-take packet_box_len (drop (i * packet_box_len) bytes),
  length-drop (i * packet_box_len) bytes,
  times_lt i (n - 1) packet_box_len inner,
)

next_lem :
    (len n id i : ℕ) (src bytes before : List ℕ) (r : Receiver)
    → IsSent len n id src bytes
    → i < n
    → (i ≡ 0 → before ≡ [])
    → ((i ≡ 0) ⊎ (contents r.pic ≡ before))
    → let content = part packet_box_len i bytes in
      IsNext (box_head n i (length content) id) content before r
next_lem len n id i src bytes before r s k first carried =
    let content = part packet_box_len i bytes in
    let short : length content ≤ 1008 =
      omega (arith, length-take packet_box_len (drop (i * packet_box_len) bytes)) in
    let (some_packet, starts, ends) =
      packet_num_lem len packet_box_len (omega arith) s.some_bytes in
    let starts' : (n - 1) * packet_box_len < len =
      subst (λ t. (t - 1) * packet_box_len < len) (sym s.count) starts in
    let few : n < 2 ^ 32 = omega (arith, s.small) in
    let size : length bytes ≡ len =
      ap length s.whole ∙ omega (arith, length-take len src, s.held) in
    record {
      head = record {
        iden = omega arith;
        type = omega arith;
        cur = omega arith;
        tot = few;
        size = omega arith;
        id = s.id_range;
      };
      type = omega arith;
      size = refl;
      short = short;
      full = λ less. length-part i n len bytes size (omega arith) starts';
      first = λ e. first (omega arith);
      carried = elim carried [ inl e ↦ inl (omega arith) | inr same ↦ inr same ];
    }

-- The rest of the packets, from packet `i` on.
record IsDelivered (id : ℕ) (bytes : List ℕ) (r r' : Receiver) : Type 0 where
  ready : IsReady r'
  picture : r'.pictures ≡ r.pictures ++ ((bytes, id) ∷ [])

packets_step :
    (src content : List ℕ) (len n id time m i : ℕ) (packets : List (List ℕ))
    → chunk src len packet_box_len n i ≡ some content
    → res2_packets src len n id time m (suc i) ≡ some packets
    → res2_packets src len n id time (suc m) i
      ≡ some (packet_bytes (box_head n i (length content) id) content time ∷ packets)
unfolding res2_packets
packets_step src content len n id time m i packets taken rest = rw (taken, rest)

no_packets : (src : List ℕ) (len n id time i : ℕ) → res2_packets src len n id time 0 i ≡ some []
unfolding res2_packets
no_packets src len n id time i = refl

one_lem :
    (time time' len n id i : ℕ) (src bytes before : List ℕ) (r : Receiver)
    → IsSent len n id src bytes
    → i < n
    → IsReady r
    → (i ≡ 0 → before ≡ [])
    → ((i ≡ 0) ⊎ (contents r.pic ≡ before))
    → let content = part packet_box_len i bytes in
      let h = box_head n i (length content) id in
      (r' : Receiver) × (exchange time r (some (packet_bytes h content time'))
        ≡ done (some (answer time), r'))
      × IsAfter h (before ++ content) r r'
      × (chunk src len packet_box_len n i ≡ some content)
one_lem time time' len n id i src bytes before r s k v first carried =
    let content = part packet_box_len i bytes in
    let h = box_head n i (length content) id in
    let (r1, done1, after) =
      round_lem time time' h content before r v
        (next_lem len n id i src bytes before r s k first carried) (omega arith) in
    (
      r1,
      done1,
      after,
      rw (s.count, s.whole)
          (chunk_lem src len packet_box_len i (omega arith) s.some_bytes s.held (rw (← s.count) k)),
    )

exchanges_step :
    (time m : ℕ) (r r1 r2 : Receiver) (packet : List ℕ) (packets : List (List ℕ))
    → exchange time r (some packet) ≡ done (some (answer time), r1)
    → exchanges time r1 packets ≡ done (replicate m (some (answer time)), r2)
    → exchanges time r (packet ∷ packets) ≡ done (replicate (suc m) (some (answer time)), r2)
exchanges_step time m r r1 r2 packet packets one others = rw (one, others)

rest_lem :
    (time time' len n id m i : ℕ) (src bytes before : List ℕ) (r : Receiver)
    → IsSent len n id src bytes
    → i + suc m ≡ n
    → IsReady r
    → (i ≡ 0 → before ≡ [])
    → ((i ≡ 0) ⊎ (contents r.pic ≡ before))
    → (packets : List (List ℕ)) × (r' : Receiver) × (res2_packets src len n id time' (suc m) i
        ≡ some packets)
      × (exchanges time r packets ≡ done (replicate (suc m) (some (answer time)), r'))
      × IsDelivered id (before ++ joined (parts packet_box_len (suc m) i bytes)) r r'
rest_lem time time' len n id zero i src bytes before r s e v first carried =
    let content = part packet_box_len i bytes in
    let (r1, done1, after, taken) =
      one_lem time time' len n id i src bytes before r s (omega arith) v first carried in
    (
      packet_bytes (box_head n i (length content) id) content time' ∷ [],
      r1,
      packets_step src content len n id time' 0 i [] taken (no_packets src len n id time' (suc i)),
      exchanges_step time 0 r r1 r1 _ [] done1 refl,
      record { ready = after.ready; picture = rw (append-nil content) (after.last (omega arith)) },
    )
rest_lem time time' len n id (suc m) i src bytes before r s e v first carried =
    let content = part packet_box_len i bytes in
    let (r1, done1, after, taken) =
      one_lem time time' len n id i src bytes before r s (omega arith) v first carried in
    let (same, held) = after.inner (omega arith) in
    let (packets, r2, made, done2, d) =
      rest_lem time time' len n id m (suc i) src bytes (before ++ content) r1 s (omega arith)
        after.ready (λ z. absurd (omega arith)) (inr held) in
    (
      packet_bytes (box_head n i (length content) id) content time' ∷ packets,
      r2,
      packets_step src content len n id time' (suc m) i packets taken made,
      exchanges_step time (suc m) r r1 r2 _ packets done1 done2,
      record {
        ready = d.ready;
        picture =
            d.picture
            ∙ rw (
              same,
              append_assoc before content (joined (parts packet_box_len (suc m) (suc i) bytes)),
            );
      },
    )

-- The packets that `send_res2` makes of `num > 0` readable boxes, `num * 24` below 2 ^ 31, go through a
-- receiver whose buffers are ready: every packet is answered, and together they hand on exactly one
-- picture more, the bytes of the boxes under their id. The buffers are ready again after it.
pub send_res2-exchanges :
    (time time' num id : ℕ) (src : List ℕ) (r : Receiver)
    → IsReady r
    → 0 < num
    → num * box_len < 2 ^ 31
    → num * box_len ≤ length src
    → id < 2 ^ 32
    → (packets : List (List ℕ)) × (r' : Receiver) × (send_res2 src num id time' ≡ some packets)
      × (exchanges time r packets
          ≡ done (replicate (packet_num (num * box_len) packet_box_len) (some (answer time)), r'))
      × IsReady r'
      × (r'.pictures ≡ r.pictures ++ ((take (num * box_len) src, id) ∷ []))
unfolding send_res2
send_res2-exchanges time time' num id src r v some_boxes small held id_range =
    let len = num * box_len in
    let (some_packet, starts, ends) =
      packet_num_lem len packet_box_len (omega arith) (omega arith) in
    let s : IsSent len (packet_num len packet_box_len) id src (take len src) = record {
      count = refl;
      some_bytes = omega arith;
      held = held;
      small = small;
      whole = refl;
      id_range = id_range;
    } in
    all_of time time' len (packet_num len packet_box_len) id src (take len src) r s some_packet v
      (omega (arith, length-take len src))
  where
    all_of :
        (time time' len n id : ℕ) (src bytes : List ℕ) (r : Receiver)
        → IsSent len n id src bytes
        → 0 < n
        → IsReady r
        → length bytes ≤ n * packet_box_len
        → (packets : List (List ℕ)) × (r' : Receiver) × (res2_packets src len n id time' n 0
            ≡ some packets)
          × (exchanges time r packets ≡ done (replicate n (some (answer time)), r'))
          × IsReady r'
          × (r'.pictures ≡ r.pictures ++ ((bytes, id) ∷ []))
    all_of time time' len zero id src bytes r s some_packet v reach = absurd (omega arith)
    all_of time time' len (suc m) id src bytes r s some_packet v reach =
        let (packets, r', made, run, d) =
          rest_lem time time' len (suc m) id m 0 src bytes [] r s (omega arith) v (λ z. refl)
            (inl refl) in
        (
          packets,
          r',
          made,
          run,
          d.ready,
          d.picture
              ∙ ap (λ t. r.pictures ++ ((t, id) ∷ []))
                  (joined-parts packet_box_len (suc m) 0 bytes (omega arith)),
        )
