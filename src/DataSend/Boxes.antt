-- ===== src/DataSend/Boxes.antt =====
-- What a client gets of the boxes, whenever it stops the sender or the connection fails.
use vcu.Prelude.{
  ℕ, zero, suc, ◌+◌, ◌-◌, ◌*◌, ◌≤◌, ◌<◌, ◌≡◌, ◌^◌, refl, sym, ap, subst, ◌∙◌, inl, inr, some,
  Option, List, [], ◌∷◌, ◌++◌,
}
use vcu.Prelude.{
  Bool, ◌==◌, true, false, Bool-cases, if◌then◌else◌, arith, length, take, drop, append_assoc,
  length-take, take_enough,
}
use vcu.Prelude.Memory.{◌>>=◌, take-append-length, drop-append-length}
use vcu.Packets.{
  PacketHead, head_bytes, read_head, packet_bytes, end_bytes, packet_num, chunk, packet_head_len,
}
use vcu.Packets.Layout.{IsHead, head_at-head_bytes, length-head_bytes}
use vcu.Packets.Chunks.{part, part_more, chunk_lem, packet_num_lem}
use vcu.DataReceive.{box_len, packet_box_len}
use vcu.DataSend.{gps_len, gps_head, box_packets, send_box}

-- The boxes in front of the position in a packet, by the size in its head.
unfoldable pub boxes_of : List ℕ → Option (List ℕ)
boxes_of packet = read_head packet >>= λ head.
    some (take (head.frame_size - gps_len) (drop packet_head_len packet))

-- The boxes of the packets, put together again.
abbrev pub received : List (List ℕ) → Option (List ℕ)
received [] = some []
received (packet ∷ packets) =
    let rest = received packets in
    boxes_of packet >>= λ boxes. rest >>= λ others. some (boxes ++ others)

boxes_of-packet :
    (h : PacketHead) (boxes gps : List ℕ) (time : ℕ)
    → IsHead h
    → h.frame_size ≡ length boxes + gps_len
    → boxes_of (packet_bytes h (boxes ++ gps) time) ≡ some boxes
unfolding boxes_of
boxes_of-packet h boxes gps time inside size =
    let less : h.frame_size - gps_len ≡ length boxes = omega arith in
    let behind = (boxes ++ gps) ++ end_bytes time in
    rw
      (
        head_at-head_bytes h behind inside,
        drop-append-length packet_head_len (head_bytes h) behind (sym (length-head_bytes h)),
        less,
        append_assoc boxes gps (end_bytes time),
      )
      (ap some (take-append-length (length boxes) boxes (gps ++ end_bytes time) refl))

-- The packets that are tried from packet `i` on, when `m` are left.
abbrev rounds : (ℕ → Bool) → (ℕ → Bool) → ℕ → ℕ → ℕ
rounds allowed sent zero i = 0
rounds allowed sent (suc m) i =
    let rest = rounds allowed sent m (suc i) in
    if allowed i then (if sent i then suc rest else 1) else 0

-- What holds of the packets from packet `i` on.
record IsSome (k i : ℕ) (bytes : List ℕ) (packets : List (List ℕ)) : Type 0 where
  count : length packets ≡ k
  boxes : received packets ≡ some (take (k * packet_box_len) (drop (i * packet_box_len) bytes))

one_packet :
    (packet boxes : List ℕ) (packets : List (List ℕ)) (k i : ℕ) (bytes : List ℕ)
    → boxes_of packet ≡ some (part packet_box_len i bytes)
    → IsSome k (suc i) bytes packets
    → IsSome (suc k) i bytes (packet ∷ packets)
one_packet packet boxes packets k i bytes read s = record {
  count = ap suc s.count;
  boxes = rw (read, s.boxes) (ap some (part_more packet_box_len i k bytes));
}

record IsSent (len n id : ℕ) (src gps bytes : List ℕ) : Type 0 where
  count : n ≡ packet_num len packet_box_len
  some_bytes : 0 < len
  held : len ≤ length src
  small : len < 2 ^ 31
  whole : bytes ≡ take len src
  id_range : id < 2 ^ 32

packet_read :
    (len n id time i : ℕ) (src gps bytes : List ℕ)
    → IsSent len n id src gps bytes
    → i < n
    → let boxes = part packet_box_len i bytes in
      boxes_of (packet_bytes (gps_head n i (length boxes + gps_len) id) (boxes ++ gps) time)
      ≡ some boxes
packet_read len n id time i src gps bytes s k =
    let boxes = part packet_box_len i bytes in
    let (some_packet, starts, ends) =
      packet_num_lem len packet_box_len (omega arith) s.some_bytes in
    let starts' : (n - 1) * packet_box_len < len =
      subst (λ t. (t - 1) * packet_box_len < len) (sym s.count) starts in
    let few : n < 2 ^ 32 = omega (arith, s.small) in
    let short : length boxes ≤ 1008 =
      omega (arith, length-take packet_box_len (drop (i * packet_box_len) bytes)) in
    boxes_of-packet (gps_head n i (length boxes + gps_len) id) boxes gps time
      (record {
        iden = omega arith;
        type = omega arith;
        cur = omega arith;
        tot = few;
        size = omega arith;
        id = s.id_range;
      })
      refl

box_packets_lem :
    (len n id time m i : ℕ) (src gps bytes : List ℕ) (allowed sent : ℕ → Bool)
    → IsSent len n id src gps bytes
    → i + m ≡ n
    → (packets : List (List ℕ)) × (box_packets src gps len n id time allowed sent m i
        ≡ some packets)
      × IsSome (rounds allowed sent m i) i bytes packets
unfolding box_packets
box_packets_lem len n id time zero i src gps bytes allowed sent s e =
    ([], refl, record { count = refl; boxes = refl })
box_packets_lem len n id time (suc m) i src gps bytes allowed sent s e =
    let boxes = part packet_box_len i bytes in
    let packet = packet_bytes (gps_head n i (length boxes + gps_len) id) (boxes ++ gps) time in
    let read = packet_read len n id time i src gps bytes s (omega arith) in
    let taken : chunk src len packet_box_len n i ≡ some boxes =
      rw (s.count, s.whole)
        (chunk_lem src len packet_box_len i (omega arith) s.some_bytes s.held
          (rw (← s.count) (omega arith))) in
    let (packets, made, rest) =
      box_packets_lem len n id time m (suc i) src gps bytes allowed sent s (omega arith) in
    elim (Bool-cases (allowed i)) [
      | inr stopped ↦ ([], rw stopped, rw stopped (record { count = refl; boxes = refl }))
      | inl going ↦ elim (Bool-cases (sent i)) [
        | inr failed ↦ (
          packet ∷ [],
          rw (going, taken, failed),
          rw (going, failed)
              (one_packet packet boxes [] 0 i bytes read (record { count = refl; boxes = refl })),
        )
        | inl fine ↦ (
          packet ∷ packets,
          rw (going, taken, fine, made),
          rw (going, fine) (one_packet packet boxes packets _ i bytes read rest),
        )
      ]
    ]

rounds_le : (allowed sent : ℕ → Bool) (m i : ℕ) → rounds allowed sent m i ≤ m
rounds_le allowed sent zero i = omega arith
rounds_le allowed sent (suc m) i = elim (Bool-cases (allowed i)) [
  | inr stopped ↦ rw stopped (omega arith)
  | inl going ↦ elim (Bool-cases (sent i)) [
    | inr failed ↦ rw (going, failed) (omega arith)
    | inl fine ↦ rw (going, fine) (omega (arith, rounds_le allowed sent m (suc i)))
  ]
]

rounds_all :
    (allowed sent : ℕ → Bool) (m i : ℕ)
    → ((j : ℕ) → allowed j ≡ true)
    → ((j : ℕ) → sent j ≡ true)
    → rounds allowed sent m i ≡ m
rounds_all allowed sent zero i a t = refl
rounds_all allowed sent (suc m) i a t =
    rw (a i, t i) (ap suc (rounds_all allowed sent m (suc i) a t))

call_lem :
    (num id time : ℕ) (src gps : List ℕ) (allowed sent : ℕ → Bool)
    → 0 < num
    → num * box_len < 2 ^ 31
    → num * box_len ≤ length src
    → id < 2 ^ 32
    → let n = packet_num (num * box_len) packet_box_len in
      let bytes = take (num * box_len) src in
      (packets : List (List ℕ)) × (send_box true src gps num id time allowed sent ≡ some packets)
      × IsSome (rounds allowed sent n 0) 0 bytes packets
unfolding send_box
call_lem num id time src gps allowed sent some_boxes small held id_range =
    let n = packet_num (num * box_len) packet_box_len in
    let (packets, made, s) =
      box_packets_lem (num * box_len) n id time n 0 src gps (take (num * box_len) src) allowed sent
        (record {
          count = refl;
          some_bytes = omega arith;
          held = held;
          small = small;
          whole = refl;
          id_range = id_range;
        })
        (omega arith) in
    let many : (num == 0) ≡ false = ground arith in (packets, rw many made, s)

-- Whenever the client stops the boxes and whichever `send` fails, `sendBox` of `num > 0` readable boxes,
-- `num * 24` below 2 ^ 31, to a client that asked for them stays within its memory, tries at most the
-- packets that the boxes need, and what the packets carry, read by their heads, is a front of the boxes:
-- 42 of them for each packet, the last packet excepted, which has the rest.
pub send_box-received :
    (num id time : ℕ) (src gps : List ℕ) (allowed sent : ℕ → Bool)
    → 0 < num
    → num * box_len < 2 ^ 31
    → num * box_len ≤ length src
    → id < 2 ^ 32
    → (packets : List (List ℕ)) × (send_box true src gps num id time allowed sent ≡ some packets)
      × (length packets ≤ packet_num (num * box_len) packet_box_len)
      × (received packets
          ≡ some (take (length packets * packet_box_len) (take (num * box_len) src)))
send_box-received num id time src gps allowed sent some_boxes small held id_range =
    let (packets, made, s) =
      call_lem num id time src gps allowed sent some_boxes small held id_range in
    (
      packets,
      made,
      omega (arith, s.count, rounds_le allowed sent (packet_num (num * box_len) packet_box_len) 0),
      rw s.count s.boxes,
    )

-- While the client wants the boxes and every `send` succeeds, the packets of `sendBox` are as many as
-- the boxes need and carry all of the boxes in order.
send_box-all :
    (num id time : ℕ) (src gps : List ℕ) (allowed sent : ℕ → Bool)
    → 0 < num
    → num * box_len < 2 ^ 31
    → num * box_len ≤ length src
    → id < 2 ^ 32
    → ((i : ℕ) → allowed i ≡ true)
    → ((i : ℕ) → sent i ≡ true)
    → (packets : List (List ℕ)) × (send_box true src gps num id time allowed sent ≡ some packets)
      × (length packets ≡ packet_num (num * box_len) packet_box_len)
      × (received packets ≡ some (take (num * box_len) src))
send_box-all num id time src gps allowed sent some_boxes small held id_range a t =
    let n = packet_num (num * box_len) packet_box_len in
    let (packets, made, s) =
      call_lem num id time src gps allowed sent some_boxes small held id_range in
    let (some_packet, starts, ends) =
      packet_num_lem (num * box_len) packet_box_len (omega arith) (omega arith) in
    let all = rounds_all allowed sent n 0 a t in
    (
      packets,
      made,
      s.count ∙ all,
      s.boxes
          ∙ ap some (
              ap (λ k. take (k * packet_box_len) (take (num * box_len) src)) all
              ∙ take_enough (n * packet_box_len) (take (num * box_len) src)
                  (omega (arith, length-take (num * box_len) src, ends))),
    )
