-- ===== src/DataReceive/Parse.antt =====
-- A round of `parser_thread` on a packet of the protocol.
use vcu.Prelude.{
  ℕ, ◌+◌, ◌-◌, ◌≤◌, ◌<◌, ◌≡◌, ◌⊎◌, ◌^◌, refl, sym, ap, ◌∙◌, inl, inr, some, List, [], ◌∷◌, ◌++◌,
}
use vcu.Prelude.{
  Bool-cases, true, ltb, leb, ◌==◌, arith, length, take, drop, length-append, pos, take-append-drop,
  suc, zero, take_enough,
}
use vcu.Prelude.Memory.{drop-append-length}
use vcu.Prelude.Outcome.{done}
use vcu.ByteArray.{ByteArray, append, mid, clear, contents}
use vcu.ByteArray.Valid.{IsValid, length-contents, load_front}
use vcu.ByteArray.Edit.{mid_lem, clear_lem}
use vcu.Packets.{PacketHead, head_bytes, packet_head_len}
use vcu.Packets.Layout.{IsHead, head_at-head_bytes, length-head_bytes}
use vcu.DataReceive.{Receiver, start_picture, finish_picture, parse_packet_data, minus, to_int}

-- A valid block begins with what the array holds.
block-contents : (b : ByteArray) → (rest : List ℕ) × (b.block ≡ contents b ++ rest)
block-contents b = (drop b.data_size b.block, sym (take-append-drop b.data_size b.block))

clear_empty :
    (b : ByteArray)
    → IsValid b
    → (b' : ByteArray) × (clear b ≡ some b')
      × IsValid b'
      × (b'.data_size ≡ 0)
      × (contents b' ≡ [])
      × (b'.capacity ≡ b.capacity)
clear_empty b v =
    let (b', cleared, v', empty, cap) = clear_lem b v in
    (b', cleared, v', sym (length-contents b' v') ∙ ap length empty, empty, cap)

-- What the parser needs of the buffers, and leaves of them.
pub record IsParsed (r r' : Receiver) : Type 0 where
  pub arr_valid : IsValid r'.arr
  pub arr_cap : r'.arr.capacity ≡ r.arr.capacity
  pub pic_valid : IsValid r'.pic
  pub pic_cap : r.pic.capacity ≤ r'.pic.capacity
  pub same_buffer : r'.recvbuffer ≡ r.recvbuffer

pub start_picture_lem :
    (h : PacketHead) (r : Receiver) (before : List ℕ)
    → IsValid r.arr
    → IsValid r.pic
    → (h.cur_frame ≡ 1 → before ≡ [])
    → ((h.cur_frame ≡ 1) ⊎ (contents r.pic ≡ before))
    → (r' : Receiver) × (start_picture h r ≡ done r')
      × IsParsed r r'
      × (contents r'.pic ≡ before)
      × (r'.pic.capacity ≡ r.pic.capacity)
      × (r'.pictures ≡ r.pictures)
unfolding start_picture
start_picture_lem h r before va vp none_before carried = elim (Bool-cases (h.cur_frame == 1)) [
  | inl first ↦
      let (pic, cleared, vp', zero_size, empty, cap) = clear_empty r.pic vp in
      let (arr, cleared', va', zero_size', empty', cap') = clear_empty r.arr va in
      (
        record r { pic = pic; arr = arr },
        rw (first, cleared, cleared'),
        record {
          arr_valid = va';
          arr_cap = cap';
          pic_valid = vp';
          pic_cap = omega arith;
          same_buffer = refl;
        },
        empty ∙ sym (none_before (ground arith)),
        cap,
        refl,
      )
  | inr later ↦ (
    r,
    rw later,
    record {
      arr_valid = va;
      arr_cap = refl;
      pic_valid = vp;
      pic_cap = omega arith;
      same_buffer = refl;
    },
    elim carried [ inl one ↦ absurd (ground arith) | inr same ↦ same ],
    refl,
    refl,
  )
]

-- The pictures given on, and what is carried to the next packet.
pub record IsFinished (h : PacketHead) (r r' : Receiver) (bytes : List ℕ) : Type 0 where
  pub buffers : IsParsed r r'
  pub last :
      h.cur_frame ≡ h.tot_frame
      → (r'.pictures ≡ r.pictures ++ ((bytes, h.pic_id) ∷ [])) × (r'.arr.data_size ≡ 0)
  pub inner : h.cur_frame < h.tot_frame → (r'.pictures ≡ r.pictures) × (contents r'.pic ≡ bytes)

pub finish_picture_lem :
    (h : PacketHead) (r : Receiver) (bytes : List ℕ)
    → IsValid r.arr
    → IsValid r.pic
    → contents r.pic ≡ bytes
    → (r' : Receiver) × (finish_picture h r ≡ done r') × IsFinished h r r' bytes
unfolding finish_picture
finish_picture_lem h r bytes va vp held = elim (Bool-cases (h.cur_frame == h.tot_frame)) [
  | inl last ↦
      let (pic, cleared, vp', zero_size, empty, cap) = clear_empty r.pic vp in
      let (arr, cleared', va', zero_size', empty', cap') = clear_empty r.arr va in
      (
        record r {
          arr = arr;
          pic = pic;
          pictures = r.pictures ++ ((contents r.pic, h.pic_id) ∷ []);
        },
        rw (
          last,
          load_front r.pic.block r.pic.data_size (omega (arith, vp.allocated, vp.room)),
          cleared,
          cleared',
        ),
        record {
          buffers = record {
            arr_valid = va';
            arr_cap = cap';
            pic_valid = vp';
            pic_cap = omega arith;
            same_buffer = refl;
          };
          last = λ e. (ap (λ t. r.pictures ++ ((t, h.pic_id) ∷ [])) held, zero_size');
          inner = λ less. absurd (ground arith);
        },
      )
  | inr inner ↦ (
    r,
    rw inner,
    record {
      buffers = record {
        arr_valid = va;
        arr_cap = refl;
        pic_valid = vp;
        pic_cap = omega arith;
        same_buffer = refl;
      };
      last = λ e. absurd (ground arith);
      inner = λ less. (refl, held);
    },
  )
]

pub parse_steps :
    (r r1 r2 : Receiver) (last pic : ByteArray) (h : PacketHead) (content rest : List ℕ)
    → mid r.arr (minus r.arr.data_size r.last_packet_size) (pos r.last_packet_size) ≡ some last
    → last.block ≡ head_bytes h ++ (content ++ rest)
    → IsHead h
    → start_picture h r ≡ done r1
    → to_int h.frame_size ≡ pos (length content)
    → append r1.pic (some (content ++ rest)) (pos (length content)) ≡ some pic
    → finish_picture h (record r1 { pic = pic }) ≡ done r2
    → parse_packet_data r ≡ done r2
unfolding parse_packet_data
parse_steps r r1 r2 last pic h content rest cut front inside started int appended finished = rw (
  cut,
  front,
  head_at-head_bytes h (content ++ rest) inside,
  started,
  drop-append-length packet_head_len (head_bytes h) (content ++ rest) (sym (length-head_bytes h)),
  int,
  appended,
  finished,
)

pub frame_int : (n : ℕ) → n < 2 ^ 31 → to_int n ≡ pos n
frame_int n h = let small : ltb n (2 ^ 31) ≡ true = ground arith in rw small

pub minus_pos : (a b : ℕ) → b ≤ a → minus a b ≡ pos (a - b)
minus_pos a b h = let enough : leb b a ≡ true = ground arith in rw enough

-- The last bytes received are cut out as an array whose block begins with them.
pub last_packet :
    (b : ByteArray) (front packet : List ℕ) (n : ℕ)
    → IsValid b
    → contents b ≡ front ++ packet
    → length packet ≡ n
    → 0 < n
    → (last : ByteArray) × (rest : List ℕ) × (mid b (minus b.data_size n) (pos n) ≡ some last)
      × (last.block ≡ packet ++ rest)
last_packet b front packet zero v held size some_bytes = absurd (omega arith)
last_packet b front packet (suc n) v held size some_bytes =
    let whole : b.data_size ≡ length front + suc n =
      sym (length-contents b v) ∙ ap length held ∙ omega (arith, length-append front packet) in
    let (last, cut, v', same) = mid_lem b (b.data_size - suc n) n v (omega arith) in
    let (rest, split) = block-contents last in
    let at_end : drop (b.data_size - suc n) (contents b) ≡ packet =
      ap (drop (b.data_size - suc n)) held
      ∙ drop-append-length (b.data_size - suc n) front packet (omega arith) in
    (
      last,
      rest,
      rw (minus_pos b.data_size (suc n) (omega arith)) cut,
      split
          ∙ ap (λ t. t ++ rest)
              (same ∙ ap (take (suc n)) at_end ∙ take_enough (suc n) packet (omega arith)),
    )
