-- ===== src/Packets.antt =====
-- inc/receiveModel.h: the packets between the two ends. A packet's head is 18 bytes and its end 9, both
-- packed and little-endian, as on the processors that the program is built for.
pub mod Layout
pub mod Chunks
use vcu.Prelude.{ℕ, zero, suc, ◌+◌, ◌-◌, ◌*◌, ◌/◌, ◌%◌, Option, none, some, List, [], ◌∷◌, ◌++◌}
use vcu.Prelude.{◌==◌, if◌then◌else◌, take, drop}
use vcu.Prelude.Memory.{load, ◌>>=◌}

-- `PacketType`; GPS is 5 and ERR is 3
abbrev pub type_con : ℕ
type_con = 1

abbrev pub type_res : ℕ
type_res = 2

abbrev pub type_box : ℕ
type_box = 4

abbrev pub type_gps : ℕ
type_gps = 5

abbrev pub type_stream_param : ℕ
type_stream_param = 6

abbrev pub packet_head_flag : ℕ
packet_head_flag = 0x55

abbrev pub packet_end_flag : ℕ
packet_end_flag = 0xaa

abbrev pub packet_len : ℕ
packet_len = 1024

abbrev pub packet_head_len : ℕ
packet_head_len = 18

abbrev pub packet_end_len : ℕ
packet_end_len = 9

-- An unsigned number of `n` bytes in memory, and back.
abbrev pub le_bytes : ℕ → ℕ → List ℕ
le_bytes zero v = []
le_bytes (suc n) v = v % 256 ∷ le_bytes n (v / 256)

abbrev pub le : List ℕ → ℕ
le [] = 0
le (b ∷ bs) = b + le bs * 256

pub record PacketHead : Type 0 where
  pub head_iden : ℕ
  pub frame_type : ℕ
  pub cur_frame : ℕ
  pub tot_frame : ℕ
  pub frame_size : ℕ
  pub pic_id : ℕ

unfoldable pub head_bytes : PacketHead → List ℕ
head_bytes h =
    h.head_iden % 256
    ∷ h.frame_type % 256
    ∷ (le_bytes 4 h.cur_frame
        ++ (le_bytes 4 h.tot_frame ++ (le_bytes 4 h.frame_size ++ le_bytes 4 h.pic_id)))

-- The head that stands at a pointer.
unfoldable pub head_at : List ℕ → PacketHead
head_at bytes = record {
  head_iden = le (take 1 bytes);
  frame_type = le (take 1 (drop 1 bytes));
  cur_frame = le (take 4 (drop 2 bytes));
  tot_frame = le (take 4 (drop 6 bytes));
  frame_size = le (take 4 (drop 10 bytes));
  pic_id = le (take 4 (drop 14 bytes));
}

unfoldable pub read_head : List ℕ → Option PacketHead
read_head block = load block 0 packet_head_len >>= λ bytes. some (head_at bytes)

-- `PacketEnd` with its time
unfoldable pub end_bytes : ℕ → List ℕ
end_bytes frame_time = le_bytes 8 frame_time ++ (packet_end_flag ∷ [])

-- A head, contents and an end, which the `memcpy`s put one behind the other into a buffer of this size.
abbrev pub packet_bytes : PacketHead → List ℕ → ℕ → List ℕ
packet_bytes h content frame_time = head_bytes h ++ (content ++ end_bytes frame_time)

-- The number of packets for `len` bytes with `per` bytes in each.
unfoldable pub packet_num : ℕ → ℕ → ℕ
packet_num len per = if len % per == 0 then len / per else len / per + 1

-- The bytes of packet `i` of `n`: the last takes what is left.
unfoldable pub chunk : List ℕ → ℕ → ℕ → ℕ → ℕ → Option (List ℕ)
chunk src len per n i =
    let last = len - (n - 1) * per in
    if i == n - 1 then load src (len - last) last else load src (i * per) per
