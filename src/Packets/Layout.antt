-- ===== src/Packets/Layout.antt =====
-- A head is read back from the bytes of a packet.
use vcu.Prelude.{ℕ, zero, suc, ◌/◌, ◌^◌, ◌<◌, ◌≡◌, refl, ap, some, List, ◌++◌}
use vcu.Prelude.{arith, leb, true, length}
use vcu.Prelude.Memory.{load}
use vcu.Packets.{PacketHead, le_bytes, le, head_bytes, head_at, read_head}

pub length-le_bytes : (n v : ℕ) → length (le_bytes n v) ≡ n
length-le_bytes zero v = refl
length-le_bytes (suc n) v = ap suc (length-le_bytes n (v / 256))

pub length-head_bytes : (h : PacketHead) → length (head_bytes h) ≡ 18
unfolding head_bytes
length-head_bytes h = refl

-- The head's fields are in the range of their types.
pub record IsHead (h : PacketHead) : Type 0 where
  pub iden : h.head_iden < 256
  pub type : h.frame_type < 256
  pub cur : h.cur_frame < 2 ^ 32
  pub tot : h.tot_frame < 2 ^ 32
  pub size : h.frame_size < 2 ^ 32
  pub id : h.pic_id < 2 ^ 32

le_four : (v : ℕ) → v < 2 ^ 32 → le (le_bytes 4 v) ≡ v
le_four v h = omega arith

same_head :
    (h : PacketHead) (a b c d e f : ℕ)
    → a ≡ h.head_iden
    → b ≡ h.frame_type
    → c ≡ h.cur_frame
    → d ≡ h.tot_frame
    → e ≡ h.frame_size
    → f ≡ h.pic_id
    → record {
      head_iden = a;
      frame_type = b;
      cur_frame = c;
      tot_frame = d;
      frame_size = e;
      pic_id = f;
    }
      ≡ h
same_head h a b c d e f p q r s t u = rw (p, q, r, s, t, u) refl

-- A head in range is read back from the front of a packet, whatever follows it.
pub head_at-head_bytes :
    (h : PacketHead) (rest : List ℕ) → IsHead h → read_head (head_bytes h ++ rest) ≡ some h
unfolding head_bytes read_head head_at load
head_at-head_bytes h rest v =
    let whole = head_bytes h ++ rest in
    let fits : leb 18 (length whole) ≡ true = ground arith in
    rw fits (
      ap some (
        same_head h _ _ _ _ _ _ (omega arith) (omega arith) (le_four h.cur_frame v.cur)
          (le_four h.tot_frame v.tot) (le_four h.frame_size v.size) (le_four h.pic_id v.id)))
