-- ===== src/RtpDataManager/Reorder/Slots.antt =====
-- Packets that arrive out of order are taken in order.
use vcu.Prelude.{ℕ, zero, suc, ◌+◌, ◌%◌, ◌^◌, ◌<◌, ◌≡◌, ◌≢◌, refl, ap, ◌∙◌, List, [], ◌∷◌, some}
use vcu.Prelude.{arith, length, get_or, set, length-set, true}
use vcu.RtpDataManager.Reorder.{Buffer, RtpPacket, no_packet, buffer_size, slot, file, take_packet}

-- The slot of the packet `i` behind the first one is `i` modulo the number of slots, whatever the
-- count of wrap-arounds: sequence numbers wrap at a multiple of it.
pub slot_lem :
    (first i times : ℕ)
    → first < 2 ^ 16
    → times < 2 ^ 31
    → slot ((first + i) % 2 ^ 16) times first ≡ i % buffer_size
unfolding slot
slot_lem first i times hf ht = omega arith

pub get_or-set_self {ℓ} :
    {A : Type ℓ} (xs : List A) (i : ℕ) (v d : A) → i < length xs → get_or (set xs i v) i d ≡ v
get_or-set_self [] i v d h = absurd (omega arith)
get_or-set_self (x ∷ xs) zero v d h = refl
get_or-set_self (x ∷ xs) (suc i) v d h = get_or-set_self xs i v d (omega arith)

pub get_or-set_ne {ℓ} :
    {A : Type ℓ} (xs : List A) (i j : ℕ) (v d : A) → i ≢ j → get_or (set xs i v) j d ≡ get_or xs j d
get_or-set_ne [] i j v d h = refl
get_or-set_ne (x ∷ xs) zero zero v d h = absurd (h refl)
get_or-set_ne (x ∷ xs) zero (suc j) v d h = refl
get_or-set_ne (x ∷ xs) (suc i) zero v d h = refl
get_or-set_ne (x ∷ xs) (suc i) (suc j) v d h = get_or-set_ne xs i j v d (λ e. h (ap suc e))

-- The packets that the receiver files, each with its number behind the first one.
pub file_all : ℕ → Buffer → List (ℕ × List ℕ) → Buffer
file_all first b [] = b
file_all first b ((i, pdata) ∷ later) = file_all first (file b ((first + i) % 2 ^ 16) pdata) later

-- None of the packets comes to the slot of packet `i`.
abbrev pub Avoids : ℕ → List (ℕ × List ℕ) → Type 0
Avoids i [] = Unit
Avoids i ((j, _) ∷ later) = (j % buffer_size ≢ i % buffer_size) × Avoids i later

-- The slots are there, the first sequence number is known, and the wrap count is in range for all
-- the packets to come.
pub record IsReady (first : ℕ) (coming : ℕ) (b : Buffer) : Type 0 where
  pub slots : length b.vec_rtp ≡ buffer_size
  pub known : b.first_seq ≡ some first
  pub range : first < 2 ^ 16
  pub wraps : b.times + coming < 2 ^ 31

file-IsReady :
    (first i n : ℕ) (pdata : List ℕ) (b : Buffer)
    → IsReady first (suc n) b
    → IsReady first n (file b ((first + i) % 2 ^ 16) pdata)
unfolding file
file-IsReady first i n pdata b r = record {
  slots = length-set b.vec_rtp _ _ ∙ r.slots;
  known = rw r.known;
  range = r.range;
  wraps = ground (arith, r.wraps);
}

slot_at : ℕ → Buffer → RtpPacket
slot_at i b = get_or b.vec_rtp (i % buffer_size) no_packet

file_self :
    (first i n : ℕ) (pdata : List ℕ) (b : Buffer)
    → IsReady first n b
    → slot_at i (file b ((first + i) % 2 ^ 16) pdata)
      ≡ record { pdata = pdata; seq = (first + i) % 2 ^ 16; is_valid = true }
unfolding file slot_at
file_self first i n pdata b r =
    rw (r.known, slot_lem first i b.times r.range (omega (arith, r.wraps)))
      (get_or-set_self b.vec_rtp (i % buffer_size) _ no_packet (omega (arith, r.slots)))

file_other :
    (first i j n : ℕ) (pdata : List ℕ) (b : Buffer)
    → IsReady first n b
    → j % buffer_size ≢ i % buffer_size
    → slot_at i (file b ((first + j) % 2 ^ 16) pdata) ≡ slot_at i b
unfolding file slot_at
file_other first i j n pdata b r ne =
    rw (r.known, slot_lem first j b.times r.range (omega (arith, r.wraps)))
      (get_or-set_ne b.vec_rtp (j % buffer_size) (i % buffer_size) _ no_packet ne)

file_all-Avoids :
    (first i : ℕ) (b : Buffer) (later : List (ℕ × List ℕ))
    → IsReady first (length later) b
    → Avoids i later
    → slot_at i (file_all first b later) ≡ slot_at i b
unfolding file_all
file_all-Avoids first i b [] r h = refl
file_all-Avoids first i b ((j, pdata) ∷ later) r (ne, h) =
    file_all-Avoids first i (file b ((first + j) % 2 ^ 16) pdata) later
      (file-IsReady first j (length later) pdata b r) h
    ∙ file_other first i j (suc (length later)) pdata b r ne

-- Packet `i`, filed in an array of slots whose first packet is known, is the one that the parser
-- takes at its index `i`, whatever packets were filed before it and in whatever order others are
-- filed behind it, as long as none of these comes to its slot, which is a multiple of 4096 away.
pub take_packet-file_all :
    (first i : ℕ) (pdata : List ℕ) (b : Buffer) (later : List (ℕ × List ℕ))
    → IsReady first (suc (length later)) b
    → Avoids i later
    → (take_packet (file_all first (file b ((first + i) % 2 ^ 16) pdata) later) i).0 ≡ some pdata
unfolding take_packet slot_at
take_packet-file_all first i pdata b later r h = rw (
    file_all-Avoids first i (file b ((first + i) % 2 ^ 16) pdata) later
      (file-IsReady first i (length later) pdata b r) h
    ∙ file_self first i (suc (length later)) pdata b r)
