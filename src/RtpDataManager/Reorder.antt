-- ===== src/RtpDataManager/Reorder.antt =====
-- `RtpModel` and the slots of `vec_rtp`: `receive_thread` files a packet by its sequence number,
-- `parser_thread` takes the slots in turn.
pub mod Slots
pub mod Lag
use vcu.Prelude.{ℕ, ◌+◌, ◌-◌, ◌*◌, ◌%◌, ◌^◌, Option, none, some, List, [], ◌∷◌}
use vcu.Prelude.{Bool, true, false, ◌==◌, ltb, if◌then◌else◌, get_or, set, replicate}
use vcu.Prelude.Outcome.{Outcome, access, done, ◌>>=◌}
use vcu.RtpModel.{be16}

pub record RtpPacket : Type 0 where
  pub pdata : List ℕ
  pub seq : ℕ
  pub is_valid : Bool

-- `RtpModel()`; `seq` is -1 as an unsigned short
abbrev pub no_packet : RtpPacket
no_packet = record { pdata = []; seq = 65535; is_valid = false }

abbrev pub buffer_size : ℕ
buffer_size = 4096

-- The receiver's variables: the slots, the static `first_seq`, `times`, `index`, and the posts of
-- `sem_buffer` that the parser has not yet taken.
pub record Buffer : Type 0 where
  pub vec_rtp : List RtpPacket
  pub first_seq : Option ℕ
  pub times : ℕ
  pub index : ℕ
  pub posts : ℕ

-- what `start()` sets up
unfoldable pub empty_buffer : Buffer
empty_buffer = record {
  vec_rtp = replicate buffer_size no_packet;
  first_seq = none;
  times = 0;
  index = 0;
  posts = 0;
}

-- bytes 2 and 3, in network order
unfoldable pub packet_seq : List ℕ → Option ℕ
packet_seq (_ ∷ _ ∷ hi ∷ lo ∷ _) = some (be16 hi lo)
packet_seq _ = none

-- `((uint64_t)(seq + 65536 * times) - first_seq) % BUFFER_SIZE`. The sum is an `int` in the source; it is in
-- range below 32767 wraps, and one that wraps round gives the same slot, as `BUFFER_SIZE` divides 2 ^ 32.
unfoldable pub slot : ℕ → ℕ → ℕ → ℕ
slot seq times first_seq = (seq + 65536 * times + 2 ^ 64 - first_seq) % 2 ^ 64 % buffer_size

abbrev pub first_or : Option ℕ → ℕ → ℕ
first_or none seq = seq
first_or (some first) seq = first

-- a packet with its sequence number, filed in its slot
unfoldable pub file : Buffer → ℕ → List ℕ → Buffer
file b seq pdata =
    let first = first_or b.first_seq seq in
    record {
      vec_rtp =
          set b.vec_rtp (slot seq b.times first)
            (record { pdata = pdata; seq = seq; is_valid = true });
      first_seq = some first;
      times = if seq == 65535 then b.times + 1 else b.times;
      index = b.index + 1;
      posts = if ltb 30 (b.index + 1) then b.posts + 1 else b.posts;
    }

-- A round of `receive_thread`; `none` for a `read` that returned no bytes.
unfoldable pub receive : Buffer → Option (List ℕ) → Outcome Buffer
receive b none = done b
receive b (some pdata) = do seq ← access (packet_seq pdata); done (file b seq pdata)

-- A round of `parser_thread` up to the parsing, at its own `index`: the packet taken, if the slot
-- held one, and the slots afterwards. It waits for a post, and takes it.
unfoldable pub take_packet : Buffer → ℕ → Option (List ℕ) × Buffer
take_packet b index =
    let pos = index % buffer_size in
    let packet = get_or b.vec_rtp pos no_packet in
    let waited = record b { posts = b.posts - 1 } in
    if packet.is_valid
    then (
      some packet.pdata,
      record waited { vec_rtp = set b.vec_rtp pos (record packet { is_valid = false }) },
    )
    else (none, waited)
