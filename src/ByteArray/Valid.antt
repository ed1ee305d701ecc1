-- ===== src/ByteArray/Valid.antt =====
-- The representation invariant of a `ByteArray` that holds a block, and its reallocation.
use vcu.Prelude.{ℕ, ◌+◌, ◌≤◌, ◌<◌, ◌≡◌, refl, some, List}
use vcu.Prelude.{arith, length, take, length-take}
use vcu.Prelude.Memory.{load, zeros, store_lem, length-zeros}
use vcu.ByteArray.{ByteArray, contents, reallocate}

pub record IsValid (b : ByteArray) : Type 0 where
  pub allocated : length b.block ≡ b.capacity
  pub room : b.data_size < b.capacity

-- What the array holds has the size that `size()` gives.
pub length-contents : (b : ByteArray) → IsValid b → length (contents b) ≡ b.data_size
length-contents b v = omega (arith, length-take b.data_size b.block)

pub load_front : (block : List ℕ) (n : ℕ) → n ≤ length block → load block 0 n ≡ some (take n block)
unfolding load
load_front block n h = ground arith

-- Moving to a block of `cap` bytes that is large enough keeps what the array holds.
pub reallocate_lem :
    (b : ByteArray) (cap : ℕ)
    → IsValid b
    → b.data_size < cap
    → (b' : ByteArray) × (reallocate b cap ≡ some b')
      × IsValid b'
      × (b'.capacity ≡ cap)
      × (b'.data_size ≡ b.data_size)
      × (contents b' ≡ contents b)
unfolding reallocate
reallocate_lem b cap v h =
    let front = contents b in
    let size : length front ≡ b.data_size = length-contents b v in
    let (out, stored, len, front_out, _) =
      store_lem (zeros cap) 0 front (omega (arith, length-zeros cap)) in
    let size' : 0 + length front ≡ b.data_size = omega arith in
    (
      record b { block = out; capacity = cap },
      rw (load_front b.block b.data_size (omega arith), stored),
      record { allocated = omega (arith, length-zeros cap); room = h },
      refl,
      refl,
      rw size' at front_out,
    )
