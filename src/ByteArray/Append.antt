-- ===== src/ByteArray/Append.antt =====
-- `append` against appending to the list of bytes that the array holds.
use vcu.Prelude.{
  ℕ, ◌+◌, ◌*◌, ◌≤◌, ◌<◌, ◌≡◌, ◌⊎◌, inl, inr, refl, ◌∙◌, some, none, List, [], ◌∷◌, ◌++◌,
}
use vcu.Prelude.{Bool-cases, true, leb, ltb, arith, length, take, pos}
use vcu.Prelude.Memory.{length-take_le, store_lem, store-none}
use native.Mathlib.Decide.{dec_le}
use vcu.ByteArray.{
  ByteArray, contents, expand, expanded, reserve, push_back, append_len, append, append_char,
}
use vcu.ByteArray.Valid.{IsValid, reallocate_lem, load_front}

-- Another array with the same bytes and the room for `n` more and a terminator.
abbrev pub HasRoom : ByteArray → ℕ → ByteArray → Type 0
HasRoom b n b' =
    IsValid b'
    × (b'.data_size + n < b'.capacity)
    × (b.capacity ≤ b'.capacity)
    × (b'.data_size ≡ b.data_size)
    × (contents b' ≡ contents b)

-- The sizes at which the new capacity is enough.
abbrev pub Fits : ByteArray → ℕ → Type 0
Fits b n = (b.data_size + n < b.capacity * 2) ⊎ (b.capacity * 2 ≤ n)

reserve_lem :
    (b : ByteArray) (n : ℕ)
    → IsValid b
    → Fits b n
    → (b' : ByteArray) × (reserve b n ≡ some b') × HasRoom b n b'
unfolding reserve expand expanded
reserve_lem b n v fits = elim (Bool-cases (leb b.capacity (b.data_size + n))) [
  | inr enough ↦ (b, rw enough, (v, ground arith, ground arith, refl, refl))
  | inl full ↦
      let (b', e, v', cap, size, same) =
        reallocate_lem b (expanded b.capacity n) v (ground arith) in
      (b', rw full e, (v', ground arith, ground arith, size, same))
]

push_back_lem :
    (b : ByteArray) (bytes : List ℕ) (n : ℕ)
    → IsValid b
    → length bytes ≡ n
    → b.data_size + n < b.capacity
    → (b' : ByteArray) × (push_back b bytes n ≡ some b')
      × IsValid b'
      × (b'.capacity ≡ b.capacity)
      × (contents b' ≡ contents b ++ bytes)
unfolding push_back
push_back_lem b bytes n v e h =
    let (mid, stored, len, front, _) = store_lem b.block b.data_size bytes (omega arith) in
    let (out, stored', len', _, kept) = store_lem mid (b.data_size + n) (0 ∷ []) (omega arith) in
    (
      record b { block = out; data_size = b.data_size + n },
      rw (stored, stored'),
      record { allocated = omega arith; room = h },
      refl,
      kept
          ∙ (let e' : b.data_size + length bytes ≡ b.data_size + n = omega arith in rw e' at front),
    )

append_len_lem :
    (b : ByteArray) (s : List ℕ) (n : ℕ)
    → IsValid b
    → n ≤ length s
    → Fits b n
    → (b' : ByteArray) × (append_len b s n ≡ some b')
      × IsValid b'
      × (b.capacity ≤ b'.capacity)
      × (contents b' ≡ contents b ++ take n s)
unfolding append_len
append_len_lem b s n v h fits =
    let (b1, reserved, (v1, room, grown, size, same)) = reserve_lem b n v fits in
    let (b2, pushed, v2, cap, done) =
      push_back_lem b1 (take n s) n v1 (length-take_le n s h) room in
    (b2, rw (reserved, load_front s n h, pushed), v2, ground arith, rw same at done)

-- The new block is one byte short, or more: the bytes or the terminator are written outside it.
push_back-none :
    (b : ByteArray) (bytes : List ℕ) (n : ℕ)
    → IsValid b
    → length bytes ≡ n
    → b.capacity ≤ b.data_size + n
    → push_back b bytes n ≡ none
unfolding push_back
push_back-none b bytes n v e h = elim (dec_le (b.data_size + n) b.capacity) [
  | no over ↦ rw (store-none b.block b.data_size bytes (omega arith))
  | yes exact ↦
      let (mid, stored, len, _, _) = store_lem b.block b.data_size bytes (omega arith) in
      rw (stored, store-none mid (b.data_size + n) (0 ∷ []) (omega arith))
]

-- On an array that holds a block, `append(s, n)` with `n` readable bytes at `s` succeeds, keeps the
-- representation valid, never gives room back, and leaves exactly the old bytes followed by those
-- `n`, provided that `n` bytes fit the doubled capacity or are more than it.
pub append_lem :
    (b : ByteArray) (s : List ℕ) (n : ℕ)
    → IsValid b
    → n ≤ length s
    → Fits b n
    → (b' : ByteArray) × (append b (some s) (pos n) ≡ some b')
      × IsValid b'
      × (b.capacity ≤ b'.capacity)
      × (contents b' ≡ contents b ++ take n s)
unfolding append
append_lem b s n v h fits = append_len_lem b s n v h fits

-- Whenever `n` bytes do not fit twice the capacity behind the bytes held, while `n` itself is below
-- twice the capacity, `append(s, n)` writes outside its block.
pub append-overflows :
    (b : ByteArray) (s : List ℕ) (n : ℕ)
    → IsValid b
    → n ≤ length s
    → b.capacity * 2 ≤ b.data_size + n
    → n < b.capacity * 2
    → append b (some s) (pos n) ≡ none
unfolding append append_len reserve expand expanded
append-overflows b s n v h short wide =
    let (b1, moved, v1, cap, size, _) = reallocate_lem b (b.capacity * 2) v (omega arith) in
    let full : leb b.capacity (b.data_size + n) ≡ true = ground arith in
    let doubled : ltb n (b.capacity * 2) ≡ true = ground arith in
    rw (full, doubled, moved, load_front s n h)
      (push_back-none b1 (take n s) n v1 (length-take_le n s h) (omega arith))

-- `append(c)` always succeeds on an array that holds a block, keeps the representation valid, and adds
-- that one byte at the end.
pub append_char_lem :
    (b : ByteArray) (c : ℕ)
    → IsValid b
    → (b' : ByteArray) × (append_char b c ≡ some b')
      × IsValid b'
      × (b.capacity ≤ b'.capacity)
      × (contents b' ≡ contents b ++ (c ∷ []))
unfolding append_char
append_char_lem b c v =
    let (b1, reserved, (v1, room, grown, size, same)) = reserve_lem b 1 v (ground arith) in
    let (b2, pushed, v2, cap, done) = push_back_lem b1 (c ∷ []) 1 v1 refl room in
    (b2, rw (reserved, pushed), v2, ground arith, rw same at done)
