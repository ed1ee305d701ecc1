-- ===== src/ByteArray/Edit.antt =====
-- `remove`, `mid` and `clear` against the list of bytes that the array holds.
use vcu.Prelude.{ℕ, ◌+◌, ◌-◌, ◌/◌, ◌≤◌, ◌<◌, ◌≡◌, refl, sym, ◌∙◌, ap, some, List, [], ◌∷◌, ◌++◌}
use vcu.Prelude.{
  subst, suc, length-append, Bool-cases, false, ltb, arith, length, take, drop, pos, length-drop,
  inl, inr,
}
use vcu.Prelude.Memory.{
  load, store_lem, zeros, length-zeros, length-take_le, load_lem, take-take, drop-take,
  take-append-length,
}
use vcu.ByteArray.{
  ByteArray, contents, shrink, shrink_if_sparse, cut, remove, copy, pointer, mid, clear, from_ptr,
  of_bytes,
}
use vcu.ByteArray.Valid.{IsValid, length-contents, reallocate_lem, load_front}

shrink_if_sparse_lem :
    (b : ByteArray)
    → IsValid b
    → (b' : ByteArray) × (shrink_if_sparse b ≡ some b')
      × IsValid b'
      × (b'.data_size ≡ b.data_size)
      × (contents b' ≡ contents b)
unfolding shrink_if_sparse shrink
shrink_if_sparse_lem b v = elim (Bool-cases (ltb b.data_size (b.capacity / 4))) [
  | inr dense ↦ (b, rw dense, v, refl, refl)
  | inl sparse ↦
      let (b', e, v', cap, size, same) = reallocate_lem b (b.capacity / 2) v (ground arith) in
      (b', rw sparse e, v', size, same)
]

-- Cutting `n` bytes at `i` out of a list.
abbrev pub without : ℕ → ℕ → List ℕ → List ℕ
without i n xs = take i xs ++ drop (i + n) xs

cut_bytes :
    (xs : List ℕ) (size i n : ℕ)
    → i + n ≤ size
    → take i xs ++ take (size - i - n) (drop (i + n) xs) ≡ without i n (take size xs)
cut_bytes xs size i n h =
    rw (take-take i size xs (omega arith), drop-take (i + n) size (size - i - n) xs (omega arith))

-- `remove(i, n)` within the bytes held succeeds, keeps the representation valid, and leaves exactly
-- the bytes in front of `i` followed by those from `i + n` on.
pub remove_lem :
    (b : ByteArray) (i n : ℕ)
    → IsValid b
    → i + n ≤ b.data_size
    → (b' : ByteArray) × (remove b (pos i) (pos n) ≡ some b')
      × IsValid b'
      × (contents b' ≡ without i n (contents b))
unfolding remove cut
remove_lem b i n v h =
    let inside : ltb b.data_size (i + n) ≡ false = ground arith in
    let tail = take (b.data_size - i - n) (drop (i + n) b.block) in
    let size : length tail ≡ b.data_size - i - n =
      length-take_le _ _ (omega (arith, length-drop (i + n) b.block)) in
    let loaded : load b.block (i + n) (b.data_size - i - n) ≡ some tail =
      load_lem _ _ _ (omega arith) in
    let fits : i + length tail ≤ length b.block = omega arith in
    let end : i + length tail ≡ b.data_size - n = omega arith in
    let (out, stored, len, front, _) = store_lem b.block i tail fits in
    let (b', e, v', _, same) =
      shrink_if_sparse_lem (record b { block = out; data_size = b.data_size - n })
        (record { allocated = omega arith; room = omega arith }) in
    (
      b',
      rw (inside, loaded, stored) e,
      v',
      same
          ∙ subst (λ k. take k out ≡ take i b.block ++ tail) end front
          ∙ cut_bytes b.block b.data_size i n h,
    )

-- `clear()` always succeeds on an array that holds a block and leaves it valid, empty and as large.
pub clear_lem :
    (b : ByteArray)
    → IsValid b
    → (b' : ByteArray) × (clear b ≡ some b')
      × IsValid b'
      × (contents b' ≡ [])
      × (b'.capacity ≡ b.capacity)
unfolding clear
clear_lem b v =
    let (out, stored, len, _, _) =
      store_lem b.block 0 (zeros b.data_size) (omega (arith, length-zeros b.data_size)) in
    (
      record b { block = out; data_size = 0 },
      rw stored,
      record { allocated = omega arith; room = omega arith },
      refl,
      refl,
    )

of_bytes_lem :
    (bytes : List ℕ) (n : ℕ)
    → length bytes ≡ n
    → IsValid (of_bytes bytes n) × (contents (of_bytes bytes n) ≡ bytes)
of_bytes_lem bytes n e = (
  record { allocated = omega (arith, length-append bytes (0 ∷ [])); room = omega arith },
  take-append-length n bytes (0 ∷ []) (sym e),
)

-- The copy constructor, on an array that holds a block, makes a valid array of the same bytes.
pub copy_lem :
    (b : ByteArray)
    → IsValid b
    → (b' : ByteArray) × (copy b ≡ some b') × IsValid b' × (contents b' ≡ contents b)
unfolding copy
copy_lem b v =
    let (v', same) = of_bytes_lem (contents b) b.data_size (length-contents b v) in
    (of_bytes (contents b) b.data_size, rw (load_front b.block b.data_size (omega arith)), v', same)

pub pointer_lem :
    (xs : List ℕ) (c d i : ℕ)
    → 0 < length xs
    → pointer (record { block = xs; capacity = c; data_size = d }) i ≡ some (drop i xs)
pointer_lem [] c d i h = absurd (omega arith)
pointer_lem (x ∷ xs) c d i h = refl

-- `mid(i, n)` of `n > 0` bytes that are held makes a valid array of exactly those bytes.
pub mid_lem :
    (b : ByteArray) (i n : ℕ)
    → IsValid b
    → i + suc n ≤ b.data_size
    → (b' : ByteArray) × (mid b (pos i) (pos (suc n)) ≡ some b')
      × IsValid b'
      × (contents b' ≡ take (suc n) (drop i (contents b)))
unfolding mid from_ptr
mid_lem b i n v h =
    let bytes = take (suc n) (drop i b.block) in
    let inside : ltb b.data_size (i + suc n) ≡ false = ground arith in
    let held : suc n ≤ length (drop i b.block) = omega (arith, length-drop i b.block) in
    let (v', same) = of_bytes_lem bytes (suc n) (length-take_le (suc n) (drop i b.block) held) in
    (
      of_bytes bytes (suc n),
      rw (
        inside,
        pointer_lem b.block b.capacity b.data_size i (omega arith),
        load_front (drop i b.block) (suc n) held,
      ),
      v',
      same
          ∙ sym (
              ap (take (suc n)) (drop-take i b.data_size (b.data_size - i) b.block (omega arith))
              ∙ take-take (suc n) (b.data_size - i) (drop i b.block) (omega arith)),
    )
