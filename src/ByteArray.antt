-- ===== src/ByteArray.antt =====
-- src/byteArray.h, src/byteArray.cpp: the growable byte buffer of the receivers and parsers.
-- A null `pData` is the empty block; every allocated block holds a byte at least. `none` is an access
-- outside the block. Sizes are taken below 2 ^ 31, so `int` arithmetic on them does not wrap.
pub mod Valid
pub mod Append
pub mod Edit
mod Tests
use vcu.Prelude.{ℕ, zero, suc, ◌+◌, ◌-◌, ◌*◌, ◌/◌, ◌≤◌, Option, none, some, List, [], ◌∷◌, ◌++◌}
use vcu.Prelude.{Bool, true, false, ltb, leb, if◌then◌else◌, ◌==◌, ◌&&◌, take, drop}
use vcu.Prelude.{ℤ, pos, negsuc}
use vcu.Prelude.Memory.{◌>>=◌, ◌>>◌, load, store, zeros}

pub record ByteArray : Type 0 where
  pub block : List ℕ
  pub capacity : ℕ
  pub data_size : ℕ

-- `ByteArray()`
unfoldable pub fresh : ByteArray
fresh = record { block = zeros 1024; capacity = 1024; data_size = 0 }

-- the members' initial values with `pData = nullptr`
unfoldable pub null_array : ByteArray
null_array = record { block = []; capacity = 1024; data_size = 0 }

unfoldable pub strlen : List ℕ → Option ℕ
strlen [] = none
strlen (c ∷ s) =
    let rest = strlen s in elim c [ zero ↦ some 0 | suc _ ↦ rest >>= λ n. some (suc n) ]

-- the block of `capacity = n + 1` bytes that the constructors fill with `n` bytes and a terminator
abbrev pub of_bytes : List ℕ → ℕ → ByteArray
of_bytes bytes n = record { block = bytes ++ (0 ∷ []); capacity = n + 1; data_size = n }

-- `ByteArray(const char *p, int _size)`; `none` for the pointer is null
unfoldable pub from_ptr : Option (List ℕ) → ℤ → Option ByteArray
from_ptr none size = some null_array
from_ptr (some s) (negsuc zero) = do n ← strlen s; bytes ← load s 0 n; some (of_bytes bytes n)
from_ptr (some s) (negsuc (suc _)) = some null_array
from_ptr (some s) (pos zero) = some null_array
from_ptr (some s) (pos (suc n)) = do bytes ← load s 0 (suc n); some (of_bytes bytes (suc n))

-- `ByteArray(char c, int _size)`: it tests the member `dataSize`, which is still 0.
unfoldable pub from_char : ℕ → ℤ → ByteArray
from_char c size = null_array

-- `ByteArray(const ByteArray &)`, and `operator=` from another object
unfoldable pub copy : ByteArray → Option ByteArray
copy a = do bytes ← load a.block 0 a.data_size; some (of_bytes bytes a.data_size)

-- `operator=(const char *p)`
unfoldable pub assign_ptr : ByteArray → Option (List ℕ) → Option ByteArray
assign_ptr b none = some (record b { block = []; data_size = 0 })
assign_ptr b (some s) = do
  n ← strlen s
  bytes ← load s 0 (n + 1)
  some (record { block = bytes; capacity = n + 1; data_size = n })

unfoldable pub expanded : ℕ → ℕ → ℕ
expanded cap add = if ltb add (cap * 2) then cap * 2 else cap + (add + 1)

-- a zeroed block of `cap` bytes with the first `dataSize` bytes copied over
unfoldable pub reallocate : ByteArray → ℕ → Option ByteArray
reallocate b cap = do
  bytes ← load b.block 0 b.data_size
  block' ← store (zeros cap) 0 bytes
  some (record b { block = block'; capacity = cap })

unfoldable pub expand : ByteArray → ℕ → Option ByteArray
expand b add = reallocate b (expanded b.capacity add)

unfoldable pub shrink : ByteArray → Option ByteArray
shrink b = reallocate b (b.capacity / 2)

-- `if (dataSize + len >= capacity) expand(len);`
unfoldable pub reserve : ByteArray → ℕ → Option ByteArray
reserve b n = if leb b.capacity (b.data_size + n) then expand b n else some b

-- the bytes stored at the end, and the terminator behind them
unfoldable pub push_back : ByteArray → List ℕ → ℕ → Option ByteArray
push_back b bytes n = do
  block' ← store b.block b.data_size bytes
  block'' ← store block' (b.data_size + n) (0 ∷ [])
  some (record b { block = block''; data_size = b.data_size + n })

-- `append(char c)`
unfoldable pub append_char : ByteArray → ℕ → Option ByteArray
append_char b c = do b' ← reserve b 1; push_back b' (c ∷ []) 1

-- `append(const char *s, int len)` once the length is known
unfoldable pub append_len : ByteArray → List ℕ → ℕ → Option ByteArray
append_len b s n = do b' ← reserve b n; bytes ← load s 0 n; push_back b' bytes n

-- `append(const char *s, int len)`. A negative length but -1 reaches `memcpy` as a huge one.
unfoldable pub append : ByteArray → Option (List ℕ) → ℤ → Option ByteArray
append b none len = some b
append b (some s) (negsuc zero) = do n ← strlen s; append_len b s n
append b (some s) (negsuc (suc _)) = none
append b (some s) (pos n) = append_len b s n

-- `append(const ByteArray &a)`
unfoldable pub append_array : ByteArray → ByteArray → Option ByteArray
append_array b a = if a.data_size == 0 then some b else append_len b a.block a.data_size

unfoldable pub shrink_if_sparse : ByteArray → Option ByteArray
shrink_if_sparse b = if ltb b.data_size (b.capacity / 4) then shrink b else some b

-- the body of `remove` behind its guard; the overlapping `memcpy` is read as a copy
unfoldable pub cut : ByteArray → ℕ → ℕ → Option ByteArray
cut b i n = do
  tail ← load b.block (i + n) (b.data_size - i - n)
  block' ← store b.block i tail
  shrink_if_sparse (record b { block = block'; data_size = b.data_size - n })

-- `remove(int index, int len)`
unfoldable pub remove : ByteArray → ℤ → ℤ → Option ByteArray
remove b (pos i) (pos n) = if ltb b.data_size (i + n) then some b else cut b i n
remove b (negsuc _) _ = some b
remove b (pos i) (negsuc _) = some b

-- `dataSize - index < len`, where the length may be negative
abbrev pub too_short : ByteArray → ℕ → ℤ → Bool
too_short b i (pos n) = ltb b.data_size (i + n)
too_short b i (negsuc n) = ltb (b.data_size + suc n) i

-- the pointer `pData + index`
abbrev pub pointer : ByteArray → ℕ → Option (List ℕ)
pointer b i = elim b.block [ [] ↦ if i == 0 then none else some [] | c ∷ s ↦ some (drop i (c ∷ s)) ]

-- `mid(int index, int len)`
unfoldable pub mid : ByteArray → ℤ → ℤ → Option ByteArray
mid b (negsuc _) len = copy b
mid b (pos i) len = if too_short b i len then copy b else from_ptr (pointer b i) len

-- `at(int index)`, `operator[]`
unfoldable pub at : ByteArray → ℕ → Option ℕ
at b i = do bytes ← load b.block i 1; elim bytes [ [] ↦ none | c ∷ _ ↦ some c ]

-- `clear()`
unfoldable pub clear : ByteArray → Option ByteArray
clear b = do
  block' ← store b.block 0 (zeros b.data_size)
  some (record b { block = block'; data_size = 0 })

-- what the array holds, as its users see it through `data()` and `size()`
abbrev pub contents : ByteArray → List ℕ
contents b = take b.data_size b.block
