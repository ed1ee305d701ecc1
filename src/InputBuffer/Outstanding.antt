-- ===== src/InputBuffer/Outstanding.antt =====
-- The buffers handed out and not yet released.
use vcu.Prelude.{
  ℕ, zero, suc, ◌+◌, ◌-◌, ◌*◌, ◌/◌, ◌%◌, ◌^◌, ◌≤◌, ◌<◌, ◌≡◌, ◌≢◌, ◌⊎◌, inl, inr, some, arith,
  bit_and,
}
use native.Mathlib.Decide.{dec_lt}
use native.Mathlib.Nat.{pow-suc, one-le-pow, pow-le-pow_right, div-add-mod', mul-le-mul_right}
use vcu.Prelude.Bits.{bit_and_mask, mod-mod_pow}
use vcu.InputBuffer.{InputBufferManager, init, get_buffer_to_save_pic_mt, release_buffer_mt}

-- The managers that a client reaches which releases only what it holds, with the numbers of buffers
-- ever handed out and ever released.
pub data Reach (size len : ℕ) : InputBufferManager → ℕ → ℕ → Type 0 where
  here : Reach size len (init size len) 0 0
  got :
      {m : InputBufferManager} {produced consumed : ℕ} (offset : ℕ) (m' : InputBufferManager)
      → Reach size len m produced consumed
      → get_buffer_to_save_pic_mt m ≡ some (offset, m')
      → Reach size len m' (produced + 1) consumed
  released :
      {m : InputBufferManager} {produced consumed : ℕ}
      → Reach size len m produced consumed
      → consumed < produced
      → Reach size len (release_buffer_mt m) produced (consumed + 1)

pub record IsCounted (size len : ℕ) (m : InputBufferManager) (produced consumed : ℕ) : Type 0 where
  pub produce : m.buffer_index_produce ≡ produced % 2 ^ 64
  pub consume : m.buffer_index_consume ≡ consumed % 2 ^ 64
  pub num : m.buffer_num ≡ size
  pub length : m.buffer_len ≡ len
  pub ordered : consumed ≤ produced
  pub within : produced + 1 ≤ consumed + size

got-IsCounted :
    (size len : ℕ) (m m' : InputBufferManager) (produced consumed offset : ℕ)
    → 2 ≤ size
    → size < 2 ^ 31
    → IsCounted size len m produced consumed
    → get_buffer_to_save_pic_mt m ≡ some (offset, m')
    → IsCounted size len m' (produced + 1) consumed
unfolding get_buffer_to_save_pic_mt
got-IsCounted size len m m' produced consumed offset h2 hs c e = ground arith

Reach-IsCounted :
    (size len : ℕ) (m : InputBufferManager) (produced consumed : ℕ)
    → 2 ≤ size
    → size < 2 ^ 31
    → Reach size len m produced consumed
    → IsCounted size len m produced consumed
unfolding init release_buffer_mt
Reach-IsCounted size len _ _ _ h2 hs here = omega arith
Reach-IsCounted size len _ _ _ h2 hs (got {m = m} {produced = p} {consumed = c} offset m' r e) =
    got-IsCounted size len m m' p c offset h2 hs (Reach-IsCounted size len m p c h2 hs r) e
Reach-IsCounted size len _ _ _ h2 hs (released {m = m} {produced = p} {consumed = c} r lt) =
    ground (arith, Reach-IsCounted size len m p c h2 hs r)

-- the offset of the buffer handed out as number `i`
abbrev pub offset_of : ℕ → ℕ → ℕ → ℕ
offset_of size len i = i % size * len

-- Two buffers of `len` bytes at these offsets share no byte.
abbrev pub Apart : ℕ → ℕ → ℕ → Type 0
Apart len a b = (a + len ≤ b) ⊎ (b + len ≤ a)

offset_lem :
    (k len : ℕ) (m m' : InputBufferManager) (produced consumed offset : ℕ)
    → k < 31
    → IsCounted (2 ^ k) len m produced consumed
    → get_buffer_to_save_pic_mt m ≡ some (offset, m')
    → offset ≡ offset_of (2 ^ k) len produced
unfolding get_buffer_to_save_pic_mt
offset_lem k len m m' produced consumed offset hk c e = ground (arith, c, masked)
  where
    masked :
        bit_and m.buffer_index_produce (m.buffer_num - 1) * m.buffer_len
        ≡ offset_of (2 ^ k) len produced
    masked = rw (
      c.num,
      c.produce,
      c.length,
      bit_and_mask k (produced % 2 ^ 64),
      mod-mod_pow k produced (omega arith),
    )

row_step : (len a b : ℕ) → a < b → a * len + len ≤ b * len
row_step len a b h = grind arith

rows-Apart : (len a b : ℕ) → a ≢ b → Apart len (a * len) (b * len)
rows-Apart len a b ne = elim (dec_lt a b) [
  | yes below ↦ inl (row_step len a b below)
  | no above ↦ inr (row_step len b a (omega arith))
]

size_bounds : (k : ℕ) → 0 < k → k < 31 → (2 ≤ 2 ^ k) × (2 ^ k < 2 ^ 31)
size_bounds zero h h' = absurd (omega arith)
size_bounds (suc k) h h' = (
  omega (arith, pow-suc 2 k, one-le-pow k 2),
  omega (arith, pow-le-pow_right {n = 2} (omega arith) {i = suc k} {j = 30} (omega arith)),
)

-- Numbers less than `size` apart have different remainders.
residues_ne : (size p i : ℕ) → i < p → p < i + size → p % size ≢ i % size
residues_ne size p i h k e = elim (dec_lt (i / size) (p / size)) [
  | yes more ↦
      omega
        (arith, row_step size (i / size) (p / size) more, div-add-mod' p size, div-add-mod' i size)
  | no less ↦ omega (
    arith,
    mul-le-mul_right {m = p / size} {n = i / size} size (omega arith),
    div-add-mod' p size,
    div-add-mod' i size,
  )
]

within_block : (size len p : ℕ) → 0 < size → p % size * len + len ≤ len * size
within_block size len p h = omega (arith, row_step len (p % size) size (omega arith))

-- With `2 ^ k` buffers of `len` bytes each, `k` from 1 to 30, and a client that releases only what it
-- holds: when `getBufferToSavePicMt` hands out a buffer, at most `2 ^ k - 2` are held, the new one lies
-- inside the allocated block, and it shares no byte with any buffer that is held, however often
-- the 64-bit counters have wrapped.
pub get_buffer_disjoint :
    (k len : ℕ) (m m' : InputBufferManager) (produced consumed offset : ℕ)
    → 0 < k
    → k < 31
    → Reach (2 ^ k) len m produced consumed
    → get_buffer_to_save_pic_mt m ≡ some (offset, m')
    → (produced - consumed + 2 ≤ 2 ^ k)
      × (offset + len ≤ m.buffer_len * m.buffer_num)
      × ((i : ℕ) → consumed ≤ i → i < produced → Apart len offset (offset_of (2 ^ k) len i))
get_buffer_disjoint k len m m' produced consumed offset hk hk' r e =
    let size = 2 ^ k in
    let (two, word) = size_bounds k hk hk' in
    let c = Reach-IsCounted size len m produced consumed two word r in
    let c' = got-IsCounted size len m m' produced consumed offset two word c e in
    let at_row = offset_lem k len m m' produced consumed offset hk' c e in
    (
      omega (arith, c'.within, c.ordered),
      rw (at_row, c.num, c.length) (within_block size len produced (omega arith)),
      λ i low high. rw at_row (
          rows-Apart len (produced % size) (i % size)
            (residues_ne size produced i high (omega (arith, c.within)))),
    )
