-- ===== src/Picture/Narrow.antt =====
-- Pictures narrower than what the detector takes, whose rows `pad_data` looks for in the wrong places.
use vcu.Prelude.{
  ℕ, zero, suc, ◌+◌, ◌-◌, ◌*◌, ◌%◌, ◌^◌, ◌≤◌, ◌<◌, ◌≡◌, refl, ap, ◌∙◌, ◌⊎◌, inl, inr, Option-cases,
  none, some, List, arith, tests, sym, length-drop, leb, length, take, drop, Bool-cases,
}
use vcu.Prelude.Memory.{load, zeros, length-zeros, length-take_le, store_lem}
use vcu.Picture.{
  Target, RgbData2, copied, bad_read, pad_pos, pixel_pos, pad_row, pad_rows, margin, pad_data,
}
use vcu.Picture.Padded.{pad_data_rows}

load-none : (block : List ℕ) (i n : ℕ) → length block < i + n → load block i n ≡ none
unfolding load
load-none block i n h = ground arith

length-load :
    (block : List ℕ) (i n : ℕ) (bytes : List ℕ) → load block i n ≡ some bytes → length bytes ≡ n
unfolding load
length-load block i n bytes h = elim (Bool-cases (leb (i + n) (length block))) [
  | inl inside ↦
      let e : take n (drop i block) ≡ bytes =
        (let same : some (take n (drop i block)) ≡ some bytes = rw inside at h in cc) in
      ap length (sym e) ∙ length-take_le n (drop i block) (omega (tests, length-drop i block))
  | inr outside ↦ absurd (let e : none ≡ some bytes = rw outside at h in cc)
]

-- All columns of a row are written inside the block.
abbrev Fits : Target → ℕ → ℕ → ℕ → Type 0
Fits t row width size = (c : ℕ) → c < width → pad_pos t row c + 3 ≤ size

module _ (t : Target) (rgb : List ℕ) (begin_h begin_w i width : ℕ) where
  -- A row that is written inside the block fails in a read, or leaves a block of the same size.
  pad_row-cases :
      (n j : ℕ) (out : List ℕ)
      → begin_w + j + n ≤ width
      → Fits t (begin_h + i) width (length out)
      → (pad_row t rgb begin_h begin_w i n j out ≡ bad_read)
        ⊎ ((out' : List ℕ) × (pad_row t rgb begin_h begin_w i n j out ≡ copied out')
            × (length out' ≡ length out))
  unfolding pad_row
  pad_row-cases zero j out within fits = inr (out, refl, refl)
  pad_row-cases (suc n) j out within fits = elim (Option-cases (load rgb (pixel_pos t i j) 3)) [
    | inl unread ↦ inl (rw unread refl)
    | inr (pixel, read) ↦
        let three = length-load rgb (pixel_pos t i j) 3 pixel read in
        let here = fits (begin_w + j) (omega arith) in
        let (out1, written, size, _, _) =
          store_lem out (pad_pos t (begin_h + i) (begin_w + j)) pixel (omega arith) in
        elim (pad_row-cases n (suc j) out1 (omega arith) (λ c h. omega (arith, size, fits c h))) [
          | inl bad ↦ inl (rw (read, written) bad)
          | inr (out', done, same) ↦ inr (out', rw (read, written) done, same ∙ size)
        ]
  ]

  -- A row whose last pixel cannot be read fails in a read.
  pad_row-bad :
      (k j last : ℕ) (out : List ℕ)
      → j + k ≡ last
      → begin_w + j + suc k ≤ width
      → Fits t (begin_h + i) width (length out)
      → length rgb < pixel_pos t i last + 3
      → pad_row t rgb begin_h begin_w i (suc k) j out ≡ bad_read
  unfolding pad_row
  pad_row-bad zero j last out e within fits h =
      let e' : j ≡ last = omega arith in rw (load-none rgb (pixel_pos t i j) 3 (rw e' h)) refl
  pad_row-bad (suc k) j last out e within fits h =
      elim (Option-cases (load rgb (pixel_pos t i j) 3)) [
        | inl unread ↦ rw unread refl
        | inr (pixel, read) ↦
            let three = length-load rgb (pixel_pos t i j) 3 pixel read in
            let here = fits (begin_w + j) (omega arith) in
            let (out1, written, size, _, _) =
              store_lem out (pad_pos t (begin_h + i) (begin_w + j)) pixel (omega arith) in
            rw (read, written)
              (pad_row-bad k (suc j) last out1 (omega arith) (omega arith)
                (λ c c_in. omega (arith, size, fits c c_in)) h)
      ]

-- The rows fail in a read when the last of them does.
pad_rows-bad :
    (t : Target) (r : RgbData2) (begin_h begin_w width size k i last : ℕ) (out : List ℕ)
    → i + k ≡ last
    → begin_w + r.scale_w ≤ width
    → ((row : ℕ) → row ≤ last → Fits t (begin_h + row) width size)
    → length out ≡ size
    → ((out : List ℕ)
        → length out ≡ size
        → pad_row t r.p_data begin_h begin_w last r.scale_w 0 out ≡ bad_read)
    → pad_rows t r begin_h begin_w (suc k) i out ≡ bad_read
unfolding pad_rows
pad_rows-bad t r begin_h begin_w width size zero i last out e within fits len h =
    let e' : i ≡ last = omega arith in rw (e', h out len) refl
pad_rows-bad t r begin_h begin_w width size (suc k) i last out e within fits len h =
    elim (pad_row-cases t r.p_data begin_h begin_w i width r.scale_w 0 out (omega arith)
      (λ c c_in. omega (arith, len, fits i (omega arith) c c_in))) [
        | inl bad ↦ rw bad refl
        | inr (out', done, same) ↦ rw done (
            pad_rows-bad t r begin_h begin_w width size k (suc i) last out' (omega arith) within
              fits (same ∙ len) h)
      ]

times_suc : (m n : ℕ) → m * suc n ≡ m + m * n
times_suc m n = grind arith

suc_times : (n k : ℕ) → suc n * k ≡ k + n * k
suc_times n k = grind arith

mul_mono : (h a b : ℕ) → a ≤ b → h * a ≤ h * b
mul_mono h a b p = grind arith

mul_mono_left : (a b w : ℕ) → a ≤ b → a * w ≤ b * w
mul_mono_left a b w p = grind arith

times_comm : (a b : ℕ) → a * b ≡ b * a
times_comm a b = grind arith

short :
    (h w wide : ℕ)
    → 0 < h
    → suc w < wide
    → (suc h * suc w * 3 < h * wide * 3 + w * 3 + 3) × (h * wide * 3 + w * 3 < suc h * wide * 3)
short h w wide p q =
    let product = times_suc h w in
    let whole = suc_times h wide in
    let rows : h * suc (suc w) ≤ h * wide = mul_mono h (suc (suc w)) wide (omega arith) in
    (omega (arith, product, suc_times h (suc w), times_suc h (suc w)), omega (arith, whole))

pixel_inside :
    (t : Target) (row column : ℕ)
    → row < t.detect_h
    → column < t.detect_w
    → t.detect_w * t.detect_h * 4 < 2 ^ 31
    → pad_pos t row column + 3 ≤ t.detect_w * t.detect_h * 4 % 2 ^ 32
pixel_inside t row column h w small =
    let rows : suc row * t.detect_w ≤ t.detect_h * t.detect_w =
      mul_mono_left (suc row) t.detect_h t.detect_w h in
    let turned : t.detect_h * t.detect_w ≡ t.detect_w * t.detect_h =
      times_comm t.detect_h t.detect_w in
    omega (arith, suc_times row t.detect_w)

-- Every picture of two rows or more that is narrower than what the detector takes and no taller, in a block
-- of three bytes for each of its pixels: `pad_data` steps from row to row by the detector's width and not
-- by the picture's, and so reads outside the block. Up to there its writes are inside theirs, as what the
-- detector takes has fewer than 2 ^ 31 bytes.
pub pad_data_overruns :
    (t : Target) (r : RgbData2)
    → length r.p_data ≡ r.scale_h * r.scale_w * 3
    → 1 < r.scale_h
    → 0 < r.scale_w
    → r.scale_w < t.detect_w
    → r.scale_h ≤ t.detect_h
    → t.detect_h < 2 ^ 31
    → t.detect_w < 2 ^ 31
    → t.detect_w * t.detect_h * 4 < 2 ^ 31
    → pad_data t r ≡ bad_read
pad_data_overruns t r size rows columns narrow low small_h small_w small =
    let h = r.scale_h - 1 in
    let w = r.scale_w - 1 in
    let begin_h = margin t.detect_h r.scale_h in
    let begin_w = margin t.detect_w r.scale_w in
    let block = t.detect_w * t.detect_h * 4 % 2 ^ 32 in
    let eh : r.scale_h ≡ suc h = omega arith in
    let ew : r.scale_w ≡ suc w = omega arith in
    let (over, fits) = short h w t.detect_w (omega arith) (omega arith) in
    let bytes : length r.p_data ≡ suc h * suc w * 3 = size ∙ (λ k. eh k * ew k * 3) in
    let turned : t.detect_h * t.detect_w ≡ t.detect_w * t.detect_h =
      times_comm t.detect_h t.detect_w in
    let lower : suc h * t.detect_w ≤ t.detect_h * t.detect_w =
      mul_mono_left (suc h) t.detect_h t.detect_w (omega arith) in
    let room : suc h * t.detect_w * 3 < 2 ^ 31 = omega arith in
    let beyond : length r.p_data < pixel_pos t h w + 3 = omega arith in
    let inside : (row : ℕ) → row ≤ h → Fits t (begin_h + row) t.detect_w block =
      λ row row_in c c_in. pixel_inside t (begin_h + row) c (omega arith) c_in small in
    pad_data_rows t r low (omega arith) small_h small_w
    ∙ (λ k. pad_rows t r begin_h begin_w (eh k) 0 (zeros block))
    ∙ pad_rows-bad t r begin_h begin_w t.detect_w block h 0 h (zeros block) (omega arith)
        (omega arith) inside (length-zeros block)
        (λ out len.
          (λ k. pad_row t r.p_data begin_h begin_w h (ew k) 0 out)
          ∙ pad_row-bad t r.p_data begin_h begin_w h t.detect_w w 0 w out (omega arith)
              (omega arith) (λ c c_in. omega (arith, len, inside h (omega arith) c c_in)) beyond)
