-- ===== src/Picture/Padded.antt =====
-- The picture in the middle of what the detector takes.
use vcu.Prelude.{
  ℕ, zero, suc, ◌+◌, ◌-◌, ◌*◌, ◌/◌, ◌%◌, ◌^◌, ◌≤◌, ◌<◌, ◌≡◌, refl, sym, ap, ◌∙◌, some, List, [],
  ◌∷◌, ◌++◌, append_assoc, append-nil, arith, lt→ltb, true, length, length-append, take, drop,
  take-append-drop, length-drop,
}
use vcu.Prelude.Memory.{load, store, zeros, length-zeros, length-take_le, load-append, store-append}
use vcu.Picture.{
  Target, RgbData2, copied, pad_pos, pixel_pos, pad_row, pad_rows, margin, ends_in_range, pad_data,
}

abbrev pub Pixel : Type 0
Pixel = ℕ × ℕ × ℕ

-- The bytes of the pixels, three for each.
abbrev pub packed : List Pixel → List ℕ
packed [] = []
packed ((r, g, b) ∷ ps) = r ∷ g ∷ b ∷ packed ps

-- The bytes of the pixels, four for each.
abbrev pub padded : List Pixel → List ℕ
padded [] = []
padded ((r, g, b) ∷ ps) = r ∷ g ∷ b ∷ 0 ∷ padded ps

length-packed : (ps : List Pixel) → length (packed ps) ≡ 3 * length ps
length-packed [] = omega arith
length-packed ((r, g, b) ∷ ps) = omega (arith, length-packed ps)

length-padded : (ps : List Pixel) → length (padded ps) ≡ 4 * length ps
length-padded [] = omega arith
length-padded ((r, g, b) ∷ ps) = omega (arith, length-padded ps)

packed-append : (ps qs : List Pixel) → packed (ps ++ qs) ≡ packed ps ++ packed qs
packed-append [] qs = refl
packed-append ((r, g, b) ∷ ps) qs = ap (λ l. r ∷ g ∷ b ∷ l) (packed-append ps qs)

padded-append : (ps qs : List Pixel) → padded (ps ++ qs) ≡ padded ps ++ padded qs
padded-append [] qs = refl
padded-append ((r, g, b) ∷ ps) qs = ap (λ l. r ∷ g ∷ b ∷ 0 ∷ l) (padded-append ps qs)

zeros-add : (m n : ℕ) → zeros (m + n) ≡ zeros m ++ zeros n
zeros-add zero n = let e : 0 + n ≡ n = omega arith in ap zeros e
zeros-add (suc m) n =
    let e : suc m + n ≡ suc (m + n) = omega arith in ap zeros e ∙ ap (λ l. 0 ∷ l) (zeros-add m n)

-- What has been written: the pixels `before`, between zeros.
abbrev canvas : ℕ → List Pixel → ℕ → List ℕ
canvas a before m = zeros a ++ (padded before ++ zeros m)

load_pixel :
    (before after : List Pixel) (p : Pixel) (i : ℕ)
    → i ≡ 3 * length before
    → load (packed (before ++ (p ∷ after))) i 3 ≡ some (packed (p ∷ []))
load_pixel before after p i e =
    ap (λ l. load l i 3) (packed-append before (p ∷ after))
    ∙ load-append (packed before) (packed (p ∷ [])) (packed after) i 3
        (omega (arith, length-packed before)) refl

store_pixel :
    (a m i : ℕ) (before : List Pixel) (p : Pixel)
    → i ≡ a + 4 * length before
    → store (canvas a before (suc (suc (suc (suc m))))) i (packed (p ∷ []))
      ≡ some (canvas a (before ++ (p ∷ [])) m)
store_pixel a m i before p e =
    ap (λ l. store l i (packed (p ∷ [])))
      (sym (append_assoc (zeros a) (padded before) (zeros (suc (suc (suc (suc m)))))))
    ∙ store-append (zeros a ++ padded before) (zeros (suc (suc (suc (suc m))))) (packed (p ∷ [])) i
        (omega
          (arith, e, length-append (zeros a) (padded before), length-zeros a, length-padded before))
        (omega arith)
    ∙ ap some (
        append_assoc (zeros a) (padded before) _
        ∙ ap (λ l. zeros a ++ l)
            (sym (append_assoc (padded before) (padded (p ∷ [])) (zeros m))
              ∙ ap (λ l. l ++ zeros m) (sym (padded-append before (p ∷ [])))))

add_times : (m n k : ℕ) → (m + n) * k ≡ m * k + n * k
add_times m n k = grind arith

suc_times : (n k : ℕ) → suc n * k ≡ k + n * k
suc_times n k = grind arith

times_three : (w a b c : ℕ) → w * (a + (b + c)) ≡ a * w + (b * w + c * w)
times_three w a b c = grind arith

-- The row from column `j` on, where the columns begin at the edge.
pad_row_lem :
    (t : Target) (begin_h begin_w i j m : ℕ) (before mid after : List Pixel)
    → begin_w ≡ 0
    → length before ≡ i * t.detect_w + j
    → 4 * (begin_h * t.detect_w) + 4 * length before + 4 * length mid + m < 2 ^ 31
    → pad_row t
        (packed (before ++ (mid ++ after)))
        begin_h
        begin_w
        i
        (length mid)
        j
        (canvas (4 * (begin_h * t.detect_w)) before (4 * length mid + m))
      ≡ copied (canvas (4 * (begin_h * t.detect_w)) (before ++ mid) m)
unfolding pad_row
pad_row_lem t begin_h begin_w i j m before [] after edge at_j small =
    let e : 4 * length {A = Pixel} [] + m ≡ m = omega arith in rw (append-nil before, e) refl
pad_row_lem t begin_h begin_w i j m before (p ∷ mid) after edge at_j small =
    let from : pixel_pos t i j ≡ 3 * length before = omega arith in
    let to : pad_pos t (begin_h + i) (begin_w + j)
        ≡ 4 * (begin_h * t.detect_w) + 4 * length before =
      omega (arith, add_times begin_h i t.detect_w) in
    let size : 4 * length (p ∷ mid) + m ≡ suc (suc (suc (suc (4 * length mid + m)))) =
      omega arith in
    let later =
      pad_row_lem t begin_h begin_w i (suc j) m (before ++ (p ∷ [])) mid after edge
        (omega (arith, length-append before (p ∷ [])))
        (omega (arith, length-append before (p ∷ []))) in
    rw (load_pixel before (mid ++ after) p _ from, size, store_pixel _ _ _ before p to)
      (rw (append_assoc before (p ∷ []) (mid ++ after), append_assoc before (p ∷ []) mid) at later)

-- The rows from row `i` on.
pad_rows_lem :
    (t : Target) (r : RgbData2) (begin_h begin_w n i m : ℕ) (before rest : List Pixel)
    → begin_w ≡ 0
    → r.scale_w ≡ t.detect_w
    → r.p_data ≡ packed (before ++ rest)
    → length before ≡ i * t.detect_w
    → length rest ≡ n * t.detect_w
    → 4 * (begin_h * t.detect_w) + 4 * length before + 4 * length rest + m < 2 ^ 31
    → pad_rows t r begin_h begin_w n i
        (canvas (4 * (begin_h * t.detect_w)) before (4 * length rest + m))
      ≡ copied (canvas (4 * (begin_h * t.detect_w)) (before ++ rest) m)
unfolding pad_rows
pad_rows_lem t r begin_h begin_w zero i m before [] edge wide same at_i size small =
    let e : 4 * length {A = Pixel} [] + m ≡ m = omega arith in rw (append-nil before, e) refl
pad_rows_lem t r begin_h begin_w zero i m before (p ∷ rest) edge wide same at_i size small =
    absurd (omega arith)
pad_rows_lem t r begin_h begin_w (suc n) i m before rest edge wide same at_i size small =
    let mid = take t.detect_w rest in
    let after = drop t.detect_w rest in
    let split = take-append-drop t.detect_w rest in
    let more : suc n * t.detect_w ≡ t.detect_w + n * t.detect_w = suc_times n t.detect_w in
    let len_mid : length mid ≡ t.detect_w = length-take_le t.detect_w rest (omega arith) in
    let len_after : length after ≡ n * t.detect_w = omega (arith, length-drop t.detect_w rest) in
    let regroup : r.p_data ≡ packed (before ++ (mid ++ after)) =
      same ∙ ap (λ l. packed (before ++ l)) (sym split) in
    let room : 4 * length rest + m ≡ 4 * length mid + (4 * length after + m) = omega arith in
    let row =
      pad_row_lem t begin_h begin_w i 0 (4 * length after + m) before mid after edge (omega arith)
        (omega arith) in
    let moved =
      (λ k.
        pad_row t (regroup k) begin_h begin_w i ((wide ∙ sym len_mid) k) 0
          (canvas (4 * (begin_h * t.detect_w)) before (room k)))
      ∙ row in
    let later =
      pad_rows_lem t r begin_h begin_w n (suc i) m (before ++ mid) after edge wide
        (regroup ∙ ap packed (sym (append_assoc before mid after)))
        (omega (arith, length-append before mid, suc_times i t.detect_w)) len_after
        (omega (arith, length-append before mid)) in
    rw moved (
      later
      ∙ ap (λ l. copied (canvas (4 * (begin_h * t.detect_w)) l m))
          (append_assoc before mid after ∙ ap (λ l. before ++ l) split))

-- For a picture that fits, the `int`s that the loops run to are in range.
pub pad_data_rows :
    (t : Target) (r : RgbData2)
    → r.scale_h ≤ t.detect_h
    → r.scale_w ≤ t.detect_w
    → t.detect_h < 2 ^ 31
    → t.detect_w < 2 ^ 31
    → pad_data t r
      ≡ pad_rows t r
          (margin t.detect_h r.scale_h)
          (margin t.detect_w r.scale_w)
          r.scale_h
          0
          (zeros (t.detect_w * t.detect_h * 4 % 2 ^ 32))
unfolding pad_data
pad_data_rows t r fits_h fits_w small_h small_w =
    let rows : ends_in_range t.detect_h r.scale_h ≡ true = lt→ltb _ (2 ^ 31) (omega arith) in
    let columns : ends_in_range t.detect_w r.scale_w ≡ true = lt→ltb _ (2 ^ 31) (omega arith) in
    rw (rows, columns) refl

-- `3 * w * h` bytes of a picture as wide as the detector's input, of `h` rows: `pad_data` copies every pixel, with a
-- zero byte behind it, into the middle rows, and leaves zeros above and below; all reads and writes are
-- within the blocks.
pub pad_data_letterbox :
    (t : Target) (r : RgbData2) (ps : List Pixel)
    → r.p_data ≡ packed ps
    → length ps ≡ r.scale_h * t.detect_w
    → r.scale_w ≡ t.detect_w
    → r.scale_h ≤ t.detect_h
    → t.detect_h < 2 ^ 31
    → t.detect_w < 2 ^ 31
    → t.detect_w * t.detect_h * 4 < 2 ^ 31
    → let top = (t.detect_h - r.scale_h) / 2 in
      pad_data t r
      ≡ copied (
          zeros (4 * (top * t.detect_w))
          ++ (padded ps ++ zeros (4 * ((t.detect_h - r.scale_h - top) * t.detect_w))))
unfolding pad_data
pad_data_letterbox t r ps same size wide fits small_h small_w small =
    let top = (t.detect_h - r.scale_h) / 2 in
    let under = t.detect_h - r.scale_h - top in
    let tall : t.detect_h ≡ top + (r.scale_h + under) = omega arith in
    let area : t.detect_w * t.detect_h ≡ top * t.detect_w + (length ps + under * t.detect_w) =
      ap (λ h. t.detect_w * h) tall
      ∙ times_three t.detect_w top r.scale_h under
      ∙ ap (λ l. top * t.detect_w + (l + under * t.detect_w)) (sym size) in
    let at_top : margin t.detect_h r.scale_h ≡ top = omega arith in
    let at_edge : margin t.detect_w r.scale_w ≡ 0 = omega arith in
    let block : t.detect_w * t.detect_h * 4 % 2 ^ 32
        ≡ 4 * (top * t.detect_w) + (4 * length ps + 4 * (under * t.detect_w)) =
      omega arith in
    pad_data_rows t r fits (omega arith) small_h small_w
    ∙ (λ k.
        pad_rows t r (at_top k) (margin t.detect_w r.scale_w) r.scale_h 0
          ((ap zeros block ∙ zeros-add (4 * (top * t.detect_w)) _) k))
    ∙ pad_rows_lem t r top (margin t.detect_w r.scale_w) r.scale_h 0 (4 * (under * t.detect_w)) []
        ps at_edge wide same (omega arith) size (omega arith)
