-- ===== src/Picture/Tests.antt =====
-- A picture of two rows above and below which there is room, and one of a single column.
use vcu.Prelude.{ℕ, ◌*◌, ◌≡◌, refl, List, [], ◌∷◌, ◌++◌, arith}
use vcu.Prelude.Memory.{zeros}
use vcu.Picture.{Target, RgbData2, copied, bad_read, pad_data}
use vcu.Picture.Padded.{Pixel, packed, padded, pad_data_letterbox}
use vcu.Picture.Narrow.{pad_data_overruns}

abbrev four_rows : Target
four_rows = record { detect_h = 4; detect_w = 2 }

abbrev four : List Pixel
four = (1, 2, 3) ∷ (4, 5, 6) ∷ (7, 8, 9) ∷ (10, 11, 12) ∷ []

abbrev scaled : ℕ → List ℕ → RgbData2
scaled width bytes = record {
  p_data = bytes;
  len = width * 6;
  src_h = 4;
  src_w = 4;
  scale_h = 2;
  scale_w = width;
}

pad_data_letterbox_example :
    pad_data four_rows (scaled 2 (packed four)) ≡ copied (zeros 8 ++ (padded four ++ zeros 8))
pad_data_letterbox_example =
    pad_data_letterbox four_rows (scaled 2 (packed four)) four refl refl refl (omega arith)
      (omega arith) (omega arith) (omega arith)

pad_data_overruns_example : pad_data four_rows (scaled 1 (1 ∷ 2 ∷ 3 ∷ 4 ∷ 5 ∷ 6 ∷ [])) ≡ bad_read
pad_data_overruns_example =
    pad_data_overruns four_rows (scaled 1 (1 ∷ 2 ∷ 3 ∷ 4 ∷ 5 ∷ 6 ∷ [])) refl (omega arith)
      (omega arith) (omega arith) (omega arith) (omega arith) (omega arith) (omega arith)
