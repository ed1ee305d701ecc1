-- ===== src/Jpeg/Endless.antt =====
-- A file with no start of the data.
use vcu.Prelude.{
  ℕ, zero, suc, ◌+◌, ◌-◌, ◌≤◌, ◌≡◌, refl, sym, ◌∙◌, none, List, [], ◌∷◌, ◌++◌, append-nil, arith,
  length, get_elem?, length-append,
}
use vcu.Prelude.Outcome.{overrun}
use vcu.Jpeg.{Tables, turn, scan, get_decode_table}
use vcu.Jpeg.Markers.{tables}
use vcu.Jpeg.Segments.{Segment, all_bytes, all_effects, all_rounds, AllSegments, segments_lem}
use vcu.Jpeg.Contents.{fresh, start_head_lem, cleared, rounds-le}
use vcu.Jpeg.Decoded.{file_segments}

get_elem?-beyond : (xs : List ℕ) (i : ℕ) → length xs ≤ i → get_elem? xs i ≡ none
get_elem?-beyond [] i h = refl
get_elem?-beyond (x ∷ xs) zero h = absurd (omega arith)
get_elem?-beyond (x ∷ xs) (suc i) h = get_elem?-beyond xs i (omega arith)

scan_beyond :
    (file : List ℕ) (m : ℕ) (s : Tables) → length file ≤ s.pos_tot → scan (suc m) file s ≡ overrun
unfolding scan turn
scan_beyond file m s h = rw (get_elem?-beyond file s.pos_tot h) refl

-- A file that has a start with plain application data and any segments as `get_decode_table_lem` has them,
-- and then ends: the loop counts its rounds and not the bytes that it has read, so each marker leaves a
-- round too many, and `getDecodeTable` reads behind the file.
pub get_decode_table-overruns :
    (head qt huff app : List ℕ) (gs : List Segment)
    → length head ≡ 96
    → AllSegments (file_segments app gs) (fresh qt huff)
    → get_decode_table head qt huff (all_bytes (file_segments app gs)) ≡ overrun
unfolding get_decode_table
get_decode_table-overruns head qt huff app gs size all =
    let segments = file_segments app gs in
    let file = all_bytes segments in
    let more : ℕ = length file - all_rounds segments - 1 in
    let enough : length file ≡ all_rounds segments + suc more =
      omega (arith, length-append app (all_bytes gs), rounds-le gs) in
    let whole : file ++ [] ≡ file = append-nil file in
    let scanned : scan (length file) file (tables 0 (fresh qt huff)) ≡ overrun =
      (λ k. scan (length file) (sym whole k) (tables 0 (fresh qt huff)))
      ∙ segments_lem segments [] [] _ (suc more) (fresh qt huff) all enough
      ∙ (λ k.
          scan (suc more) (whole k)
            (tables (0 + length file) (all_effects segments (fresh qt huff))))
      ∙ scan_beyond file more _ (omega arith) in
    rw (cleared head size, start_head_lem) scanned
