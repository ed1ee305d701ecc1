-- ===== src/Jpeg/Tests.antt =====
-- A small file: a quantisation table, a table of two codes, a frame of one component, and four bytes of data.
use vcu.Prelude.{
  ℕ, ◌+◌, ◌*◌, ◌^◌, ◌≤◌, ◌≡◌, refl, some, List, [], ◌∷◌, ◌++◌, arith, length, take, replicate,
}
use vcu.Prelude.Memory.{zeros}
use vcu.Prelude.Outcome.{done, overrun}
use vcu.Jpeg.{Tables, parsed, missing, get_decode_table, first_codes, code_bytes}
use vcu.Jpeg.Segments.{Segment, quant, huffman, frame, all_bytes, AllSegments}
use vcu.Jpeg.Contents.{table_of, info_of, each, fresh}
use vcu.Jpeg.Decoded.{file_segments, file_bytes, final_head, get_decode_table_lem}
use vcu.Jpeg.Endless.{get_decode_table-overruns}
use vcu.Jpeg.Codes.{first_codes-prefix_free}

-- A code of two bits and one of three
abbrev two_codes : List ℕ
two_codes = 0 ∷ 1 ∷ 1 ∷ zeros 13

abbrev segments : List Segment
segments =
    quant 0 (16 ∷ 11 ∷ [])
    ∷ huffman 0 two_codes (4 ∷ 5 ∷ [])
    ∷ frame 8 ((1 ∷ 0x22 ∷ [], 0) ∷ [])
    ∷ []

segments-AllSegments :
    AllSegments (file_segments (0 ∷ 2 ∷ []) segments) (fresh (zeros 4) (zeros 64))
segments-AllSegments = ground arith

get_decode_table_lem_example :
    (s : Tables) × (get_decode_table (zeros 96) (zeros 4) (zeros 64) (
        file_bytes
          (0 ∷ 2 ∷ [])
          segments
          ((1 ∷ [], 0) ∷ [])
          (0 ∷ 63 ∷ 0 ∷ [])
          (10 ∷ 0xFF ∷ 0 ∷ 20 ∷ [])
          [])
      ≡ done (parsed s (some (10 ∷ 0xFF ∷ 0 ∷ 20 ∷ 0xFF ∷ 0xD9 ∷ replicate 10 0xFF))))
    × (take s.pos_qt s.qt ≡ 16 ∷ 11 ∷ [])
    × (take s.pos_huff s.huff
        ≡ each table_of segments ++ replicate (missing (length (each table_of segments))) 0xFF)
    × (take s.pos_head s.head ≡ final_head 1 (each info_of segments ++ (0 ∷ [])))
unfolding first_codes code_bytes
get_decode_table_lem_example =
    get_decode_table_lem (zeros 96) (zeros 4) (zeros 64) (0 ∷ 2 ∷ []) segments ((1 ∷ [], 0) ∷ [])
      (0 ∷ 63 ∷ 0 ∷ []) (10 ∷ 0xFF ∷ 0 ∷ 20 ∷ []) [] refl segments-AllSegments (omega arith) refl
      (omega arith) tt (omega arith) (omega arith) (omega arith)

get_decode_table-overruns_example :
    get_decode_table
      (zeros 96)
      (zeros 4)
      (zeros 64)
      (all_bytes (file_segments (0 ∷ 2 ∷ []) segments))
    ≡ overrun
get_decode_table-overruns_example =
    get_decode_table-overruns (zeros 96) (zeros 4) (zeros 64) (0 ∷ 2 ∷ []) segments refl
      segments-AllSegments

first_codes-prefix_free_example : (0 + 1) * 2 ^ 1 ≤ 2
unfolding first_codes
first_codes-prefix_free_example =
    first_codes-prefix_free two_codes 1 0 2 1 1 0 2 refl (omega arith) (omega arith) refl refl
      (omega arith) (omega arith) refl refl
