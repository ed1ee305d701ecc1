-- ===== src/Jpeg/Decoded.antt =====
-- A whole file: its start, the tables in any order, and the data.
use vcu.Prelude.{
  ℕ, suc, ◌+◌, ◌-◌, ◌/◌, ◌^◌, ◌≤◌, ◌<◌, ◌≡◌, refl, sym, ap, ◌∙◌, some, List, [], ◌∷◌, ◌++◌,
  append_assoc, arith, length, length-append, take, replicate,
}
use vcu.Prelude.Memory.{store, store-append, take-append-length}
use vcu.Prelude.Outcome.{done}
use vcu.Jpeg.{
  Tables, Reply, parsed, ends, le_bytes, missing, whole_blocks, data_start, marker, turn, scan,
  get_decode_table,
}
use vcu.Jpeg.Markers.{at_append, Room, tables, picked, Even}
use vcu.Jpeg.Segments.{
  Segment, other, all_bytes, all_effects, all_rounds, AllSegments, segments_lem,
}
use vcu.Jpeg.Ends.{NoEnd, start_bytes, filled, data_start_lem}
use vcu.Jpeg.Contents.{
  values_of, table_of, info_of, each, all_effects_lem, addresses, written_back, fresh,
  start_head_lem, cleared, rounds-le,
}

-- The round at the start of the data.
data_start_turn :
    (front post : List ℕ) (m : ℕ) (r : Room) (reply : Reply)
    → data_start
        ((front ++ (0xFF ∷ 0xDA ∷ [])) ++ post)
        (tables (length (front ++ (0xFF ∷ 0xDA ∷ []))) r)
      ≡ done (ends reply)
    → scan (suc m) (front ++ (0xFF ∷ 0xDA ∷ post)) (tables (length front) r) ≡ done reply
unfolding scan turn marker
data_start_turn front post m r reply handled =
    let ys = 0xFF ∷ 0xDA ∷ post in
    let mark = at_append front ys (length front) 0 (omega arith) in
    let kind = at_append front ys (length front + 1) 1 refl in
    let regroup : front ++ ys ≡ (front ++ (0xFF ∷ 0xDA ∷ [])) ++ post =
      sym (append_assoc front (0xFF ∷ 0xDA ∷ []) post) in
    let at : length front + 2 ≡ length (front ++ (0xFF ∷ 0xDA ∷ [])) =
      sym (length-append front (0xFF ∷ 0xDA ∷ [])) in
    let handled' : data_start (front ++ ys) (tables (length front + 2) r) ≡ done (ends reply) =
      (λ k. data_start (regroup k) (tables (at k) r)) ∙ handled in
    rw (mark, kind, handled') refl

-- The segments up to the start of the data
abbrev pub file_segments : List ℕ → List Segment → List Segment
file_segments app gs = other 0xD8 [] ∷ other 0xE0 app ∷ gs

abbrev pub file_bytes :
    List ℕ → List Segment → List (List ℕ × ℕ) → List ℕ → List ℕ → List ℕ → List ℕ
file_bytes app gs cs rest bytes tail =
    all_bytes (file_segments app gs)
    ++ (0xFF ∷ 0xDA ∷ (start_bytes cs rest ++ (bytes ++ (0xFF ∷ 0xD9 ∷ tail))))

-- The head that is left: the number of blocks of data in its place, and behind what was set up the picture's
-- size and the tables of its components.
abbrev pub final_head : ℕ → List ℕ → List ℕ
final_head blocks infos = addresses ++ (le_bytes 3 blocks ++ (written_back ++ infos))

scan_file :
    (qt huff app : List ℕ) (gs : List Segment) (cs : List (List ℕ × ℕ)) (rest bytes tail : List ℕ)
    → let r = all_effects (file_segments app gs) (fresh qt huff) in
      AllSegments (file_segments app gs) (fresh qt huff)
      → Even 1 cs
      → length rest ≡ 3
      → length cs < 2 ^ 14
      → NoEnd tail
      → length cs ≤ length r.head_free
      → missing (length r.huff) ≤ length r.huff_free
      → length r.huff + 16 < 2 ^ 16
      → (head : List ℕ)
      → let out = whole_blocks (bytes ++ (0xFF ∷ 0xD9 ∷ [])) in
        store ((filled r cs).head ++ (filled r cs).head_free) 20 (le_bytes 3 (length out / 16))
          ≡ some head
        → (pos : ℕ) × (scan
              (length (file_bytes app gs cs rest bytes tail))
              (file_bytes app gs cs rest bytes tail)
              (tables 0 (fresh qt huff))
            ≡ done (parsed (record (tables pos (filled r cs)) { head = head }) (some out)))
scan_file qt huff app gs cs rest bytes tail all even three few none_left room pad small head
      stored =
    let segments = file_segments app gs in
    let front = all_bytes segments in
    let post = start_bytes cs rest ++ (bytes ++ (0xFF ∷ 0xD9 ∷ tail)) in
    let more : ℕ = length (file_bytes app gs cs rest bytes tail) - all_rounds segments - 1 in
    let enough : length (file_bytes app gs cs rest bytes tail) ≡ all_rounds segments + suc more =
      omega (arith, rounds-le segments, length-append front (0xFF ∷ 0xDA ∷ post)) in
    let none_before : 0 + length front ≡ length front = omega arith in
    (
      length (front ++ (0xFF ∷ 0xDA ∷ [])) + length (start_bytes cs rest),
      segments_lem segments [] (0xFF ∷ 0xDA ∷ post) _ (suc more) (fresh qt huff) all enough
          ∙ (λ k.
              scan (suc more) (front ++ (0xFF ∷ 0xDA ∷ post))
                (tables (none_before k) (all_effects segments (fresh qt huff))))
          ∙ data_start_turn front post more (all_effects segments (fresh qt huff)) _ (
              data_start_lem (front ++ (0xFF ∷ 0xDA ∷ [])) bytes tail rest cs
                (all_effects segments (fresh qt huff)) head even three few none_left room pad small
                stored),
    )

-- The number of blocks goes to its place in the head.
final_head_lem :
    (blocks : ℕ) (infos free head : List ℕ)
    → head ≡ (fresh [] []).head ++ infos
    → store (head ++ free) 20 (le_bytes 3 blocks) ≡ some (final_head blocks infos ++ free)
final_head_lem blocks infos free head same =
    ap (λ l. store (l ++ free) 20 (le_bytes 3 blocks)) same
    ∙ store-append addresses (0 ∷ 0 ∷ 0 ∷ (written_back ++ (infos ++ free))) (le_bytes 3 blocks) 20
        refl (omega arith)

-- A file of a start with plain application data, of segments in any order (quantisation tables, tables of
-- codes, frames of 640 x 512, others) in which no byte that the loop looks through is 0xFF, of the start of
-- the data, of any data, and of the end marker with nothing behind it that holds a 0xD9, where the three
-- blocks have room: `getDecodeTable` accepts it, however the tables are ordered. The block of the
-- quantisation tables begins with their values, that of the codes with each table's segment and first codes,
-- filled up with 0xFF, and the head with its set-up, the number of blocks of data, and the sizes and table
-- numbers; the data up to the end marker is given back, filled up with 0xFF to blocks of 16 bytes.
pub get_decode_table_lem :
    (head qt huff app : List ℕ) (gs : List Segment) (cs : List (List ℕ × ℕ))
    (rest bytes tail : List ℕ)
    → let r = all_effects (file_segments app gs) (fresh qt huff) in
      length head ≡ 96
      → AllSegments (file_segments app gs) (fresh qt huff)
      → Even 1 cs
      → length rest ≡ 3
      → length cs < 2 ^ 14
      → NoEnd tail
      → length cs ≤ length r.head_free
      → missing (length r.huff) ≤ length r.huff_free
      → length r.huff + 16 < 2 ^ 16
      → let out = whole_blocks (bytes ++ (0xFF ∷ 0xD9 ∷ [])) in
        (s : Tables) × (get_decode_table head qt huff (file_bytes app gs cs rest bytes tail)
          ≡ done (parsed s (some out)))
        × (take s.pos_qt s.qt ≡ each values_of gs)
        × (take s.pos_huff s.huff
            ≡ each table_of gs ++ replicate (missing (length (each table_of gs))) 0xFF)
        × (take s.pos_head s.head ≡ final_head (length out / 16) (each info_of gs ++ picked cs))
unfolding get_decode_table
get_decode_table_lem head qt huff app gs cs rest bytes tail size all even three few none_left room
      pad small =
    let r = all_effects (file_segments app gs) (fresh qt huff) in
    let out = whole_blocks (bytes ++ (0xFF ∷ 0xD9 ∷ [])) in
    let (values, codes, infos) = all_effects_lem (file_segments app gs) (fresh qt huff) in
    let block =
      final_head (length out / 16) (each info_of gs ++ picked cs) ++ (filled r cs).head_free in
    let headed : (filled r cs).head ≡ (fresh [] []).head ++ (each info_of gs ++ picked cs) =
      ap (λ l. l ++ picked cs) infos
      ∙ append_assoc (fresh qt huff).head (each info_of gs) (picked cs) in
    let stored =
      final_head_lem (length out / 16) (each info_of gs ++ picked cs) (filled r cs).head_free
        (filled r cs).head headed in
    let (pos, scanned) =
      scan_file qt huff app gs cs rest bytes tail all even three few none_left room pad small block
        stored in
    (
      record (tables pos (filled r cs)) { head = block },
      rw (cleared head size, start_head_lem) scanned,
      take-append-length _ r.qt r.qt_free refl ∙ values,
      take-append-length _ (filled r cs).huff _ refl
          ∙ (λ k. codes k ++ replicate (missing (length (codes k))) 0xFF),
      take-append-length _ (final_head (length out / 16) (each info_of gs ++ picked cs)) _
          (ap length headed),
    )
