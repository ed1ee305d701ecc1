-- ===== src/Jpeg/Segments.antt =====
-- The loop on the segments in front of the data.
use vcu.Prelude.{
  ℕ, suc, ◌+◌, ◌-◌, ◌*◌, ◌/◌, ◌%◌, ◌^◌, ◌≤◌, ◌<◌, ◌≡◌, refl, sym, ap, ◌∙◌, false, List, [], ◌∷◌,
  ◌++◌, append_assoc, arith, length, length-append, ◌==◌,
}
use vcu.Prelude.Outcome.{done}
use vcu.RtpModel.{be16, be16_bytes}
use vcu.Jpeg.{goes_on, img_info, scan, marker, quantify, table}
use vcu.Jpeg.Markers.{
  Room, tables, grow_qt, quantify_lem, table_bytes, with_table, table_lem, parts, Even,
}
use vcu.Jpeg.Rounds.{with_frame, img_info_lem, IsPlain, after_marker}

-- The segments of a file in front of the data.
pub data Segment : Type 0 where
  quant : ℕ → List ℕ → Segment
  huffman : ℕ → List ℕ → List ℕ → Segment
  frame : ℕ → List (List ℕ × ℕ) → Segment
  other : ℕ → List ℕ → Segment

-- The bytes of a segment: the marker, what its handler steps over, and the rest.
abbrev pub key_of : Segment → ℕ
key_of (quant id values) = 0xDB
key_of (huffman id counts symbols) = 0xC4
key_of (frame precision cs) = 0xC0
key_of (other key body) = key

abbrev pub stepped_over : Segment → List ℕ
stepped_over (quant id values) = be16_bytes (3 + length values) (id ∷ [])
stepped_over (huffman id counts symbols) = be16_bytes (19 + length symbols) (id ∷ counts)
stepped_over (frame precision cs) = []
stepped_over (other key body) = []

abbrev pub passed_over : Segment → List ℕ
passed_over (quant id values) = values
passed_over (huffman id counts symbols) = symbols
passed_over (frame precision cs) =
    be16_bytes (8 + 3 * length cs) (precision ∷ 2 ∷ 0 ∷ 2 ∷ 0x80 ∷ length cs ∷ parts cs)
passed_over (other key body) = body

abbrev pub bytes_of : Segment → List ℕ
bytes_of g = 0xFF ∷ key_of g ∷ (stepped_over g ++ passed_over g)

-- What a segment must be like: in what the loop looks through there is no 0xFF.
abbrev pub IsSegment : Segment → Type 0
IsSegment (quant id values) = (length values < 2 ^ 16 - 3) × IsPlain values
IsSegment (huffman id counts symbols) =
    (length counts ≡ 16) × (length symbols < 2 ^ 16 - 19) × IsPlain symbols
IsSegment (frame precision cs) = Even 2 cs × IsPlain (passed_over (frame precision cs))
IsSegment (other key body) =
    ((key == 0xDB) ≡ false)
    × ((key == 0xC0) ≡ false)
    × ((key == 0xC4) ≡ false)
    × ((key == 0xDA) ≡ false)
    × IsPlain body

-- What it adds to the blocks, and the room that it needs there.
abbrev pub effect : Segment → Room → Room
effect (quant id values) r = grow_qt values r
effect (huffman id counts symbols) r =
    with_table (stepped_over (huffman id counts symbols) ++ symbols) counts r
effect (frame precision cs) r = with_frame cs r
effect (other key body) r = r

abbrev pub Fits : Segment → Room → Type 0
Fits (quant id values) r = length values ≤ length r.qt_free
Fits (huffman id counts symbols) r =
    (51 + length symbols ≤ length r.huff_free) × (length r.huff + 51 + length symbols < 2 ^ 16)
Fits (frame precision cs) r = 4 + length cs ≤ length r.head_free
Fits (other key body) r = Unit

be16_of : (n : ℕ) → n < 2 ^ 16 → be16 (n / 256 % 256) (n % 256) ≡ n
be16_of n h = omega arith

-- The bytes of a marker belong to what stands in front.
behind :
    (front : List ℕ) (key : ℕ) (ys : List ℕ)
    → (front ++ (0xFF ∷ key ∷ ys) ≡ (front ++ (0xFF ∷ key ∷ [])) ++ ys)
      × (length front + 2 ≡ length (front ++ (0xFF ∷ key ∷ [])))
behind front key ys =
    (sym (append_assoc front (0xFF ∷ key ∷ []) ys), sym (length-append front (0xFF ∷ key ∷ [])))

marker_lem :
    (g : Segment) (front post : List ℕ) (r : Room)
    → IsSegment g
    → Fits g r
    → marker
        (front ++ (0xFF ∷ key_of g ∷ (stepped_over g ++ (passed_over g ++ post))))
        (key_of g)
        (tables (length front + 2) r)
      ≡ done (goes_on (tables (length front + 2 + length (stepped_over g)) (effect g r)))
unfolding marker
marker_lem (quant id values) front post r (size, plain) fits =
    let (regroup, at) = behind front 0xDB (stepped_over (quant id values) ++ (values ++ post)) in
    (λ k. quantify (regroup k) (tables (at k) r))
    ∙ quantify_lem (front ++ (0xFF ∷ 0xDB ∷ [])) values post _ _ id r
        (be16_of (3 + length values) (omega arith)) fits
    ∙ (λ k. done (goes_on (tables (sym at k + 3) (grow_qt values r))))
marker_lem (huffman id counts symbols) front post r (sixteen, size, plain) (fits, small) =
    let n = 19 + length symbols in
    let bytes = table_bytes (n / 256 % 256) (n % 256) id counts symbols in
    let (regroup, at) = behind front 0xC4 (bytes ++ post) in
    let split : front
          ++ (0xFF ∷ 0xC4 ∷ (stepped_over (huffman id counts symbols) ++ (symbols ++ post)))
        ≡ front ++ (0xFF ∷ 0xC4 ∷ (bytes ++ post)) =
      ap (λ l. front ++ (0xFF ∷ 0xC4 ∷ n / 256 % 256 ∷ n % 256 ∷ id ∷ l))
        (sym (append_assoc counts symbols post)) in
    let end : length (front ++ (0xFF ∷ 0xC4 ∷ [])) + 19
        ≡ length front + 2 + suc (suc (suc (length counts))) =
      omega (arith, at, sixteen) in
    (λ k. table ((split ∙ regroup) k) (tables (at k) r))
    ∙ table_lem (front ++ (0xFF ∷ 0xC4 ∷ [])) counts symbols post _ _ id r (be16_of n (omega arith))
        sixteen fits small
    ∙ (λ k. done (goes_on (tables (end k) (with_table bytes counts r))))
marker_lem (frame precision cs) front post r (even, plain) fits =
    let n = 8 + 3 * length cs in
    let (regroup, at) = behind front 0xC0 (passed_over (frame precision cs) ++ post) in
    let end : length (front ++ (0xFF ∷ 0xC0 ∷ [])) ≡ length front + 2 + 0 = omega (arith, at) in
    (λ k. img_info (regroup k) (tables (at k) r))
    ∙ img_info_lem (front ++ (0xFF ∷ 0xC0 ∷ [])) post (n / 256 % 256) (n % 256) precision cs r even
        fits
    ∙ (λ k. done (goes_on (tables (end k) (with_frame cs r))))
marker_lem (other key body) front post r (no_db, no_c0, no_c4, no_da, plain) fits =
    let end : length front + 2 ≡ length front + 2 + 0 = omega arith in
    rw (no_db, no_c0, no_c4, no_da) (λ k. done (goes_on (tables (end k) r)))

-- The rounds that the loop takes over a segment
abbrev pub rounds : Segment → ℕ
rounds g = suc (length (passed_over g))

passed_over-IsPlain : (g : Segment) → IsSegment g → IsPlain (passed_over g)
passed_over-IsPlain (quant id values) h = h.1
passed_over-IsPlain (huffman id counts symbols) h = h.2
passed_over-IsPlain (frame precision cs) h = h.1
passed_over-IsPlain (other key body) h = h.4

pub segment_lem :
    (g : Segment) (front post : List ℕ) (m n : ℕ) (r : Room)
    → IsSegment g
    → Fits g r
    → m ≡ rounds g + n
    → scan m (front ++ (bytes_of g ++ post)) (tables (length front) r)
      ≡ scan n
          (front ++ (bytes_of g ++ post))
          (tables (length front + length (bytes_of g)) (effect g r))
segment_lem g front post m n r is fits e =
    let regroup : front ++ (bytes_of g ++ post)
        ≡ front ++ (0xFF ∷ key_of g ∷ (stepped_over g ++ (passed_over g ++ post))) =
      ap (λ l. front ++ (0xFF ∷ key_of g ∷ l))
        (append_assoc (stepped_over g) (passed_over g) post) in
    let end : length front + 2 + length (stepped_over g) + length (passed_over g)
        ≡ length front + length (bytes_of g) =
      omega (arith, length-append (stepped_over g) (passed_over g)) in
    (λ k. scan m (regroup k) (tables (length front) r))
    ∙ after_marker front (stepped_over g) (passed_over g) post (key_of g) m n r (effect g r)
        (marker_lem g front post r is fits) (passed_over-IsPlain g is) (omega arith)
    ∙ (λ k. scan n (sym regroup k) (tables (end k) (effect g r)))

-- Segment after segment
abbrev pub all_bytes : List Segment → List ℕ
all_bytes [] = []
all_bytes (g ∷ gs) = bytes_of g ++ all_bytes gs

abbrev pub all_effects : List Segment → Room → Room
all_effects [] r = r
all_effects (g ∷ gs) r = all_effects gs (effect g r)

abbrev pub all_rounds : List Segment → ℕ
all_rounds [] = 0
all_rounds (g ∷ gs) = rounds g + all_rounds gs

abbrev pub AllSegments : List Segment → Room → Type 0
AllSegments [] r = Unit
AllSegments (g ∷ gs) r = IsSegment g × Fits g r × AllSegments gs (effect g r)

pub segments_lem :
    (gs : List Segment) (front post : List ℕ) (m n : ℕ) (r : Room)
    → AllSegments gs r
    → m ≡ all_rounds gs + n
    → scan m (front ++ (all_bytes gs ++ post)) (tables (length front) r)
      ≡ scan n
          (front ++ (all_bytes gs ++ post))
          (tables (length front + length (all_bytes gs)) (all_effects gs r))
segments_lem [] front post m n r all e =
    let e' : m ≡ n = omega arith in
    let e'' : length front ≡ length front + 0 = omega arith in
    (λ k. scan (e' k) (front ++ post) (tables (e'' k) r))
segments_lem (g ∷ gs) front post m n r (is, fits, all) e =
    let regroup : front ++ ((bytes_of g ++ all_bytes gs) ++ post)
        ≡ front ++ (bytes_of g ++ (all_bytes gs ++ post)) =
      ap (λ l. front ++ l) (append_assoc (bytes_of g) (all_bytes gs) post) in
    let passed = front ++ bytes_of g in
    let regroup' : front ++ (bytes_of g ++ (all_bytes gs ++ post))
        ≡ passed ++ (all_bytes gs ++ post) =
      sym (append_assoc front (bytes_of g) (all_bytes gs ++ post)) in
    let at : length front + length (bytes_of g) ≡ length passed =
      sym (length-append front (bytes_of g)) in
    let end : length passed + length (all_bytes gs)
        ≡ length front + length (bytes_of g ++ all_bytes gs) =
      omega (arith, at, length-append (bytes_of g) (all_bytes gs)) in
    (λ k. scan m (regroup k) (tables (length front) r))
    ∙ segment_lem g front (all_bytes gs ++ post) m (all_rounds gs + n) r is fits (omega arith)
    ∙ (λ k. scan (all_rounds gs + n) (regroup' k) (tables (at k) (effect g r)))
    ∙ segments_lem gs passed post (all_rounds gs + n) n (effect g r) all refl
    ∙ (λ k. scan n (sym (regroup ∙ regroup') k) (tables (end k) (all_effects (g ∷ gs) r)))
