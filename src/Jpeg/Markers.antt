-- ===== src/Jpeg/Markers.antt =====
-- What the `switch` does behind each marker, where the bytes of the segment follow.
use vcu.Prelude.{
  ℕ, zero, suc, ◌+◌, ◌-◌, ◌*◌, ◌%◌, ◌^◌, ◌≤◌, ◌<◌, ◌≡◌, refl, sym, ap, ◌∙◌, false, some, List, [],
  ◌∷◌, ◌++◌, append_assoc, arith, length, length-append, length-drop, append-nil, get_elem?, drop,
  ltb, if◌then◌else◌, none,
}
use vcu.Prelude.Memory.{load, store, load-append, store-append}
use vcu.Prelude.Outcome.{done}
use vcu.RtpModel.{be16}
use vcu.Jpeg.{
  Tables, goes_on, get_data_length, quantify, copy_every, first_codes, code_bytes, table,
}

pub at_append :
    (front ys : List ℕ) (i k : ℕ)
    → i ≡ length front + k
    → get_elem? (front ++ ys) i ≡ get_elem? ys k
at_append [] ys i k e = let e' : i ≡ k = omega arith in rw e' refl
at_append (x ∷ front) ys zero k e = absurd (omega arith)
at_append (x ∷ front) ys (suc i) k e = at_append front ys i k (omega arith)

-- The three blocks, each with what has been written and what is free.
pub record Room : Type 0 where
  pub head : List ℕ
  pub head_free : List ℕ
  pub qt : List ℕ
  pub qt_free : List ℕ
  pub huff : List ℕ
  pub huff_free : List ℕ

abbrev pub tables : ℕ → Room → Tables
tables pos r = record {
  pos_tot = pos;
  head = r.head ++ r.head_free;
  pos_head = length r.head;
  qt = r.qt ++ r.qt_free;
  pos_qt = length r.qt;
  huff = r.huff ++ r.huff_free;
  pos_huff = length r.huff;
  huff_length = length r.huff;
}

-- More bytes in a block
abbrev pub grow_qt : List ℕ → Room → Room
grow_qt bytes r = record r { qt = r.qt ++ bytes; qt_free = drop (length bytes) r.qt_free }

abbrev pub grow_huff : List ℕ → Room → Room
grow_huff bytes r = record r { huff = r.huff ++ bytes; huff_free = drop (length bytes) r.huff_free }

abbrev pub grow_head : List ℕ → Room → Room
grow_head bytes r = record r { head = r.head ++ bytes; head_free = drop (length bytes) r.head_free }

pub get_data_length_lem :
    (file : List ℕ) (i a b : ℕ)
    → get_elem? file i ≡ some a
    → get_elem? file (i + 1) ≡ some b
    → get_data_length file i ≡ done (be16 a b)
unfolding get_data_length
get_data_length_lem file i a b ha hb = rw (ha, hb) refl

not_below : (n : ℕ) → ltb (3 + n) 3 ≡ false
not_below n = ground arith

-- A store behind what has been written
pub store_more :
    (front free bytes : List ℕ)
    → length bytes ≤ length free
    → store (front ++ free) (length front) bytes
      ≡ some ((front ++ bytes) ++ drop (length bytes) free)
store_more front free bytes h =
    store-append front free bytes (length front) refl h ∙ ap some (sym (append_assoc front bytes _))

pub quantify_lem :
    (front values post : List ℕ) (hi lo id : ℕ) (r : Room)
    → be16 hi lo ≡ 3 + length values
    → length values ≤ length r.qt_free
    → quantify (front ++ (hi ∷ lo ∷ id ∷ (values ++ post))) (tables (length front) r)
      ≡ done (goes_on (tables (length front + 3) (grow_qt values r)))
unfolding quantify
quantify_lem front values post hi lo id r size fits =
    let ys = hi ∷ lo ∷ id ∷ (values ++ post) in
    let i = length front in
    let len =
      get_data_length_lem (front ++ ys) i hi lo (at_append front ys i 0 (omega arith))
        (at_append front ys (i + 1) 1 refl)
      ∙ ap done size in
    let loaded : (if ltb (3 + length values) 3
          then none
          else load (front ++ ys) (i + 3) (3 + length values - 3))
        ≡ some values =
      rw (not_below (length values)) (
        ap (λ l. load l (i + 3) (3 + length values - 3))
          (sym (append_assoc front (hi ∷ lo ∷ id ∷ []) (values ++ post)))
        ∙ load-append (front ++ (hi ∷ lo ∷ id ∷ [])) values post _ _
            (omega (arith, length-append front (hi ∷ lo ∷ id ∷ []))) (omega arith)) in
    let end : length r.qt + (3 + length values - 3) ≡ length (r.qt ++ values) =
      omega (arith, length-append r.qt values) in
    rw (len, loaded, store_more r.qt r.qt_free values fits, end) refl

length-first_codes :
    (value : ℕ) (counts : List ℕ) → length (first_codes value counts) ≡ length counts
unfolding first_codes
length-first_codes value [] = refl
length-first_codes value (c ∷ cs) =
    ap suc (length-first_codes ((value + (if ltb c 128 then c else 0)) % 2 ^ 16 * 2 % 2 ^ 16) cs)

length-code_bytes : (vs : List ℕ) → length (code_bytes vs) ≡ 2 * length vs
unfolding code_bytes
length-code_bytes [] = omega arith
length-code_bytes (v ∷ vs) = omega (arith, length-code_bytes vs)

-- What a table of codes adds: its segment, and the first code of each length.
abbrev pub table_bytes : ℕ → ℕ → ℕ → List ℕ → List ℕ → List ℕ
table_bytes hi lo id counts symbols = hi ∷ lo ∷ id ∷ (counts ++ symbols)

abbrev pub with_table : List ℕ → List ℕ → Room → Room
with_table bytes counts r = grow_huff (code_bytes (first_codes 0 counts)) (grow_huff bytes r)

pub table_lem :
    (front counts symbols post : List ℕ) (hi lo id : ℕ) (r : Room)
    → be16 hi lo ≡ 19 + length symbols
    → length counts ≡ 16
    → 51 + length symbols ≤ length r.huff_free
    → length r.huff + 51 + length symbols < 2 ^ 16
    → table (front ++ (table_bytes hi lo id counts symbols ++ post)) (tables (length front) r)
      ≡ done (
          goes_on (
            tables (length front + 19) (with_table (table_bytes hi lo id counts symbols) counts r)))
unfolding table
table_lem front counts symbols post hi lo id r size sixteen fits small =
    let bytes = table_bytes hi lo id counts symbols in
    let codes = code_bytes (first_codes 0 counts) in
    let file = front ++ (bytes ++ post) in
    let i = length front in
    let size_bytes : length bytes ≡ 19 + length symbols =
      omega (arith, length-append counts symbols) in
    let size_codes : length codes ≡ 32 =
      omega (arith, length-code_bytes (first_codes 0 counts), length-first_codes 0 counts) in
    let len =
      get_data_length_lem file i hi lo (at_append front (bytes ++ post) i 0 (omega arith))
        (at_append front (bytes ++ post) (i + 1) 1 refl)
      ∙ ap done (size ∙ sym size_bytes) in
    let loaded = load-append front bytes post i (length bytes) refl refl in
    let counted : load file (i + 3) 16 ≡ some counts =
      ap (λ l. load l (i + 3) 16)
        (ap (λ l. front ++ (hi ∷ lo ∷ id ∷ l)) (append_assoc counts symbols post)
          ∙ sym (append_assoc front (hi ∷ lo ∷ id ∷ []) (counts ++ (symbols ++ post))))
      ∙ load-append (front ++ (hi ∷ lo ∷ id ∷ [])) counts (symbols ++ post) _ _
          (omega (arith, length-append front (hi ∷ lo ∷ id ∷ []))) (sym sixteen) in
    let at_codes : length r.huff + length bytes ≡ length (r.huff ++ bytes) =
      sym (length-append r.huff bytes) in
    let room : length codes ≤ length (drop (length bytes) r.huff_free) =
      omega (arith, size_codes, size_bytes, length-drop (length bytes) r.huff_free) in
    let end : length (r.huff ++ bytes) + 32 ≡ length ((r.huff ++ bytes) ++ codes) =
      omega (arith, size_codes, length-append (r.huff ++ bytes) codes) in
    let total : (length (r.huff ++ bytes) % 2 ^ 16 + 32) % 2 ^ 16
        ≡ length ((r.huff ++ bytes) ++ codes) =
      omega (arith, end, at_codes, size_bytes) in
    rw
      (
        len,
        loaded,
        store_more r.huff r.huff_free bytes (omega (arith, size_bytes)),
        counted,
        at_codes,
        store_more (r.huff ++ bytes) (drop (length bytes) r.huff_free) codes room,
        total,
        end,
      )
      refl

-- The bytes of the components in a segment, and the last byte of each.
abbrev pub parts : List (List ℕ × ℕ) → List ℕ
parts [] = []
parts ((front, x) ∷ cs) = front ++ (x ∷ parts cs)

abbrev pub picked : List (List ℕ × ℕ) → List ℕ
picked [] = []
picked ((front, x) ∷ cs) = x ∷ picked cs

-- Each has as many bytes.
abbrev pub Even : ℕ → List (List ℕ × ℕ) → Type 0
Even k [] = Unit
Even k ((front, x) ∷ cs) = (length front ≡ k) × Even k cs

pub copy_every_lem :
    (k from to : ℕ) (cs : List (List ℕ × ℕ)) (front post written free : List ℕ)
    → Even k cs
    → from + 1 ≡ length front
    → to ≡ length written
    → length cs ≤ length free
    → copy_every (suc k) (front ++ (parts cs ++ post)) (length cs) from to (written ++ free)
      ≡ done ((written ++ picked cs) ++ drop (length cs) free)
unfolding copy_every
copy_every_lem k from to [] front post written free even at written_at fits =
    ap (λ l. done (l ++ free)) (sym (append-nil written))
copy_every_lem k from to ((p, x) ∷ cs) front post written [] even at written_at fits =
    absurd (omega arith)
copy_every_lem k from to ((p, x) ∷ cs) front post written (f ∷ free) (size, even) at written_at
      fits =
    let file = front ++ (parts ((p, x) ∷ cs) ++ post) in
    let found : get_elem? file (from + suc k) ≡ some x =
      at_append front (parts ((p, x) ∷ cs) ++ post) (from + suc k) k (omega arith)
      ∙ ap (λ l. get_elem? l k) (append_assoc p (x ∷ parts cs) post)
      ∙ at_append p (x ∷ (parts cs ++ post)) k 0 (omega (arith, size)) in
    let moved : file ≡ (front ++ (p ++ (x ∷ []))) ++ (parts cs ++ post) = simp append_assoc in
    let stored : store (written ++ (f ∷ free)) to (x ∷ []) ≡ some ((written ++ (x ∷ [])) ++ free) =
      store-append written (f ∷ free) (x ∷ []) to written_at (omega arith)
      ∙ ap some (sym (append_assoc written (x ∷ []) free)) in
    let later =
      copy_every_lem k (from + suc k) (to + 1) cs (front ++ (p ++ (x ∷ []))) post
        (written ++ (x ∷ [])) free even
        (omega (arith, size, at, length-append front (p ++ (x ∷ [])), length-append p (x ∷ [])))
        (omega (arith, written_at, length-append written (x ∷ []))) (omega arith) in
    rw (found, stored)
      (ap
          (λ l.
            copy_every (suc k) l (length cs) (from + suc k) (to + 1)
              ((written ++ (x ∷ [])) ++ free))
          moved
        ∙ later
        ∙ ap (λ l. done (l ++ drop (length cs) free)) (append_assoc written (x ∷ []) (picked cs)))
