-- ===== src/Jpeg/Contents.antt =====
-- What the segments of a file add to the three blocks.
use vcu.Prelude.{
  ℕ, ◌≤◌, ◌≡◌, refl, sym, ap, ◌∙◌, some, List, [], ◌∷◌, ◌++◌, append_assoc, append-nil, arith,
  length, length-append, drop_enough,
}
use vcu.Prelude.Memory.{store, zeros, store-append}
use vcu.Prelude.Outcome.{done}
use vcu.Jpeg.{le_bytes, start_head, first_codes, code_bytes}
use vcu.Jpeg.Markers.{Room, picked}
use vcu.Jpeg.Segments.{
  Segment, quant, huffman, frame, other, stepped_over, passed_over, bytes_of, effect, all_bytes,
  all_effects, all_rounds,
}

-- What a segment adds to the quantisation tables, to the code tables and to the head.
abbrev pub values_of : Segment → List ℕ
values_of (quant id values) = values
values_of (huffman id counts symbols) = []
values_of (frame precision cs) = []
values_of (other key body) = []

abbrev pub table_of : Segment → List ℕ
table_of (quant id values) = []
table_of (huffman id counts symbols) =
    (stepped_over (huffman id counts symbols) ++ symbols) ++ code_bytes (first_codes 0 counts)
table_of (frame precision cs) = []
table_of (other key body) = []

abbrev pub info_of : Segment → List ℕ
info_of (quant id values) = []
info_of (huffman id counts symbols) = []
info_of (frame precision cs) = 0 ∷ 2 ∷ 0x80 ∷ 2 ∷ picked cs
info_of (other key body) = []

abbrev pub each : (Segment → List ℕ) → List Segment → List ℕ
each f [] = []
each f (g ∷ gs) = f g ++ each f gs

effect_lem :
    (g : Segment) (r : Room)
    → ((effect g r).qt ≡ r.qt ++ values_of g)
      × ((effect g r).huff ≡ r.huff ++ table_of g)
      × ((effect g r).head ≡ r.head ++ info_of g)
effect_lem (quant id values) r = (refl, sym (append-nil _), sym (append-nil _))
effect_lem (huffman id counts symbols) r = (
  sym (append-nil _),
  append_assoc r.huff _ (code_bytes (first_codes 0 counts)),
  sym (append-nil _),
)
effect_lem (frame precision cs) r = (
  sym (append-nil _),
  sym (append-nil _),
  append_assoc r.head (0 ∷ 2 ∷ 0x80 ∷ 2 ∷ []) (picked cs),
)
effect_lem (other key body) r = (sym (append-nil _), sym (append-nil _), sym (append-nil _))

pub all_effects_lem :
    (gs : List Segment) (r : Room)
    → ((all_effects gs r).qt ≡ r.qt ++ each values_of gs)
      × ((all_effects gs r).huff ≡ r.huff ++ each table_of gs)
      × ((all_effects gs r).head ≡ r.head ++ each info_of gs)
all_effects_lem [] r = (sym (append-nil _), sym (append-nil _), sym (append-nil _))
all_effects_lem (g ∷ gs) r =
    let (q, h, d) = effect_lem g r in
    let (qs, hs, ds) = all_effects_lem gs (effect g r) in
    (
      qs ∙ ap (λ l. l ++ each values_of gs) q ∙ append_assoc r.qt _ _,
      hs ∙ ap (λ l. l ++ each table_of gs) h ∙ append_assoc r.huff _ _,
      ds ∙ ap (λ l. l ++ each info_of gs) d ∙ append_assoc r.head _ _,
    )

-- The head as it is set up: the addresses and sizes of the tables and the address of the data, the number of
-- its blocks, which is filled in at the end, and the rest.
abbrev pub addresses : List ℕ
addresses =
    le_bytes 4 0x3C000100
    ++ (le_bytes 3 0x08
        ++ (1 ∷ (le_bytes 4 0x3C000200 ++ (le_bytes 3 0x23 ++ (1 ∷ le_bytes 4 0x3C001500)))))

abbrev pub written_back : List ℕ
written_back = 1 ∷ 0 ∷ 0 ∷ 0 ∷ 0 ∷ 0 ∷ 0xF0 ∷ 0 ∷ 1 ∷ []

abbrev pub fresh : List ℕ → List ℕ → Room
fresh qt huff = record {
  head = addresses ++ (0 ∷ 0 ∷ 0 ∷ written_back);
  head_free = zeros 60 ++ (0xFF ∷ 0xFF ∷ 0xFF ∷ 0xFF ∷ []);
  qt = [];
  qt_free = qt;
  huff = [];
  huff_free = huff;
}

pub start_head_lem : start_head (zeros 96) ≡ done ((fresh [] []).head ++ (fresh [] []).head_free)
unfolding start_head store
start_head_lem = refl

pub cleared : (head : List ℕ) → length head ≡ 96 → store head 0 (zeros 96) ≡ some (zeros 96)
cleared head size =
    store-append [] head (zeros 96) 0 refl (omega (arith, size))
    ∙ ap (λ l. some (zeros 96 ++ l)) (drop_enough 96 head (omega (arith, size)))

pub rounds-le : (gs : List Segment) → all_rounds gs ≤ length (all_bytes gs)
rounds-le [] = omega arith
rounds-le (g ∷ gs) = omega (
  arith,
  rounds-le gs,
  length-append (bytes_of g) (all_bytes gs),
  length-append (stepped_over g) (passed_over g),
)
