-- ===== src/Detect/Greedy.antt =====
-- The suppression in place against its specification: no kept box is hit by an earlier kept one, and a
-- box is dropped only because of an earlier kept one.
use vcu.Prelude.{ℕ, zero, suc, ◌≤◌, ◌≡◌, refl, sym, ap, ◌∙◌, inl, inr, List, [], ◌∷◌, map}
use vcu.Prelude.{
  Bool, true, false, ◌&&◌, ◌||◌, not, Bool-cases, some, ◌<◌, get_elem?, length-set, if◌then◌else◌,
  arith, length, get_or, set,
}
use vcu.Detect.Scored.{all, has_score, has_classes, all-cons, all-map}
use vcu.Detect.{
  Floats, Box, Detection, score, clear_score, clear_hit, clear_hits, suppress, class_round,
  set_sort_class,
}

module _ (fl : Floats) (hits : Box fl.Float → Box fl.Float → Bool) (k : ℕ) where
  -- The score where there is one, and the detection with it cleared
  abbrev score_of : Detection fl.Float → fl.Float
  score_of d = get_or d.prob k fl.zero_float

  abbrev cleared : Detection fl.Float → Detection fl.Float
  cleared d = record d { prob = set d.prob k fl.zero_float }

  abbrev pub kept : Detection fl.Float → Bool
  kept d = not (fl.is_zero (score_of d))

  -- One pass from the front: a detection's score is cleared when a kept one before it hits it.
  abbrev pub hit_by : List (Detection fl.Float) → Detection fl.Float → Bool
  hit_by [] d = false
  hit_by (a ∷ before) d = hits a.bbox d.bbox || hit_by before d

  abbrev pub decided : List (Detection fl.Float) → Detection fl.Float → Detection fl.Float
  decided before d = if hit_by before d then cleared d else d

  unfoldable pub greedy :
      List (Detection fl.Float) → List (Detection fl.Float) → List (Detection fl.Float)
  greedy before [] = []
  greedy before (d ∷ dets) =
      let d' = decided before d in d' ∷ greedy (if kept d' then d' ∷ before else before) dets

  get_elem?-get_or :
      (p : List fl.Float) (i : ℕ) → i < length p → get_elem? p i ≡ some (get_or p i fl.zero_float)
  get_elem?-get_or [] i h = absurd (omega arith)
  get_elem?-get_or (x ∷ p) zero h = refl
  get_elem?-get_or (x ∷ p) (suc i) h = get_elem?-get_or p i (omega arith)

  clear_twice :
      (p : List fl.Float) (i : ℕ)
      → set (set p i fl.zero_float) i fl.zero_float ≡ set p i fl.zero_float
  clear_twice [] i = refl
  clear_twice (x ∷ p) zero = refl
  clear_twice (x ∷ p) (suc i) = ap (λ t. x ∷ t) (clear_twice p i)

  map-map :
      (f g h : Detection fl.Float → Detection fl.Float) (dets : List (Detection fl.Float))
      → ((d : Detection fl.Float) → g (f d) ≡ h d)
      → map g (map f dets) ≡ map h dets
  map-map f g h [] e = refl
  map-map f g h (d ∷ dets) e = rw (e d, map-map f g h dets e) refl

  abbrev cleared_hit : Box fl.Float → Detection fl.Float → Detection fl.Float
  cleared_hit a d = if hits a d.bbox then cleared d else d

  -- Clearing for one more kept detection is clearing for all of them.
  decide_more :
      (before : List (Detection fl.Float)) (a d : Detection fl.Float)
      → cleared_hit a.bbox (decided before d) ≡ decided (a ∷ before) d
  decide_more before a d = elim (Bool-cases (hit_by before d)) [
    | inl old ↦ elim (Bool-cases (hits a.bbox d.bbox)) [
      | inl new ↦ rw (old, new, clear_twice d.prob k) refl
      | inr miss ↦ rw (old, miss) refl
    ]
    | inr none_before ↦ elim (Bool-cases (hits a.bbox d.bbox)) [
      | inl new ↦ rw (none_before, new) refl
      | inr miss ↦ rw (none_before, miss) refl
    ]
  ]

  clear_hits_lem :
      (a : Box fl.Float) (dets : List (Detection fl.Float))
      → all (has_score fl k) dets ≡ true
      → clear_hits fl hits k a dets ≡ some (map (cleared_hit a) dets)
  unfolding clear_hits clear_hit clear_score
  clear_hits_lem a [] h = refl
  clear_hits_lem a (d ∷ dets) h =
      let (first, rest) = all-cons (has_score fl k) d dets h in
      elim (Bool-cases (hits a d.bbox)) [
        | inl hit ↦ rw (hit, first, clear_hits_lem a dets rest) refl
        | inr miss ↦ rw (miss, clear_hits_lem a dets rest) refl
      ]

  score_lem : (d : Detection fl.Float) → has_score fl k d ≡ true → score fl k d ≡ some (score_of d)
  score_lem d h = get_elem?-get_or d.prob k (ground arith)

  decided-has_score :
      (before : List (Detection fl.Float)) (d : Detection fl.Float)
      → has_score fl k d ≡ true
      → has_score fl k (decided before d) ≡ true
  decided-has_score before d h = elim (Bool-cases (hit_by before d)) [
    | inl hit ↦ rw (hit, length-set d.prob k fl.zero_float) h
    | inr miss ↦ rw miss h
  ]

  suppress-decided :
      (n : ℕ) (before dets : List (Detection fl.Float))
      → length dets ≤ n
      → all (has_score fl k) dets ≡ true
      → suppress fl hits k n (map (decided before) dets) ≡ some (greedy before dets)
  unfolding suppress greedy
  suppress-decided zero before [] h scored = refl
  suppress-decided zero before (d ∷ dets) h scored = absurd (omega arith)
  suppress-decided (suc n) before [] h scored = refl
  suppress-decided (suc n) before (d ∷ dets) h scored =
      let (first, rest) = all-cons (has_score fl k) d dets scored in
      let read = score_lem (decided before d) (decided-has_score before d first) in
      elim (Bool-cases (fl.is_zero (score_of (decided before d)))) [
        | inl dropped ↦ rw (read, dropped, suppress-decided n before dets (omega arith) rest) refl
        | inr stays ↦
            let there =
              all-map (has_score fl k) (has_score fl k) (decided before) dets
                (decided-has_score before) rest in
            let more : map (cleared_hit (decided before d).bbox) (map (decided before) dets)
                ≡ map (decided (decided before d ∷ before)) dets =
              map-map _ _ _ dets (decide_more before (decided before d)) in
            rw
              (
                read,
                stays,
                clear_hits_lem (decided before d).bbox (map (decided before) dets) there,
                more,
                suppress-decided n (decided before d ∷ before) dets (omega arith) rest,
              )
              refl
      ]

  pub length-greedy :
      (before dets : List (Detection fl.Float)) → length (greedy before dets) ≡ length dets
  unfolding greedy
  length-greedy before [] = refl
  length-greedy before (d ∷ dets) =
      ap suc
        (length-greedy (if kept (decided before d) then decided before d ∷ before else before) dets)

  decided-has_classes :
      (n : ℕ) (before : List (Detection fl.Float)) (d : Detection fl.Float)
      → has_classes fl n d ≡ true
      → has_classes fl n (decided before d) ≡ true
  decided-has_classes n before d h = elim (Bool-cases (hit_by before d)) [
    | inl hit ↦ rw (hit, length-set d.prob k fl.zero_float) h
    | inr miss ↦ rw miss h
  ]

  pub all-greedy :
      (n : ℕ) (before dets : List (Detection fl.Float))
      → all (has_classes fl n) dets ≡ true
      → all (has_classes fl n) (greedy before dets) ≡ true
  unfolding greedy
  all-greedy n before [] h = refl
  all-greedy n before (d ∷ dets) h =
      let (first, rest) = all-cons (has_classes fl n) d dets h in
      rw (decided-has_classes n before d first) (
        all-greedy n (if kept (decided before d) then decided before d ∷ before else before) dets
          rest)

  decided_nothing : (dets : List (Detection fl.Float)) → map (decided []) dets ≡ dets
  decided_nothing [] = refl
  decided_nothing (d ∷ dets) = rw (decided_nothing dets) refl

  suppress-greedy :
      (dets : List (Detection fl.Float))
      → all (has_score fl k) dets ≡ true
      → suppress fl hits k (length dets) dets ≡ some (greedy [] dets)
  suppress-greedy dets scored =
      ap (suppress fl hits k (length dets)) (sym (decided_nothing dets))
      ∙ suppress-decided (length dets) [] dets (omega arith) scored

  -- Where every detection that `qsort` leaves has a probability for the class, the round of a class in
  -- `do_nms_sort` and `diounms_sort`, which clears scores in place behind each kept detection, reads and
  -- writes no probability outside its array, and gives on the list as `qsort` leaves it what one pass from
  -- the front gives that clears a score exactly when a detection kept before hits its box.
  pub class_round-greedy :
      (qsort : List (Detection fl.Float) → List (Detection fl.Float))
      (dets : List (Detection fl.Float))
      → all (has_score fl k) (qsort (map (set_sort_class fl k) dets)) ≡ true
      → class_round fl qsort hits k dets ≡ some (greedy [] (qsort (map (set_sort_class fl k) dets)))
  unfolding class_round
  class_round-greedy qsort dets scored =
      suppress-greedy (qsort (map (set_sort_class fl k) dets)) scored

  -- Whether no kept detection of a list is hit by a kept one before it.
  unfoldable pub apart : List (Detection fl.Float) → List (Detection fl.Float) → Bool
  apart before [] = true
  apart before (d ∷ dets) =
      (not (kept d) || not (hit_by before d)) && apart (if kept d then d ∷ before else before) dets

  cleared_zero :
      fl.is_zero fl.zero_float ≡ true
      → (p : List fl.Float) (i : ℕ)
      → fl.is_zero (get_or (set p i fl.zero_float) i fl.zero_float) ≡ true
  cleared_zero z [] i = z
  cleared_zero z (x ∷ p) zero = z
  cleared_zero z (x ∷ p) (suc i) = cleared_zero z p i

  greedy-apart :
      fl.is_zero fl.zero_float ≡ true
      → (before dets : List (Detection fl.Float)) → apart before (greedy before dets) ≡ true
  unfolding greedy apart
  greedy-apart z before [] = refl
  greedy-apart z before (d ∷ dets) = elim (Bool-cases (hit_by before d)) [
    | inl hit ↦ rw (hit, cleared_zero z d.prob k) (greedy-apart z before dets)
    | inr miss ↦ elim (Bool-cases (fl.is_zero (score_of d))) [
      | inl dropped ↦ rw (miss, dropped) (greedy-apart z before dets)
      | inr stays ↦ rw (miss, stays, miss) (greedy-apart z (d ∷ before) dets)
    ]
  ]

  -- Where 0 tests as 0 and every detection that `qsort` leaves has a probability for the class, the
  -- round of a class gives a list in which no detection that keeps a score for the class is hit by one
  -- before it that keeps its score, whatever order `qsort` leaves.
  pub class_round-apart :
      fl.is_zero fl.zero_float ≡ true
      → (qsort : List (Detection fl.Float) → List (Detection fl.Float))
        (dets : List (Detection fl.Float))
      → all (has_score fl k) (qsort (map (set_sort_class fl k) dets)) ≡ true
      → (out : List (Detection fl.Float)) × (class_round fl qsort hits k dets ≡ some out)
        × (apart [] out ≡ true)
  class_round-apart z qsort dets scored =
      (greedy [] _, class_round-greedy qsort dets scored, greedy-apart z [] _)
