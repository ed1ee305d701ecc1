-- ===== src/Yolo/Sized.antt =====
-- The suppression keeps the number of detections and of their probabilities, and the choice keeps at most
-- as many detections.
use vcu.Prelude.{
  ℕ, zero, suc, ◌+◌, ◌-◌, ◌≤◌, ◌<◌, ◌≡◌, refl, sym, ap, ◌∙◌, inl, inr, Bool, true, Bool-cases,
  Option, none, some, Option-cases, List, [], ◌∷◌, ◌++◌, map, arith, ltb, leb, length,
  length-append, length-map, length-set, length-take, take, drop, take-append-drop, get_elem?, set,
}
use vcu.Detect.{
  Floats, Box, Detection, swapped, move_empty, set_sort_class, class_round, class_rounds,
  best_class, get_actual_detections, nms_sort,
}
use vcu.Detect.Objectness.{move_empty_lem}
use vcu.Detect.Scored.{
  all, has_score, has_classes, has_classes_lem, all-cons, all-append, all-take, all-drop, all-set,
  all-get_elem?, all-map,
}
use vcu.Detect.Greedy.{greedy, class_round-greedy, length-greedy, all-greedy}
use vcu.Yolo.Classes.{bind-some, some_inv}

module _ (fl : Floats) where
  -- As many detections, each with a probability for each of `n` classes
  abbrev pub Keeps : ℕ → List (Detection fl.Float) → List (Detection fl.Float) → Type 0
  Keeps n dets out = (length out ≡ length dets) × (all (has_classes fl n) out ≡ true)

  move_empty-Keeps :
      (c fuel i n : ℕ) (dets : List (Detection fl.Float)) (r : List (Detection fl.Float) × ℕ)
      → all (has_classes fl c) dets ≡ true
      → move_empty fl fuel i n dets ≡ some r
      → Keeps c dets r.0
  unfolding move_empty
  move_empty-Keeps c zero i n dets r v h = absurd (cc)
  move_empty-Keeps c (suc fuel) i n dets r v h = elim (Bool-cases (ltb i n)) [
    | inr done ↦
        let same : (dets, n) ≡ r = some_inv (rw done at h) in
        (
          ap (λ (q : List (Detection fl.Float) × ℕ). length q.0) (sym same),
          ap (λ (q : List (Detection fl.Float) × ℕ). all (has_classes fl c) q.0) (sym same) ∙ v,
        )
    | inl more ↦
        let (d, at_i, h') = bind-some (get_elem? dets i) _ (rw more at h) in
        let (e, at_n, h'') = bind-some (get_elem? dets (n - 1)) _ h' in
        elim (Bool-cases (fl.is_zero d.objectness)) [
          | inr full ↦ move_empty-Keeps c fuel (suc i) n dets r v (rw full at h'')
          | inl gone ↦
              let p = has_classes fl c in
              let v' =
                all-set p (n - 1) (set dets i e) d
                  (all-set p i dets e v (all-get_elem? p (n - 1) dets e v at_n))
                  (all-get_elem? p i dets d v at_i) in
              let (size, whole) =
                move_empty-Keeps c fuel i (n - 1) (swapped fl dets i (n - 1) d e) r v'
                  (rw gone at h'') in
              (size ∙ length-set (set dets i e) (n - 1) d ∙ length-set dets i e, whole)
        ]
  ]

  has_classes-has_score :
      (n k : ℕ) (d : Detection fl.Float)
      → k < n
      → has_classes fl n d ≡ true
      → has_score fl k d ≡ true
  has_classes-has_score n k d below h = let (_, len) = has_classes_lem fl n d h in ground arith

  -- `qsort` moves the elements of the array about: it keeps their number, and what holds of each of them.
  pub record IsSort (qsort : List (Detection fl.Float) → List (Detection fl.Float)) : Type 0 where
    pub count : (dets : List (Detection fl.Float)) → length (qsort dets) ≡ length dets
    pub members :
        (p : Detection fl.Float → Bool) (dets : List (Detection fl.Float))
        → all p dets ≡ true
        → all p (qsort dets) ≡ true

  all_scored :
      (n k : ℕ) (dets : List (Detection fl.Float))
      → k < n
      → all (has_classes fl n) dets ≡ true
      → all (has_score fl k) dets ≡ true
  all_scored n k [] below h = refl
  all_scored n k (d ∷ dets) below h =
      let (first, rest) = all-cons (has_classes fl n) d dets h in
      rw (has_classes-has_score n k d below first, all_scored n k dets below rest) refl

  module _ (qsort : List (Detection fl.Float) → List (Detection fl.Float)) (sorts : IsSort qsort)
      (hits : Box fl.Float → Box fl.Float → Bool) where
    class_round-Keeps :
        (n k : ℕ) (dets : List (Detection fl.Float))
        → k < n
        → all (has_classes fl n) dets ≡ true
        → (out : List (Detection fl.Float)) × (class_round fl qsort hits k dets ≡ some out)
          × Keeps n dets out
    class_round-Keeps n k dets below v =
        let p = has_classes fl n in
        let marked = map (set_sort_class fl k) dets in
        let whole = sorts.members p marked (all-map p p (set_sort_class fl k) dets (λ d h. h) v) in
        (
          greedy fl hits k [] (qsort marked),
          class_round-greedy fl hits k qsort dets (all_scored n k (qsort marked) below whole),
          (
            length-greedy fl hits k [] (qsort marked)
                ∙ sorts.count marked
                ∙ length-map dets (set_sort_class fl k),
            all-greedy fl hits k n [] (qsort marked) whole,
          ),
        )

    class_rounds-Keeps :
        (n m k : ℕ) (dets : List (Detection fl.Float))
        → k + m ≤ n
        → all (has_classes fl n) dets ≡ true
        → (out : List (Detection fl.Float)) × (class_rounds fl qsort hits m k dets ≡ some out)
          × Keeps n dets out
    unfolding class_rounds
    class_rounds-Keeps n zero k dets below v = (dets, refl, (refl, v))
    class_rounds-Keeps n (suc m) k dets below v =
        let (mid, one_round, (size, whole)) = class_round-Keeps n k dets (omega arith) v in
        let (out, others, (size', whole')) =
          class_rounds-Keeps n m (suc k) mid (omega arith) whole in
        (out, rw one_round others, (size' ∙ size, whole'))

    pub nms_sort-Keeps :
        (n : ℕ) (dets : List (Detection fl.Float))
        → all (has_classes fl n) dets ≡ true
        → (out : List (Detection fl.Float)) × (nms_sort fl qsort hits n dets ≡ some out)
          × Keeps n dets out
    unfolding nms_sort
    nms_sort-Keeps n dets v =
        let p = has_classes fl n in
        let (r, moved, parted) = move_empty_lem fl dets in
        let (size, whole) = move_empty-Keeps n (length dets + 1) 0 (length dets) dets r v moved in
        let (front, rounds, (size', whole')) =
          class_rounds-Keeps n n 0 (take r.1 r.0) (omega arith) (all-take p r.1 r.0 whole) in
        (
          front ++ drop r.1 r.0,
          rw (moved, rounds) refl,
          (
            length-append front (drop r.1 r.0)
                ∙ ap (λ c. c + length (drop r.1 r.0)) size'
                ∙ sym (length-append (take r.1 r.0) (drop r.1 r.0))
                ∙ ap length (take-append-drop r.1 r.0)
                ∙ size,
            all-append p front (drop r.1 r.0) whole' (all-drop p r.1 r.0 whole),
          ),
        )

  best_class-inside :
      (best : Option ℕ) (p : fl.Float) (j top : ℕ) (prob : List fl.Float)
      → ((c : ℕ) → best ≡ some c → c < top)
      → j + length prob ≤ top
      → (c : ℕ) → best_class fl best p j prob ≡ some c
      → c < top
  unfolding best_class
  best_class-inside best p j top [] below h c found = below c found
  best_class-inside best p j top (q ∷ prob) below h c found = elim (Bool-cases (fl.lt p q)) [
    | inl better ↦
        best_class-inside (some j) q (suc j) top prob (λ e same. omega (arith, some_inv same))
          (omega arith) c (rw better at found)
    | inr worse ↦
        best_class-inside best p (suc j) top prob below (omega arith) c (rw worse at found)
  ]

  -- The class of a chosen detection is one of its probabilities.
  abbrev pub Scored : List (Detection fl.Float × ℕ) → Type 0
  Scored [] = Unit
  Scored (r ∷ rs) = (r.1 < length r.0.prob) × Scored rs

  pub get_actual_detections-Scored :
      (n : ℕ) (thresh : fl.Float) (dets : List (Detection fl.Float))
      → all (has_classes fl n) dets ≡ true
      → (rs : List (Detection fl.Float × ℕ)) × (get_actual_detections fl thresh dets ≡ some rs)
        × Scored rs
        × (length rs ≤ length dets)
  unfolding get_actual_detections
  get_actual_detections-Scored n thresh [] v = ([], refl, tt, omega arith)
  get_actual_detections-Scored n thresh (d ∷ dets) v =
      let (first, whole) = all-cons (has_classes fl n) d dets v in
      let (classes, len) = has_classes_lem fl n d first in
      let enough : leb d.classes (length d.prob) ≡ true = ground arith in
      let (rs, chosen, scored, few) = get_actual_detections-Scored n thresh dets whole in
      let read = take d.classes d.prob in
      elim (Option-cases (best_class fl none thresh 0 read)) [
        | inl absent ↦ (rs, rw (enough, chosen, absent) refl, scored, omega arith)
        | inr (c, best) ↦ (
          (d, c) ∷ rs,
          rw (enough, chosen, best) refl,
          (
            best_class-inside none thresh 0 (length d.prob) read (λ e same. absurd (cc))
                (omega (arith, length-take d.classes d.prob)) c best,
            scored,
          ),
          omega arith,
        )
      ]
