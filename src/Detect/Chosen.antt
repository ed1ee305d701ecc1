-- ===== src/Detect/Chosen.antt =====
-- `get_actual_detections` chooses the detections that have a class above the threshold.
use vcu.Prelude.{
  ℕ, suc, ◌≡◌, refl, sym, ap, inl, inr, Option, none, some, Option-cases, List, [], ◌∷◌, map,
}
use vcu.Prelude.{Bool, true, false, ◌||◌, Bool-cases, if◌then◌else◌, take, leb, length}
use vcu.Detect.Scored.{all, all-cons}
use vcu.Detect.{Floats, Detection, best_class, get_actual_detections}

module _ (fl : Floats) (thresh : fl.Float) where
  abbrev pub any_above : List fl.Float → Bool
  any_above [] = false
  any_above (p ∷ prob) = fl.lt thresh p || any_above prob

  -- The detections with a class above the threshold, in their order.
  abbrev pub above : List (Detection fl.Float) → List (Detection fl.Float)
  above [] = []
  above (d ∷ dets) = if any_above (take d.classes d.prob) then d ∷ above dets else above dets

  abbrev is_some : Option ℕ → Bool
  is_some none = false
  is_some (some c) = true

  stays_some :
      (b : ℕ) (p : fl.Float) (j : ℕ) (prob : List fl.Float)
      → is_some (best_class fl (some b) p j prob) ≡ true
  unfolding best_class
  stays_some b p j [] = refl
  stays_some b p j (q ∷ prob) = elim (Bool-cases (fl.lt p q)) [
    | inl better ↦ rw better (stays_some j q (suc j) prob)
    | inr worse ↦ rw worse (stays_some b p (suc j) prob)
  ]

  best_class-any_above :
      (j : ℕ) (prob : List fl.Float) → is_some (best_class fl none thresh j prob) ≡ any_above prob
  unfolding best_class
  best_class-any_above j [] = refl
  best_class-any_above j (q ∷ prob) = elim (Bool-cases (fl.lt thresh q)) [
    | inl better ↦ rw better (stays_some j q (suc j) prob)
    | inr worse ↦ rw worse (best_class-any_above (suc j) prob)
  ]

  -- Whether a detection has a probability for each of its classes
  abbrev pub has_all : Detection fl.Float → Bool
  has_all d = leb d.classes (length d.prob)

  -- Where every detection has a probability for each of its classes, `get_actual_detections` reads none
  -- behind them, and chooses exactly the detections of which one of the `classes` probabilities is above
  -- the threshold, each once and in their order.
  pub get_actual_detections-above :
      (dets : List (Detection fl.Float))
      → all has_all dets ≡ true
      → (results : List (Detection fl.Float × ℕ)) × (get_actual_detections fl thresh dets
          ≡ some results)
        × (map (λ c. c.0) results ≡ above dets)
  unfolding get_actual_detections
  get_actual_detections-above [] enough = ([], refl, refl)
  get_actual_detections-above (d ∷ dets) enough =
      let (first, rest) = all-cons has_all d dets enough in
      let (results, chosen, same) = get_actual_detections-above dets rest in
      let found = best_class-any_above 0 (take d.classes d.prob) in
      elim (Option-cases (best_class fl none thresh 0 (take d.classes d.prob))) [
        | inl absent ↦
            let below : any_above (take d.classes d.prob) ≡ false = sym (rw absent at found) in
            (results, rw (first, chosen, absent) refl, rw below same)
        | inr (c, best) ↦
            let over : any_above (take d.classes d.prob) ≡ true = sym (rw best at found) in
            ((d, c) ∷ results, rw (first, chosen, best) refl, rw over (ap (λ t. d ∷ t) same))
      ]
