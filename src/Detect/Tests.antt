-- ===== src/Detect/Tests.antt =====
-- The suppression on a few boxes, with natural numbers for `float`.
use vcu.Prelude.{
  some, ℕ, ◌+◌, ◌-◌, ◌*◌, ◌/◌, ◌^◌, ◌≡◌, refl, List, [], ◌∷◌, map, min, true, ltb, ◌==◌,
  if◌then◌else◌,
}
use vcu.Detect.{
  move_empty, Floats, Detection, class_round, get_actual_detections, hits_default, box_iou,
  box_intersection, box_union, overlap, hits_kind, greedy_nms,
}
use vcu.Detect.Greedy.{greedy, apart, class_round-greedy, class_round-apart}
use vcu.Detect.Objectness.{Parted, move_empty_lem}
use vcu.Detect.Chosen.{get_actual_detections-above}

abbrev pub naturals : Floats
naturals = record {
  Float = ℕ;
  zero_float = 0;
  add = λ a b. a + b;
  sub = λ a b. a - b;
  mul = λ a b. a * b;
  div = λ a b. a / b;
  half = λ a. a / 2;
  power = λ a b. a ^ b;
  fmin = λ a b. min a b;
  fmax = λ a b. if ltb a b then b else a;
  lt = ltb;
  is_zero = λ a. a == 0;
}

abbrev found : ℕ → ℕ → Detection ℕ
found x p = record {
  bbox = record { x = x; y = 50; w = 20; h = 20 };
  classes = 1;
  prob = p ∷ [];
  objectness = 9;
  sort_class = 0;
}

-- Two boxes in the same place and one beside them.
abbrev three : List (Detection ℕ)
three = found 50 9 ∷ found 50 8 ∷ found 90 7 ∷ []

class_round-greedy_example :
    class_round naturals (λ dets. dets) (hits_kind naturals greedy_nms 0 1) 0 three
    ≡ some (found 50 9 ∷ found 50 0 ∷ found 90 7 ∷ [])
unfolding greedy hits_kind box_iou box_intersection box_union overlap
class_round-greedy_example =
    class_round-greedy naturals (hits_kind naturals greedy_nms 0 1) 0 (λ dets. dets) three refl

class_round-apart_example :
    (out : List (Detection ℕ)) × (class_round naturals
        (λ dets. dets)
        (hits_default naturals 0)
        0
        three
      ≡ some out)
    × (apart naturals (hits_default naturals 0) 0 [] out ≡ true)
class_round-apart_example =
    class_round-apart naturals (hits_default naturals 0) 0 refl (λ dets. dets) three refl

get_actual_detections-above_example :
    (results : List (Detection ℕ × ℕ)) × (get_actual_detections naturals 7 three ≡ some results)
    × (map (λ c. c.0) results ≡ found 50 9 ∷ found 50 8 ∷ [])
get_actual_detections-above_example = get_actual_detections-above naturals 7 three refl

abbrev silent : Detection ℕ
silent = record (found 10 0) { objectness = 0 }

move_empty_lem_example :
    (r : List (Detection ℕ) × ℕ) × (move_empty naturals 4 0 3
        (silent ∷ found 50 9 ∷ found 90 7 ∷ [])
      ≡ some r)
    × Parted naturals (silent ∷ found 50 9 ∷ found 90 7 ∷ []) r
move_empty_lem_example = move_empty_lem naturals (silent ∷ found 50 9 ∷ found 90 7 ∷ [])
