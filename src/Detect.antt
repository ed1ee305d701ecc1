-- ===== src/Detect.antt =====
-- src/yoloDetect.h, src/yoloDetect.cpp: how the boxes that the network proposes are thinned out and
-- the detections chosen. `float` is an abstract type with the operations that the code uses; `qsort`,
-- whose order of equal elements C leaves open, is an argument.
pub mod Scored
pub mod Greedy
pub mod Objectness
pub mod Chosen
pub mod Tests
use vcu.Prelude.{ℕ, zero, suc, ◌+◌, ◌-◌, ◌<◌, Option, none, some, List, [], ◌∷◌, ◌++◌, map}
use vcu.Prelude.{
  ◌-◌, ltb, drop, length, get_elem?, ◌++◌, Bool, true, false, ◌&&◌, ◌||◌, ltb, if◌then◌else◌,
  length, take, drop, get_elem?, set, leb,
}
use vcu.Prelude.Memory.{◌>>=◌}

pub record Floats : Type 1 where
  pub Float : Type 0
  pub zero_float : Float
  pub add : Float → Float → Float
  pub sub : Float → Float → Float
  pub mul : Float → Float → Float
  pub div : Float → Float → Float
  pub half : Float → Float
  pub power : Float → Float → Float
  pub fmin : Float → Float → Float
  pub fmax : Float → Float → Float
  pub lt : Float → Float → Bool
  pub is_zero : Float → Bool

pub data NmsKind : Type 0 where
  default_nms greedy_nms diou_nms corners_nms : NmsKind

pub record Box (F : Type 0) : Type 0 where
  pub x : F
  pub y : F
  pub w : F
  pub h : F

-- The fields of `detection` that the code uses.
pub record Detection (F : Type 0) : Type 0 where
  pub bbox : Box F
  pub classes : ℕ
  pub prob : List F
  pub objectness : F
  pub sort_class : ℕ

module _ (fl : Floats) where
  unfoldable pub overlap : fl.Float → fl.Float → fl.Float → fl.Float → fl.Float
  overlap x1 w1 x2 w2 =
      let l1 = fl.sub x1 (fl.half w1) in
      let l2 = fl.sub x2 (fl.half w2) in
      let left = if fl.lt l2 l1 then l1 else l2 in
      let r1 = fl.add x1 (fl.half w1) in
      let r2 = fl.add x2 (fl.half w2) in
      let right = if fl.lt r1 r2 then r1 else r2 in fl.sub right left

  unfoldable pub box_intersection : Box fl.Float → Box fl.Float → fl.Float
  box_intersection a b =
      let w = overlap a.x a.w b.x b.w in
      let h = overlap a.y a.h b.y b.h in
      if fl.lt w fl.zero_float || fl.lt h fl.zero_float then fl.zero_float else fl.mul w h

  unfoldable pub box_union : Box fl.Float → Box fl.Float → fl.Float
  box_union a b = fl.sub (fl.add (fl.mul a.w a.h) (fl.mul b.w b.h)) (box_intersection a b)

  unfoldable pub box_iou : Box fl.Float → Box fl.Float → fl.Float
  box_iou a b =
      if fl.is_zero (box_intersection a b) || fl.is_zero (box_union a b)
      then fl.zero_float
      else fl.div (box_intersection a b) (box_union a b)

  -- `box_c` and `box_diounms`
  unfoldable pub box_diounms : Box fl.Float → Box fl.Float → fl.Float → fl.Float
  box_diounms a b beta =
      let top = fl.fmin (fl.sub a.y (fl.half a.h)) (fl.sub b.y (fl.half b.h)) in
      let bot = fl.fmax (fl.add a.y (fl.half a.h)) (fl.add b.y (fl.half b.h)) in
      let left = fl.fmin (fl.sub a.x (fl.half a.w)) (fl.sub b.x (fl.half b.w)) in
      let right = fl.fmax (fl.add a.x (fl.half a.w)) (fl.add b.x (fl.half b.w)) in
      let w = fl.sub right left in
      let h = fl.sub bot top in
      let c = fl.add (fl.mul w w) (fl.mul h h) in
      let dx = fl.sub a.x b.x in
      let dy = fl.sub a.y b.y in
      let d = fl.add (fl.mul dx dx) (fl.mul dy dy) in
      if fl.is_zero c then box_iou a b else fl.sub (box_iou a b) (fl.power (fl.div d c) beta)

  -- Whether a kept box suppresses a later one, in `do_nms_sort` and in `diounms_sort`.
  unfoldable pub hits_default : fl.Float → Box fl.Float → Box fl.Float → Bool
  hits_default thresh a b = fl.lt thresh (box_iou a b)

  unfoldable pub hits_kind : NmsKind → fl.Float → fl.Float → Box fl.Float → Box fl.Float → Bool
  hits_kind default_nms thresh beta a b = false
  hits_kind greedy_nms thresh beta a b = fl.lt thresh (box_iou a b)
  hits_kind diou_nms thresh beta a b = fl.lt thresh (box_diounms a b beta)
  hits_kind corners_nms thresh beta a b = false

  abbrev pub swapped :
      List (Detection fl.Float)
      → ℕ
      → ℕ
      → Detection fl.Float
      → Detection fl.Float
      → List (Detection fl.Float)
  swapped dets i k d e = set (set dets i e) k d

  -- The loop that moves the detections with no objectness behind the others; `n` stands for `k + 1`,
  -- and `none` is an index outside the array or a round too many.
  unfoldable pub move_empty :
      ℕ → ℕ → ℕ → List (Detection fl.Float) → Option (List (Detection fl.Float) × ℕ)
  move_empty zero i n dets = none
  move_empty (suc fuel) i n dets =
      if ltb i n
      then (do
        d ← get_elem? dets i
        e ← get_elem? dets (n - 1)
        (let empty = fl.is_zero d.objectness in
            move_empty fuel (if empty then i else suc i) (if empty then n - 1 else n)
              (if empty then swapped dets i (n - 1) d e else dets)))
      else some (dets, n)

  -- `dets[i].prob[k]`, and `dets[j].prob[k] = 0`; `none` is an index outside the probabilities.
  abbrev pub score : ℕ → Detection fl.Float → Option fl.Float
  score k d = get_elem? d.prob k

  unfoldable pub clear_score : ℕ → Detection fl.Float → Option (Detection fl.Float)
  clear_score k d =
      if ltb k (length d.prob) then some (record d { prob = set d.prob k fl.zero_float }) else none

  -- One round of the loop on `j`.
  unfoldable pub clear_hit :
      (Box fl.Float → Box fl.Float → Bool)
      → ℕ
      → Box fl.Float
      → Detection fl.Float
      → Option (Detection fl.Float)
  clear_hit hits k a d = if hits a d.bbox then clear_score k d else some d

  -- The loop on `j`
  unfoldable pub clear_hits :
      (Box fl.Float → Box fl.Float → Bool)
      → ℕ
      → Box fl.Float
      → List (Detection fl.Float)
      → Option (List (Detection fl.Float))
  clear_hits hits k a [] = some []
  clear_hits hits k a (d ∷ dets) =
      let rest = clear_hits hits k a dets in
      clear_hit hits k a d >>= λ d'. rest >>= λ others. some (d' ∷ others)

  -- The loop on `i`, with a round for each detection.
  unfoldable pub suppress :
      (Box fl.Float → Box fl.Float → Bool)
      → ℕ
      → ℕ
      → List (Detection fl.Float)
      → Option (List (Detection fl.Float))
  suppress hits k zero dets = some dets
  suppress hits k (suc n) [] = some []
  suppress hits k (suc n) (d ∷ dets) =
      let rest = λ (later : List (Detection fl.Float)). suppress hits k n later in
      score k d >>= λ p.
      (if fl.is_zero p then some dets else clear_hits hits k d.bbox dets) >>= λ later.
      rest later >>= λ others. some (d ∷ others)

  abbrev pub set_sort_class : ℕ → Detection fl.Float → Detection fl.Float
  set_sort_class k d = record d { sort_class = k }

  -- The loop on the class `k`.
  unfoldable pub class_round :
      (List (Detection fl.Float) → List (Detection fl.Float))
      → (Box fl.Float → Box fl.Float → Bool)
      → ℕ
      → List (Detection fl.Float)
      → Option (List (Detection fl.Float))
  class_round qsort hits k dets =
      let sorted = qsort (map (set_sort_class k) dets) in suppress hits k (length sorted) sorted

  unfoldable pub class_rounds :
      (List (Detection fl.Float) → List (Detection fl.Float))
      → (Box fl.Float → Box fl.Float → Bool)
      → ℕ
      → ℕ
      → List (Detection fl.Float)
      → Option (List (Detection fl.Float))
  class_rounds qsort hits zero k dets = some dets
  class_rounds qsort hits (suc m) k dets =
      let rest = λ (left : List (Detection fl.Float)). class_rounds qsort hits m (suc k) left in
      class_round qsort hits k dets >>= rest

  -- The best class so far and its probability, over the classes from `j` on.
  unfoldable pub best_class : Option ℕ → fl.Float → ℕ → List fl.Float → Option ℕ
  best_class best best_prob j [] = best
  best_class best best_prob j (p ∷ prob) =
      if fl.lt best_prob p
      then best_class (some j) p (suc j) prob
      else best_class best best_prob (suc j) prob

  -- The copy to `result_arr`, for a detection with a class above the threshold.
  abbrev pub add_result :
      Detection fl.Float → Option ℕ → List (Detection fl.Float × ℕ) → List (Detection fl.Float × ℕ)
  add_result d none results = results
  add_result d (some c) results = (d, c) ∷ results

  -- `prob[j]` for every `j < classes`; `none` is a read behind the probabilities.
  abbrev pub probs_of : Detection fl.Float → Option (List fl.Float)
  probs_of d = if leb d.classes (length d.prob) then some (take d.classes d.prob) else none

  -- `get_actual_detections`
  unfoldable pub get_actual_detections :
      fl.Float → List (Detection fl.Float) → Option (List (Detection fl.Float × ℕ))
  get_actual_detections thresh [] = some []
  get_actual_detections thresh (d ∷ dets) =
      let rest = get_actual_detections thresh dets in
      probs_of d >>= λ probs.
      rest >>= λ results. some (add_result d (best_class none thresh 0 probs) results)

  -- `do_nms_sort` with `hits_default`, `diounms_sort` with `hits_kind`, on all of the array
  unfoldable pub nms_sort :
      (List (Detection fl.Float) → List (Detection fl.Float))
      → (Box fl.Float → Box fl.Float → Bool)
      → ℕ
      → List (Detection fl.Float)
      → Option (List (Detection fl.Float))
  nms_sort qsort hits class_num dets = do
    moved ← move_empty (length dets + 1) 0 (length dets) dets
    front ← class_rounds qsort hits class_num 0 (take moved.1 moved.0)
    some (front ++ drop moved.1 moved.0)
