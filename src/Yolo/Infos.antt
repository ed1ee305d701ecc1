-- ===== src/Yolo/Infos.antt =====
-- `NetDetect::getDetectBoxInfo`: from the network's output to the boxes in the picture. `to_int` is the
-- conversion to `int`, of which the language says nothing where the number does not fit one.
use vcu.Prelude.{
  ℕ, zero, suc, Bool, true, false, Option, none, some, List, [], ◌∷◌, ltb, get_elem?, if◌then◌else◌,
  ℤ, pos, negsuc,
}
use vcu.Prelude.Memory.{◌>>=◌}
use vcu.Detect.{
  Floats, NmsKind, default_nms, Box, Detection, hits_default, hits_kind, get_actual_detections,
  nms_sort,
}
use vcu.Yolo.{NetDetect, make_network_boxes, fill_network_boxes}

pub record BoxInfo2 (F : Type 0) : Type 0 where
  pub left : ℤ
  pub top : ℤ
  pub right : ℤ
  pub bottom : ℤ
  pub class_no : ℕ
  pub score : F

-- What `boxArr` is allocated for
abbrev pub arr_size : ℕ
arr_size = 100

abbrev pub less : ℤ → ℤ → Bool
less (pos a) (pos b) = ltb a b
less (pos a) (negsuc b) = false
less (negsuc a) (pos b) = true
less (negsuc a) (negsuc b) = ltb b a

-- `src - 1`
abbrev pub last_of : ℕ → ℤ
last_of zero = negsuc 0
last_of (suc n) = pos n

-- `if (v < 0) v = 0;`, `if (v > limit) v = limit;`
unfoldable pub at_least_zero : ℤ → ℤ
at_least_zero v = if less v (pos 0) then pos 0 else v

unfoldable pub at_most : ℤ → ℤ → ℤ
at_most limit v = if less limit v then limit else v

-- The suppression that `nmsType` names
unfoldable pub hits_of :
    (fl : Floats) → NmsKind → fl.Float → fl.Float → Box fl.Float → Box fl.Float → Bool
hits_of fl kind iou beta = elim kind [
  | default_nms ↦ hits_default fl iou
  | other ↦ hits_kind fl other iou beta
]

module _ (fl : Floats) (of_nat : ℕ → fl.Float) (to_int : fl.Float → ℤ) where
  -- What is written of a detection with its best class and that class's probability
  unfoldable pub limited : ℕ → ℕ → Detection fl.Float → ℕ → fl.Float → BoxInfo2 fl.Float
  limited src_w src_h d c s =
      let b = d.bbox in
      record {
        left = at_least_zero (to_int (fl.mul (fl.sub b.x (fl.half b.w)) (of_nat src_w)));
        top = at_least_zero (to_int (fl.mul (fl.sub b.y (fl.half b.h)) (of_nat src_h)));
        right = at_most (last_of src_w) (to_int (fl.mul (fl.add b.x (fl.half b.w)) (of_nat src_w)));
        bottom =
            at_most (last_of src_h) (to_int (fl.mul (fl.add b.y (fl.half b.h)) (of_nat src_h)));
        class_no = c;
        score = s;
      }

  -- One round of the last loop
  unfoldable pub box_info : ℕ → ℕ → Detection fl.Float × ℕ → Option (BoxInfo2 fl.Float)
  box_info src_w src_h (d, c) = do s ← get_elem? d.prob c; some (limited src_w src_h d c s)

  -- The loop, from `i` on: outside `boxArr` there is nothing to write to.
  unfoldable pub write_infos :
      ℕ → ℕ → ℕ → List (Detection fl.Float × ℕ) → Option (List (BoxInfo2 fl.Float))
  write_infos src_w src_h i [] = some []
  write_infos src_w src_h i (r ∷ rs) =
      if ltb i arr_size
      then (do
        info ← box_info src_w src_h r
        infos ← write_infos src_w src_h (suc i) rs
        some (info ∷ infos))
      else none

  unfoldable pub get_detect_box_info :
      fl.Float
      → (List (Detection fl.Float) → List (Detection fl.Float))
      → NetDetect
      → NmsKind
      → fl.Float
      → fl.Float
      → fl.Float
      → List fl.Float
      → ℕ
      → ℕ
      → Option (List (BoxInfo2 fl.Float))
  get_detect_box_info one qsort d kind thresh iou beta input src_w src_h = do
    num ← make_network_boxes fl of_nat one d input thresh
    dets ← fill_network_boxes fl of_nat one d input src_w src_h thresh num
    kept ← nms_sort fl qsort (hits_of fl kind iou beta) d.class_num dets
    chosen ← get_actual_detections fl thresh kept
    write_infos src_w src_h 0 chosen
