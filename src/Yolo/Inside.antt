-- ===== src/Yolo/Inside.antt =====
-- The boxes that are reported, within `boxArr` and within the picture.
use vcu.Prelude.{
  ℕ, suc, ◌+◌, ◌≤◌, ◌≡◌, refl, inl, inr, true, false, Bool-cases, some, List, [], ◌∷◌, arith, ltb,
  lt→ltb, length, ℤ, pos, negsuc,
}
use vcu.Detect.{Floats, NmsKind, Detection}
use vcu.Yolo.{NetDetect}
use vcu.Yolo.Counted.{AreLayers, get_elem?-inside}
use vcu.Yolo.Filled.{IsPicture, network_boxes-filled}
use vcu.Yolo.Classes.{fill_network_boxes-classes}
use vcu.Yolo.Sized.{IsSort, nms_sort-Keeps, Scored, get_actual_detections-Scored}
use vcu.Yolo.Infos.{
  BoxInfo2, arr_size, less, last_of, limited, at_least_zero, at_most, box_info, write_infos,
  hits_of, get_detect_box_info,
}

-- Neither left of nor above the picture, and neither right of it nor below it, each at the edge
-- that the source limits
abbrev pub IsInside : {F : Type 0} → ℕ → ℕ → BoxInfo2 F → Type 0
IsInside src_w src_h b =
    (less b.left (pos 0) ≡ false)
    × (less b.top (pos 0) ≡ false)
    × (less (last_of src_w) b.right ≡ false)
    × (less (last_of src_h) b.bottom ≡ false)

abbrev pub AreInside : {F : Type 0} → ℕ → ℕ → List (BoxInfo2 F) → Type 0
AreInside src_w src_h [] = Unit
AreInside src_w src_h (b ∷ bs) = IsInside src_w src_h b × AreInside src_w src_h bs

less_irrefl : (v : ℤ) → less v v ≡ false
less_irrefl (pos n) = ground arith
less_irrefl (negsuc n) = ground arith

at_least_zero_lem : (v : ℤ) → less (at_least_zero v) (pos 0) ≡ false
unfolding at_least_zero
at_least_zero_lem v = elim (Bool-cases (less v (pos 0))) [
  | inl low ↦ rw low refl
  | inr high ↦ rw high high
]

at_most_lem : (limit v : ℤ) → less limit (at_most limit v) ≡ false
unfolding at_most
at_most_lem limit v = elim (Bool-cases (less limit v)) [
  | inl over ↦ rw over (less_irrefl limit)
  | inr within ↦ rw within within
]

module _ (fl : Floats) (of_nat : ℕ → fl.Float) (to_int : fl.Float → ℤ) (src_w src_h : ℕ) where
  limited-IsInside :
      (d : Detection fl.Float) (c : ℕ) (s : fl.Float)
      → IsInside src_w src_h (limited fl of_nat to_int src_w src_h d c s)
  unfolding limited
  limited-IsInside d c s =
      (at_least_zero_lem _, at_least_zero_lem _, at_most_lem _ _, at_most_lem _ _)

  write_infos_lem :
      (i : ℕ) (rs : List (Detection fl.Float × ℕ))
      → Scored fl rs
      → i + length rs ≤ arr_size
      → (infos : List (BoxInfo2 fl.Float)) × (write_infos fl of_nat to_int src_w src_h i rs
          ≡ some infos)
        × (length infos ≡ length rs)
        × AreInside src_w src_h infos
  unfolding write_infos box_info
  write_infos_lem i [] scored room = ([], refl, refl, tt)
  write_infos_lem i (r ∷ rs) scored room =
      let (s, at) = get_elem?-inside r.0.prob r.1 scored.0 in
      let (infos, rest, len, all) = write_infos_lem (suc i) rs scored.1 (omega arith) in
      let here : ltb i arr_size ≡ true = lt→ltb i arr_size (omega arith) in
      (
        limited fl of_nat to_int src_w src_h r.0 r.1 s ∷ infos,
        rw (here, at, rest) refl,
        omega (arith, len),
        (limited-IsInside r.0 r.1 s, all),
      )

-- When the layers lie in the network's output, `maxBoxNum` is at most the 100 that `boxArr` was
-- allocated for, the picture is not empty and small enough that its sides times the network's are below
-- 2 ^ 31, and `qsort` moves the detections about, then for every kind of suppression `getDetectBoxInfo`
-- returns, having read and written nothing outside the output, the detections, their
-- probabilities and `boxArr`, and the boxes it reports are at most `maxBoxNum`, with no left or top
-- edge below 0, no right edge above the picture's last column and no bottom edge below its last row.
pub box_infos-AreInside :
    (fl : Floats) (of_nat : ℕ → fl.Float) (to_int : fl.Float → ℤ) (one : fl.Float)
    (qsort : List (Detection fl.Float) → List (Detection fl.Float)) (d : NetDetect) (kind : NmsKind)
    (thresh iou beta : fl.Float) (input : List fl.Float) (src_w src_h : ℕ)
    → IsSort fl qsort
    → AreLayers d (length input) 0 d.vec_layer
    → d.max_box_num ≤ arr_size
    → IsPicture d src_w src_h
    → (infos : List (BoxInfo2 fl.Float)) × (get_detect_box_info fl of_nat to_int one qsort d kind
          thresh iou beta input src_w src_h
        ≡ some infos)
      × (length infos ≤ d.max_box_num)
      × AreInside src_w src_h infos
unfolding get_detect_box_info
box_infos-AreInside fl of_nat to_int one qsort d kind thresh iou beta input src_w src_h sorts v room
      picture =
    let (num, dets, made, filled, len, most) =
      network_boxes-filled fl of_nat one d input src_w src_h thresh v picture in
    let whole =
      fill_network_boxes-classes fl of_nat one d input thresh num src_w src_h dets filled in
    let (kept, sorted, (same, whole')) =
      nms_sort-Keeps fl qsort sorts (hits_of fl kind iou beta) d.class_num dets whole in
    let (rs, chosen, scored, few) =
      get_actual_detections-Scored fl d.class_num thresh kept whole' in
    let (infos, written, n, all) =
      write_infos_lem fl of_nat to_int src_w src_h 0 rs scored
        (omega (arith, few, same, len, most)) in
    (infos, rw (made, filled, sorted, chosen) written, omega (arith, few, same, len, most, n), all)
