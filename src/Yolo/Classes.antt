-- ===== src/Yolo/Classes.antt =====
-- The detections that are filled have a probability for each class of the network.
use vcu.Prelude.{
  ℕ, zero, suc, ◌+◌, ◌/◌, ◌≡◌, refl, sym, ap, ◌∙◌, inl, inr, Option, none, some, List, [], ◌∷◌,
  true, ltb, ◌&&◌, Bool-cases, length,
}
use vcu.Prelude.Memory.{◌>>=◌}
use vcu.Detect.{Floats, Detection}
use vcu.Detect.Scored.{all, all-append, all-map, has_classes, has_classes_intro}
use vcu.Yolo.{
  YoloLayer, NetDetect, cells_of, channel, get_yolo_box2, class_probs, fill_one, fill_box,
  fill_cell, fill_cells, fill_layers, fitted, correct_box, correct_yolo_boxes, fill_network_boxes,
}

pub bind-some {ℓ κ} :
    {A : Type ℓ} {B : Type κ} (o : Option A) (f : A → Option B) {b : B}
    → (o >>= f) ≡ some b
    → (a : A) × (o ≡ some a) × (f a ≡ some b)
bind-some none f h = cc
bind-some (some a) f h = (a, refl, h)

pub some_inv {ℓ} : {A : Type ℓ} {a b : A} → some a ≡ some b → a ≡ b
some_inv h = cc

module _ (fl : Floats) (of_nat : ℕ → fl.Float) (one : fl.Float) where
  length-class_probs :
      (input : List fl.Float) (thresh : fl.Float) (base : ℕ) (l : YoloLayer) (n j : ℕ)
      (objectness : fl.Float) (m k : ℕ) (probs : List fl.Float)
      → class_probs fl of_nat one input thresh base l n j objectness m k ≡ some probs
      → length probs ≡ m
  unfolding class_probs
  length-class_probs input thresh base l n j objectness zero k probs h =
      ap length (sym (some_inv h))
  length-class_probs input thresh base l n j objectness (suc m) k probs h =
      let (p, read, h') = bind-some (channel fl of_nat one input base l n j (5 + k)) _ h in
      let (rest, later, h'') =
        bind-some (class_probs fl of_nat one input thresh base l n j objectness m (suc k)) _ h' in
      ap length (sym (some_inv h''))
      ∙ ap suc (length-class_probs input thresh base l n j objectness m (suc k) rest later)

  module _ (d : NetDetect) (input : List fl.Float) (thresh : fl.Float) (num : ℕ) where
    abbrev Whole : List (Detection fl.Float) → Type 0
    Whole dets = all (has_classes fl d.class_num) dets ≡ true

    fill_one-Whole :
        (base : ℕ) (l : YoloLayer) (n j : ℕ) (objectness : fl.Float)
        (dets out : List (Detection fl.Float))
        → Whole dets
        → fill_one fl of_nat one d input thresh num base l n j objectness dets ≡ some out
        → Whole out
    unfolding fill_one
    fill_one-Whole base l n j objectness dets out v h = elim (Bool-cases (ltb (length dets) num)) [
      | inr outside ↦ absurd (let e : none ≡ some out = rw outside at h in cc)
      | inl inside ↦
          let (b, read, h') =
            bind-some (get_yolo_box2 fl of_nat one d input base l n j) _ (rw inside at h) in
          let (probs, given, h'') =
            bind-some (class_probs fl of_nat one input thresh base l n j objectness d.class_num 0) _
              h' in
          let len =
            length-class_probs input thresh base l n j objectness d.class_num 0 probs given in
          let e : Detection fl.Float = record {
            bbox = b;
            classes = d.class_num;
            prob = probs;
            objectness = objectness;
            sort_class = 0;
          } in
          let full = has_classes_intro fl d.class_num e refl len in
          ap (all (has_classes fl d.class_num)) (sym (some_inv h''))
          ∙ all-append (has_classes fl d.class_num) dets (e ∷ []) v (rw full refl)
    ]

    fill_box-Whole :
        (base : ℕ) (l : YoloLayer) (n j : ℕ) (dets out : List (Detection fl.Float))
        → Whole dets
        → fill_box fl of_nat one d input thresh num base l n j dets ≡ some out
        → Whole out
    unfolding fill_box
    fill_box-Whole base l n j dets out v h =
        let (objectness, read, h') = bind-some (channel fl of_nat one input base l n j 4) _ h in
        elim (Bool-cases (fl.lt thresh objectness && ltb (length dets) d.max_box_num)) [
          | inl over ↦ fill_one-Whole base l n j objectness dets out v (rw over at h')
          | inr under ↦ ap (all (has_classes fl d.class_num)) (sym (some_inv (rw under at h'))) ∙ v
        ]

    fill_cell-Whole :
        (base : ℕ) (l : YoloLayer) (j k n : ℕ) (dets out : List (Detection fl.Float))
        → Whole dets
        → fill_cell fl of_nat one d input thresh num base l j k n dets ≡ some out
        → Whole out
    unfolding fill_cell
    fill_cell-Whole base l j zero n dets out v h =
        ap (all (has_classes fl d.class_num)) (sym (some_inv h)) ∙ v
    fill_cell-Whole base l j (suc k) n dets out v h =
        let (mid, filled, h') =
          bind-some (fill_box fl of_nat one d input thresh num base l n j dets) _ h in
        fill_cell-Whole base l j k (suc n) mid out (fill_box-Whole base l n j dets mid v filled) h'

    fill_cells-Whole :
        (base : ℕ) (l : YoloLayer) (m j : ℕ) (dets out : List (Detection fl.Float))
        → Whole dets
        → fill_cells fl of_nat one d input thresh num base l m j dets ≡ some out
        → Whole out
    unfolding fill_cells
    fill_cells-Whole base l zero j dets out v h =
        ap (all (has_classes fl d.class_num)) (sym (some_inv h)) ∙ v
    fill_cells-Whole base l (suc m) j dets out v h =
        let (mid, filled, h') =
          bind-some (fill_cell fl of_nat one d input thresh num base l j l.grid_box_num 0 dets) _
            h in
        fill_cells-Whole base l m (suc j) mid out
          (fill_cell-Whole base l j l.grid_box_num 0 dets mid v filled) h'

    fill_layers-Whole :
        (base : ℕ) (ls : List YoloLayer) (dets out : List (Detection fl.Float))
        → Whole dets
        → fill_layers fl of_nat one d input thresh num base ls dets ≡ some out
        → Whole out
    unfolding fill_layers
    fill_layers-Whole base [] dets out v h =
        ap (all (has_classes fl d.class_num)) (sym (some_inv h)) ∙ v
    fill_layers-Whole base (l ∷ ls) dets out v h =
        let (mid, filled, h') =
          bind-some (fill_cells fl of_nat one d input thresh num base l (cells_of l) 0 dets) _ h in
        fill_layers-Whole (base + l.output_size / 4) ls mid out
          (fill_cells-Whole base l (cells_of l) 0 dets mid v filled) h'

    pub fill_network_boxes-classes :
        (src_w src_h : ℕ) (out : List (Detection fl.Float))
        → fill_network_boxes fl of_nat one d input src_w src_h thresh num ≡ some out
        → all (has_classes fl d.class_num) out ≡ true
    unfolding fill_network_boxes correct_yolo_boxes
    fill_network_boxes-classes src_w src_h out h =
        let (dets, filled, h') =
          bind-some (fill_layers fl of_nat one d input thresh num 0 d.vec_layer []) _ h in
        let (size, fits, h'') = bind-some (fitted fl of_nat one d src_w src_h) _ h' in
        ap (all (has_classes fl d.class_num)) (sym (some_inv h''))
        ∙ all-map (has_classes fl d.class_num) (has_classes fl d.class_num)
            (λ (e : Detection fl.Float). record e {
              bbox = correct_box fl of_nat one d size e.bbox;
            })
            dets (λ e same. same) (fill_layers-Whole 0 d.vec_layer [] dets refl filled)
