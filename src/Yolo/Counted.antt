-- ===== src/Yolo/Counted.antt =====
-- The number of detections allocated is the number of boxes above the threshold, up to the largest.
use vcu.Prelude.{
  ℕ, zero, suc, ◌+◌, ◌*◌, ◌/◌, ◌≤◌, ◌<◌, ◌≡◌, refl, ap, ◌∙◌, min, inl, inr, Option, none, some,
  List, [], ◌∷◌,
}
use vcu.Prelude.{Bool-cases, ltb, if◌then◌else◌, arith, length, get_elem?}
use vcu.Packets.Chunks.{times_lt}
use vcu.Detect.{Floats}
use vcu.Yolo.{
  YoloLayer, NetDetect, one_channel, cells_of, channel, count_cells, count_boxes, count_layers,
  make_network_boxes,
}
use vcu.Yolo.Sums.{sum}

-- The layer's cells lie in the data, its boxes in a cell's channels, its anchors in the table.
pub record IsLayer (d : NetDetect) (size base : ℕ) (l : YoloLayer) : Type 0 where
  pub inside : base + cells_of l * l.net_c ≤ size
  pub boxes : l.grid_box_num * one_channel ≤ l.net_c
  pub classes : d.class_num ≤ 80
  pub anchors :
      (n : ℕ)
      → n < l.grid_box_num
      → (kind : ℕ) × (get_elem? l.mask n ≡ some kind) × (2 * kind + 1 < length d.anchor_arr)

abbrev pub AreLayers : NetDetect → ℕ → ℕ → List YoloLayer → Type 0
AreLayers d size base [] = Unit
AreLayers d size base (l ∷ ls) =
    IsLayer d size base l × AreLayers d size (base + l.output_size / 4) ls

pub get_elem?-inside {ℓ} :
    {A : Type ℓ} (xs : List A) (i : ℕ) → i < length xs → (x : A) × (get_elem? xs i ≡ some x)
get_elem?-inside [] i h = absurd (omega arith)
get_elem?-inside (x ∷ xs) zero h = (x, refl)
get_elem?-inside (x ∷ xs) (suc i) h = get_elem?-inside xs i (omega arith)

module _ (fl : Floats) (of_nat : ℕ → fl.Float) (one : fl.Float) where
  pub channel_lem :
      (d : NetDetect) (input : List fl.Float) (base : ℕ) (l : YoloLayer) (n j index : ℕ)
      → IsLayer d (length input) base l
      → n < l.grid_box_num
      → j < cells_of l
      → index < 85
      → (x : fl.Float) × (channel fl of_nat one input base l n j index ≡ some x)
  channel_lem d input base l n j index v h k small = get_elem?-inside input _ (
      omega (
        arith,
        times_lt j (cells_of l) l.net_c k,
        times_lt n l.grid_box_num one_channel h,
        v.inside,
        v.boxes,
      ))

  -- 1 for a box above the threshold, 0 for another
  abbrev weight : fl.Float → Option fl.Float → ℕ
  weight thresh none = 0
  weight thresh (some objectness) = if fl.lt thresh objectness then 1 else 0

  abbrev pub above : List fl.Float → fl.Float → ℕ → YoloLayer → ℕ → ℕ → ℕ
  above input thresh base l n j = weight thresh (channel fl of_nat one input base l n j 4)

  pub above_lem :
      (input : List fl.Float) (thresh : fl.Float) (base : ℕ) (l : YoloLayer) (n j : ℕ)
      (objectness : fl.Float)
      → channel fl of_nat one input base l n j 4 ≡ some objectness
      → above input thresh base l n j ≡ (if fl.lt thresh objectness then 1 else 0)
  above_lem input thresh base l n j objectness read = ap (weight thresh) read

  abbrev pub layer_total : List fl.Float → fl.Float → ℕ → YoloLayer → ℕ
  layer_total input thresh base l =
      sum (λ n. sum (above input thresh base l n) (cells_of l) 0) l.grid_box_num 0

  abbrev pub total : List fl.Float → fl.Float → ℕ → List YoloLayer → ℕ
  total input thresh base [] = 0
  total input thresh base (l ∷ ls) =
      layer_total input thresh base l + total input thresh (base + l.output_size / 4) ls

  count_cells_lem :
      (d : NetDetect) (input : List fl.Float) (thresh : fl.Float) (base : ℕ) (l : YoloLayer)
      (n m i : ℕ)
      → IsLayer d (length input) base l
      → n < l.grid_box_num
      → i + m ≤ cells_of l
      → count_cells fl of_nat one input thresh base l n m i
        ≡ some (sum (above input thresh base l n) m i)
  unfolding count_cells
  count_cells_lem d input thresh base l n zero i v h k = refl
  count_cells_lem d input thresh base l n (suc m) i v h k =
      let (objectness, read) = channel_lem d input base l n i 4 v h (omega arith) (omega arith) in
      let rest = count_cells_lem d input thresh base l n m (suc i) v h (omega arith) in
      elim (Bool-cases (fl.lt thresh objectness)) [
        | inl over ↦
            let here : above input thresh base l n i ≡ 1 =
              above_lem input thresh base l n i objectness read ∙ rw over refl in
            rw (read, rest, over) (ap some (omega (arith, here)))
        | inr under ↦
            let here : above input thresh base l n i ≡ 0 =
              above_lem input thresh base l n i objectness read ∙ rw under refl in
            rw (read, rest, under) (ap some (omega (arith, here)))
      ]

  count_boxes_lem :
      (d : NetDetect) (input : List fl.Float) (thresh : fl.Float) (base : ℕ) (l : YoloLayer)
      (k n : ℕ)
      → IsLayer d (length input) base l
      → n + k ≤ l.grid_box_num
      → count_boxes fl of_nat one input thresh base l k n
        ≡ some (sum (λ n. sum (above input thresh base l n) (cells_of l) 0) k n)
  unfolding count_boxes
  count_boxes_lem d input thresh base l zero n v h = refl
  count_boxes_lem d input thresh base l (suc k) n v h = rw (
    count_cells_lem d input thresh base l n (cells_of l) 0 v (omega arith) (omega arith),
    count_boxes_lem d input thresh base l k (suc n) v (omega arith),
  )

  count_layers_lem :
      (d : NetDetect) (input : List fl.Float) (thresh : fl.Float) (base : ℕ) (ls : List YoloLayer)
      → AreLayers d (length input) base ls
      → count_layers fl of_nat one input thresh base ls ≡ some (total input thresh base ls)
  unfolding count_layers
  count_layers_lem d input thresh base [] v = refl
  count_layers_lem d input thresh base (l ∷ ls) v = rw (
    count_boxes_lem d input thresh base l l.grid_box_num 0 v.0 (omega arith),
    count_layers_lem d input thresh (base + l.output_size / 4) ls v.1,
  )

  pub make_network_boxes_lem :
      (d : NetDetect) (input : List fl.Float) (thresh : fl.Float)
      → AreLayers d (length input) 0 d.vec_layer
      → make_network_boxes fl of_nat one d input thresh
        ≡ some (min d.max_box_num (total input thresh 0 d.vec_layer))
  unfolding make_network_boxes
  make_network_boxes_lem d input thresh v =
      let all = total input thresh 0 d.vec_layer in
      elim (Bool-cases (ltb d.max_box_num all)) [
        | inl over ↦
            let cut : d.max_box_num ≡ min d.max_box_num all = ground arith in
            rw (count_layers_lem d input thresh 0 d.vec_layer v, over) (ap some cut)
        | inr under ↦
            let same : all ≡ min d.max_box_num all = ground arith in
            rw (count_layers_lem d input thresh 0 d.vec_layer v, under) (ap some same)
      ]
