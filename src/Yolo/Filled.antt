-- ===== src/Yolo/Filled.antt =====
-- Every detection allocated is filled, and no other.
use vcu.Prelude.{
  ℕ, zero, suc, ◌+◌, ◌*◌, ◌/◌, ◌%◌, ◌≤◌, ◌<◌, ◌≡◌, refl, ◌∙◌, min, inl, inr, some, List, [], ◌∷◌,
  ◌++◌,
}
use vcu.Prelude.{
  true, false, Bool-cases, ltb, ◌&&◌, if◌then◌else◌, arith, lt→ltb, map, ◌^◌, length, length-append,
  length-map,
}
use vcu.Detect.{Floats, Box, Detection}
use vcu.Yolo.{
  YoloLayer, NetDetect, cells_of, channel, odds, get_yolo_box2, class_probs, fill_one, fill_box,
  fill_cell, fill_cells, fill_layers, fill_network_boxes, fitted, correct_box, correct_yolo_boxes,
  make_network_boxes,
}
use vcu.Yolo.Sums.{sum, sum_swap}
use vcu.Yolo.Counted.{
  IsLayer, AreLayers, get_elem?-inside, channel_lem, above, above_lem, layer_total, total,
  make_network_boxes_lem,
}

module _ (fl : Floats) (of_nat : ℕ → fl.Float) (one : fl.Float) where
  get_yolo_box2_lem :
      (d : NetDetect) (input : List fl.Float) (base : ℕ) (l : YoloLayer) (n j : ℕ)
      → IsLayer d (length input) base l
      → n < l.grid_box_num
      → j < cells_of l
      → (b : Box fl.Float) × (get_yolo_box2 fl of_nat one d input base l n j ≡ some b)
  unfolding get_yolo_box2
  get_yolo_box2_lem d input base l n j v h k =
      let (kind, masked, known) = v.anchors n h in
      let (anchor_w, aw) = get_elem?-inside d.anchor_arr (2 * kind) (omega arith) in
      let (anchor_h, ah) = get_elem?-inside d.anchor_arr (2 * kind + 1) known in
      let (x, xr) = channel_lem fl of_nat one d input base l n j 0 v h k (omega arith) in
      let (y, yr) = channel_lem fl of_nat one d input base l n j 1 v h k (omega arith) in
      let (w, wr) = channel_lem fl of_nat one d input base l n j 2 v h k (omega arith) in
      let (t, tr) = channel_lem fl of_nat one d input base l n j 3 v h k (omega arith) in
      (
        record {
          x = fl.div (fl.add (of_nat (j % l.net_h)) x) (of_nat l.net_w);
          y = fl.div (fl.add (of_nat (j / l.net_w)) y) (of_nat l.net_h);
          w = fl.div (fl.mul (odds fl of_nat one w) (of_nat anchor_w)) (of_nat d.fpga_netw);
          h = fl.div (fl.mul (odds fl of_nat one t) (of_nat anchor_h)) (of_nat d.fpga_neth);
        },
        rw (masked, aw, ah, xr, yr, wr, tr),
      )

  class_probs_lem :
      (d : NetDetect) (input : List fl.Float) (thresh : fl.Float) (base : ℕ) (l : YoloLayer)
      (n j : ℕ) (objectness : fl.Float) (m k : ℕ)
      → IsLayer d (length input) base l
      → n < l.grid_box_num
      → j < cells_of l
      → k + m ≤ 80
      → (probs : List fl.Float) × (class_probs fl of_nat one input thresh base l n j objectness m k
          ≡ some probs)
  unfolding class_probs
  class_probs_lem d input thresh base l n j objectness zero k v h c small = ([], refl)
  class_probs_lem d input thresh base l n j objectness (suc m) k v h c small =
      let (p, read) = channel_lem fl of_nat one d input base l n j (5 + k) v h c (omega arith) in
      let (probs, rest) =
        class_probs_lem d input thresh base l n j objectness m (suc k) v h c (omega arith) in
      let prob = fl.mul objectness p in
      ((if fl.lt thresh prob then prob else fl.zero_float) ∷ probs, rw (read, rest))

  fill_one_lem :
      (d : NetDetect) (input : List fl.Float) (thresh : fl.Float) (num base : ℕ) (l : YoloLayer)
      (n j : ℕ) (objectness : fl.Float) (dets : List (Detection fl.Float))
      → IsLayer d (length input) base l
      → n < l.grid_box_num
      → j < cells_of l
      → length dets < num
      → (out : List (Detection fl.Float)) × (fill_one fl of_nat one d input thresh num base l n j
            objectness dets
          ≡ some out)
        × (length out ≡ suc (length dets))
  unfolding fill_one
  fill_one_lem d input thresh num base l n j objectness dets v h k room =
      let (bbox, boxed) = get_yolo_box2_lem d input base l n j v h k in
      let (probs, read) =
        class_probs_lem d input thresh base l n j objectness d.class_num 0 v h k
          (omega (arith, v.classes)) in
      let inside : ltb (length dets) num ≡ true = ground arith in
      let e : Detection fl.Float = record {
        bbox = bbox;
        classes = d.class_num;
        prob = probs;
        objectness = objectness;
        sort_class = 0;
      } in
      (dets ++ (e ∷ []), rw (inside, boxed, read), omega (arith, length-append dets (e ∷ [])))

  taken :
      (d : NetDetect) (input : List fl.Float) (thresh : fl.Float) (num base : ℕ) (l : YoloLayer)
      (n j : ℕ) (objectness : fl.Float) (dets out : List (Detection fl.Float))
      → channel fl of_nat one input base l n j 4 ≡ some objectness
      → (fl.lt thresh objectness && ltb (length dets) d.max_box_num) ≡ true
      → fill_one fl of_nat one d input thresh num base l n j objectness dets ≡ some out
      → fill_box fl of_nat one d input thresh num base l n j dets ≡ some out
  unfolding fill_box
  taken d input thresh num base l n j objectness dets out read wanted written =
      rw (read, wanted, written)

  passed :
      (d : NetDetect) (input : List fl.Float) (thresh : fl.Float) (num base : ℕ) (l : YoloLayer)
      (n j : ℕ) (objectness : fl.Float) (dets : List (Detection fl.Float))
      → channel fl of_nat one input base l n j 4 ≡ some objectness
      → (fl.lt thresh objectness && ltb (length dets) d.max_box_num) ≡ false
      → fill_box fl of_nat one d input thresh num base l n j dets ≡ some dets
  unfolding fill_box
  passed d input thresh num base l n j objectness dets read unwanted = rw (read, unwanted)

  -- `t` boxes above the threshold have been passed; the array has room for all of them, up to the largest.
  fill_box_lem :
      (d : NetDetect) (input : List fl.Float) (thresh : fl.Float) (num all base : ℕ) (l : YoloLayer)
      (n j t : ℕ) (dets : List (Detection fl.Float))
      → IsLayer d (length input) base l
      → n < l.grid_box_num
      → j < cells_of l
      → num ≡ min d.max_box_num all
      → length dets ≡ min d.max_box_num t
      → t + above fl of_nat one input thresh base l n j ≤ all
      → (out : List (Detection fl.Float)) × (fill_box fl of_nat one d input thresh num base l n j
            dets
          ≡ some out)
        × (length out ≡ min d.max_box_num (t + above fl of_nat one input thresh base l n j))
  fill_box_lem d input thresh num all base l n j t dets v h k room filled within =
      let (objectness, read) = channel_lem fl of_nat one d input base l n j 4 v h k (omega arith) in
      let here = above_lem fl of_nat one input thresh base l n j objectness read in
      elim (Bool-cases (fl.lt thresh objectness)) [
        | inr under ↦
            let nothing : above fl of_nat one input thresh base l n j ≡ 0 = here ∙ rw under refl in
            (
              dets,
              passed d input thresh num base l n j objectness dets read (rw under refl),
              omega (arith, nothing),
            )
        | inl over ↦
            let more : above fl of_nat one input thresh base l n j ≡ 1 = here ∙ rw over refl in
            elim (Bool-cases (ltb (length dets) d.max_box_num)) [
              | inr full ↦
                  let most : d.max_box_num ≤ length dets = ground arith in
                  (
                    dets,
                    passed d input thresh num base l n j objectness dets read
                        (rw (over, full) refl),
                    omega (arith, more),
                  )
              | inl free ↦
                  let less : length dets < d.max_box_num = ground arith in
                  let (out, written, one_more) =
                    fill_one_lem d input thresh num base l n j objectness dets v h k
                      (omega (arith, more)) in
                  (
                    out,
                    taken d input thresh num base l n j objectness dets out read
                        (rw (over, free) refl) written,
                    omega (arith, more),
                  )
            ]
      ]

  -- The same of the loops: the boxes passed are those above the threshold.
  fill_cell_lem :
      (d : NetDetect) (input : List fl.Float) (thresh : fl.Float) (num all base : ℕ) (l : YoloLayer)
      (j k n t : ℕ) (dets : List (Detection fl.Float))
      → IsLayer d (length input) base l
      → n + k ≤ l.grid_box_num
      → j < cells_of l
      → num ≡ min d.max_box_num all
      → length dets ≡ min d.max_box_num t
      → t + sum (λ n. above fl of_nat one input thresh base l n j) k n ≤ all
      → (out : List (Detection fl.Float)) × (fill_cell fl of_nat one d input thresh num base l j k n
            dets
          ≡ some out)
        × (length out
            ≡ min d.max_box_num (t + sum (λ n. above fl of_nat one input thresh base l n j) k n))
  unfolding fill_cell
  fill_cell_lem d input thresh num all base l j zero n t dets v h c room filled within =
      (dets, refl, omega arith)
  fill_cell_lem d input thresh num all base l j (suc k) n t dets v h c room filled within =
      let (one_box, done1, len1) =
        fill_box_lem d input thresh num all base l n j t dets v (omega arith) c room filled
          (omega arith) in
      let (out, done2, len2) =
        fill_cell_lem d input thresh num all base l j k (suc n)
          (t + above fl of_nat one input thresh base l n j) one_box v (omega arith) c room len1
          (omega arith) in
      (out, rw (done1, done2), omega arith)

  fill_cells_lem :
      (d : NetDetect) (input : List fl.Float) (thresh : fl.Float) (num all base : ℕ) (l : YoloLayer)
      (m j t : ℕ) (dets : List (Detection fl.Float))
      → IsLayer d (length input) base l
      → j + m ≤ cells_of l
      → num ≡ min d.max_box_num all
      → length dets ≡ min d.max_box_num t
      → t + sum (λ j. sum (λ n. above fl of_nat one input thresh base l n j) l.grid_box_num 0) m j
        ≤ all
      → (out : List (Detection fl.Float)) × (fill_cells fl of_nat one d input thresh num base l m j
            dets
          ≡ some out)
        × (length out
            ≡ min d.max_box_num (
                t
                + sum
                    (λ j. sum (λ n. above fl of_nat one input thresh base l n j) l.grid_box_num 0)
                    m
                    j))
  unfolding fill_cells
  fill_cells_lem d input thresh num all base l zero j t dets v h room filled within =
      (dets, refl, omega arith)
  fill_cells_lem d input thresh num all base l (suc m) j t dets v h room filled within =
      let (cell, done1, len1) =
        fill_cell_lem d input thresh num all base l j l.grid_box_num 0 t dets v (omega arith)
          (omega arith) room filled (omega arith) in
      let (out, done2, len2) =
        fill_cells_lem d input thresh num all base l m (suc j)
          (t + sum (λ n. above fl of_nat one input thresh base l n j) l.grid_box_num 0) cell v
          (omega arith) room len1 (omega arith) in
      (out, rw (done1, done2), omega arith)

  fill_layers_lem :
      (d : NetDetect) (input : List fl.Float) (thresh : fl.Float) (num all base : ℕ)
      (ls : List YoloLayer) (t : ℕ) (dets : List (Detection fl.Float))
      → AreLayers d (length input) base ls
      → num ≡ min d.max_box_num all
      → length dets ≡ min d.max_box_num t
      → t + total fl of_nat one input thresh base ls ≤ all
      → (out : List (Detection fl.Float)) × (fill_layers fl of_nat one d input thresh num base ls
            dets
          ≡ some out)
        × (length out ≡ min d.max_box_num (t + total fl of_nat one input thresh base ls))
  unfolding fill_layers
  fill_layers_lem d input thresh num all base [] t dets v room filled within =
      (dets, refl, omega arith)
  fill_layers_lem d input thresh num all base (l ∷ ls) t dets v room filled within =
      let swap =
        sum_swap (λ n. above fl of_nat one input thresh base l n) l.grid_box_num 0 (cells_of l) 0 in
      let (layer, done1, len1) =
        fill_cells_lem d input thresh num all base l (cells_of l) 0 t dets v.0 (omega arith) room
          filled (omega (arith, swap)) in
      let (out, done2, len2) =
        fill_layers_lem d input thresh num all (base + l.output_size / 4) ls
          (t + layer_total fl of_nat one input thresh base l) layer v.1 room (omega (arith, swap))
          (omega arith) in
      (out, rw (done1, done2), omega arith)

-- The products and the divisor of `correctYoloBoxes` are in range.
pub record IsPicture (d : NetDetect) (src_w src_h : ℕ) : Type 0 where
  pub columns : 0 < src_w
  pub rows : 0 < src_h
  pub tall : src_h * d.fpga_netw < 2 ^ 31
  pub wide : src_w * d.fpga_neth < 2 ^ 31

fitted_lem :
    (fl : Floats) (of_nat : ℕ → fl.Float) (one : fl.Float) (d : NetDetect) (src_w src_h : ℕ)
    → IsPicture d src_w src_h
    → (size : ℕ × ℕ) × (fitted fl of_nat one d src_w src_h ≡ some size)
unfolding fitted
fitted_lem fl of_nat one d src_w src_h v =
    elim (Bool-cases (
      fl.lt (fl.div (of_nat d.fpga_netw) (of_nat src_w))
        (fl.div (of_nat d.fpga_neth) (of_nat src_h)))) [
          | inl narrow ↦ (
            (d.fpga_netw, src_h * d.fpga_netw / src_w),
            rw (narrow, lt→ltb _ _ v.tall, lt→ltb _ _ v.columns) refl,
          )
          | inr broad ↦ (
            (src_w * d.fpga_neth / src_h, d.fpga_neth),
            rw (broad, lt→ltb _ _ v.wide, lt→ltb _ _ v.rows) refl,
          )
        ]

-- When the layers of the configuration lie in the network's output, and the picture is not empty and
-- small enough that its sides times the network's are below 2 ^ 31, `makeNetworkBoxes` and
-- `fillNetworkBoxes` read nothing outside the output and write nothing outside the array of detections, and
-- fill exactly the detections that were allocated, at most `maxBoxNum`, although the one goes through
-- the boxes of a layer cell by cell and the other box by box.
pub network_boxes-filled :
    (fl : Floats) (of_nat : ℕ → fl.Float) (one : fl.Float) (d : NetDetect) (input : List fl.Float)
    (src_w src_h : ℕ) (thresh : fl.Float)
    → AreLayers d (length input) 0 d.vec_layer
    → IsPicture d src_w src_h
    → (num : ℕ) × (dets : List (Detection fl.Float)) × (make_network_boxes fl of_nat one d input
          thresh
        ≡ some num)
      × (fill_network_boxes fl of_nat one d input src_w src_h thresh num ≡ some dets)
      × (length dets ≡ num)
      × (num ≤ d.max_box_num)
unfolding fill_network_boxes correct_yolo_boxes
network_boxes-filled fl of_nat one d input src_w src_h thresh v picture =
    let all = total fl of_nat one input thresh 0 d.vec_layer in
    let num = min d.max_box_num all in
    let (dets, filled, len) =
      fill_layers_lem fl of_nat one d input thresh num all 0 d.vec_layer 0 [] v refl (omega arith)
        (omega arith) in
    let (size, fits) = fitted_lem fl of_nat one d src_w src_h picture in
    let corrected =
      λ (e : Detection fl.Float). record e { bbox = correct_box fl of_nat one d size e.bbox } in
    (
      num,
      map corrected dets,
      make_network_boxes_lem fl of_nat one d input thresh v,
      rw (filled, fits) refl,
      omega (arith, length-map dets corrected),
      omega arith,
    )
