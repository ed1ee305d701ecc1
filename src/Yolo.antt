-- ===== src/Yolo.antt =====
-- src/yoloDetect.h, src/yoloDetect.cpp: the boxes read from the network's output. It is built with
-- `YOLO_FPGA`, so a cell's channels lie side by side. `float` is the abstract type of `Detect`, with a
-- number's conversion and the 1 as arguments; `none` is a read or write outside an array.
pub mod Sums
pub mod Counted
pub mod Filled
pub mod Classes
pub mod Infos
pub mod Sized
pub mod Inside
mod Tests
use vcu.Prelude.{
  ℕ, zero, suc, ◌+◌, ◌-◌, ◌*◌, ◌/◌, ◌%◌, ◌^◌, Option, none, some, List, [], ◌∷◌, ◌++◌, map,
}
use vcu.Prelude.{Bool, true, false, ◌&&◌, ltb, if◌then◌else◌, length, get_elem?}
use vcu.Prelude.Memory.{◌>>=◌}
use vcu.Detect.{Floats, Box, Detection}

-- `YoloLayer`
pub record YoloLayer : Type 0 where
  pub net_w : ℕ
  pub net_h : ℕ
  pub net_c : ℕ
  pub output_size : ℕ
  pub grid_box_num : ℕ
  pub mask : List ℕ

-- The members of `NetDetect` that the boxes depend on.
pub record NetDetect : Type 0 where
  pub max_box_num : ℕ
  pub class_num : ℕ
  pub fpga_netw : ℕ
  pub fpga_neth : ℕ
  pub anchor_arr : List ℕ
  pub vec_layer : List YoloLayer

-- `getIndex2`
abbrev pub get_index2 : ℕ → ℕ → ℕ → ℕ → ℕ → ℕ
get_index2 n loc full_channel one_channel index = loc * full_channel + n * one_channel + index

abbrev pub one_channel : ℕ
one_channel = 85

-- `signle_chanel_size`
abbrev pub cells_of : YoloLayer → ℕ
cells_of l = l.net_w * l.net_h

module _ (fl : Floats) (of_nat : ℕ → fl.Float) (one : fl.Float) where
  -- A channel of cell `j` for box `n`, `base` being the layer's place in the data
  abbrev pub channel : List fl.Float → ℕ → YoloLayer → ℕ → ℕ → ℕ → Option fl.Float
  channel input base l n j index = get_elem? input (base + get_index2 n j l.net_c one_channel index)

  -- The cells of one box from cell `i` on, with `m` left, whose objectness is above the threshold
  unfoldable pub count_cells : List fl.Float → fl.Float → ℕ → YoloLayer → ℕ → ℕ → ℕ → Option ℕ
  count_cells input thresh base l n zero i = some 0
  count_cells input thresh base l n (suc m) i =
      let rest = count_cells input thresh base l n m (suc i) in
      channel input base l n i 4 >>= λ objectness.
      rest >>= λ others. some (if fl.lt thresh objectness then suc others else others)

  -- The boxes of a layer from box `n` on, with `k` left
  unfoldable pub count_boxes : List fl.Float → fl.Float → ℕ → YoloLayer → ℕ → ℕ → Option ℕ
  count_boxes input thresh base l zero n = some 0
  count_boxes input thresh base l (suc k) n =
      let rest = count_boxes input thresh base l k (suc n) in
      count_cells input thresh base l n (cells_of l) 0 >>= λ here.
      rest >>= λ others. some (here + others)

  unfoldable pub count_layers : List fl.Float → fl.Float → ℕ → List YoloLayer → Option ℕ
  count_layers input thresh base [] = some 0
  count_layers input thresh base (l ∷ ls) =
      let rest = count_layers input thresh (base + l.output_size / 4) ls in
      count_boxes input thresh base l l.grid_box_num 0 >>= λ here.
      rest >>= λ others. some (here + others)

  -- `makeNetworkBoxes(thresh, num)`: the number of detections that it allocates
  unfoldable pub make_network_boxes : NetDetect → List fl.Float → fl.Float → Option ℕ
  make_network_boxes d input thresh = count_layers input thresh 0 d.vec_layer >>= λ box_num.
      some (if ltb d.max_box_num box_num then d.max_box_num else box_num)

  -- `w / (1.0 - w)`
  abbrev pub odds : fl.Float → fl.Float
  odds w = fl.div w (fl.sub one w)

  -- `getYoloBox2`, with the channels at `index` and behind it
  unfoldable pub get_yolo_box2 :
      NetDetect → List fl.Float → ℕ → YoloLayer → ℕ → ℕ → Option (Box fl.Float)
  get_yolo_box2 d input base l n j = do
    kind ← get_elem? l.mask n
    anchor_w ← get_elem? d.anchor_arr (2 * kind)
    anchor_h ← get_elem? d.anchor_arr (2 * kind + 1)
    x ← channel input base l n j 0
    y ← channel input base l n j 1
    w ← channel input base l n j 2
    h ← channel input base l n j 3
    some (record {
      x = fl.div (fl.add (of_nat (j % l.net_h)) x) (of_nat l.net_w);
      y = fl.div (fl.add (of_nat (j / l.net_w)) y) (of_nat l.net_h);
      w = fl.div (fl.mul (odds w) (of_nat anchor_w)) (of_nat d.fpga_netw);
      h = fl.div (fl.mul (odds h) (of_nat anchor_h)) (of_nat d.fpga_neth);
    })

  -- The probabilities of the classes from `k` on, with `m` left
  unfoldable pub class_probs :
      List fl.Float → fl.Float → ℕ → YoloLayer → ℕ → ℕ → fl.Float → ℕ → ℕ → Option (List fl.Float)
  class_probs input thresh base l n j objectness zero k = some []
  class_probs input thresh base l n j objectness (suc m) k =
      let rest = class_probs input thresh base l n j objectness m (suc k) in
      channel input base l n j (5 + k) >>= λ p.
      (let prob = fl.mul objectness p in
        rest >>= λ probs. some ((if fl.lt thresh prob then prob else fl.zero_float) ∷ probs))

  -- The detections filled so far; their number is `count`.
  abbrev pub Dets : Type 0
  Dets = List (Detection fl.Float)

  -- A detection written at `dets[count]` of an array of `num`
  unfoldable pub fill_one :
      NetDetect
      → List fl.Float
      → fl.Float
      → ℕ
      → ℕ
      → YoloLayer
      → ℕ
      → ℕ
      → fl.Float
      → Dets
      → Option Dets
  fill_one d input thresh num base l n j objectness dets =
      if ltb (length dets) num
      then (do
        bbox ← get_yolo_box2 d input base l n j
        prob ← class_probs input thresh base l n j objectness d.class_num 0
        some (
            dets
            ++ (record {
              bbox = bbox;
              classes = d.class_num;
              prob = prob;
              objectness = objectness;
              sort_class = 0;
            }
                ∷ [])))
      else none

  unfoldable pub fill_box :
      NetDetect → List fl.Float → fl.Float → ℕ → ℕ → YoloLayer → ℕ → ℕ → Dets → Option Dets
  fill_box d input thresh num base l n j dets = channel input base l n j 4 >>= λ objectness.
      if fl.lt thresh objectness && ltb (length dets) d.max_box_num
      then fill_one d input thresh num base l n j objectness dets
      else some dets

  -- The boxes of cell `j` from box `n` on, with `k` left
  unfoldable pub fill_cell :
      NetDetect → List fl.Float → fl.Float → ℕ → ℕ → YoloLayer → ℕ → ℕ → ℕ → Dets → Option Dets
  fill_cell d input thresh num base l j zero n dets = some dets
  fill_cell d input thresh num base l j (suc k) n dets =
      let rest = λ (filled : Dets). fill_cell d input thresh num base l j k (suc n) filled in
      fill_box d input thresh num base l n j dets >>= rest

  -- The cells of a layer from cell `j` on, with `m` left
  unfoldable pub fill_cells :
      NetDetect → List fl.Float → fl.Float → ℕ → ℕ → YoloLayer → ℕ → ℕ → Dets → Option Dets
  fill_cells d input thresh num base l zero j dets = some dets
  fill_cells d input thresh num base l (suc m) j dets =
      let rest = λ (filled : Dets). fill_cells d input thresh num base l m (suc j) filled in
      fill_cell d input thresh num base l j l.grid_box_num 0 dets >>= rest

  unfoldable pub fill_layers :
      NetDetect → List fl.Float → fl.Float → ℕ → ℕ → List YoloLayer → Dets → Option Dets
  fill_layers d input thresh num base [] dets = some dets
  fill_layers d input thresh num base (l ∷ ls) dets =
      let rest =
        λ (filled : Dets). fill_layers d input thresh num (base + l.output_size / 4) ls filled in
      fill_cells d input thresh num base l (cells_of l) 0 dets >>= rest

  -- `(src * net) / by` on `int`: `none` where the product overflows or the divisor is 0
  abbrev pub scaled : ℕ → ℕ → ℕ → Option ℕ
  scaled src net by = if ltb (src * net) (2 ^ 31) && ltb 0 by then some (src * net / by) else none

  -- The size of the picture in the network's input, which keeps its shape
  unfoldable pub fitted : NetDetect → ℕ → ℕ → Option (ℕ × ℕ)
  fitted d src_w src_h =
      if fl.lt (fl.div (of_nat d.fpga_netw) (of_nat src_w))
        (fl.div (of_nat d.fpga_neth) (of_nat src_h))
      then (scaled src_h d.fpga_netw src_w >>= λ new_h. some (d.fpga_netw, new_h))
      else (scaled src_w d.fpga_neth src_h >>= λ new_w. some (new_w, d.fpga_neth))

  -- A box in the picture's measure, from the network's
  unfoldable pub correct_box : NetDetect → ℕ × ℕ → Box fl.Float → Box fl.Float
  correct_box d (new_w, new_h) b =
      let deltaw = fl.sub (of_nat d.fpga_netw) (of_nat new_w) in
      let deltah = fl.sub (of_nat d.fpga_neth) (of_nat new_h) in
      let ratiow = fl.div (of_nat new_w) (of_nat d.fpga_netw) in
      let ratioh = fl.div (of_nat new_h) (of_nat d.fpga_neth) in
      record {
        x = fl.div (fl.sub b.x (fl.div (fl.half deltaw) (of_nat d.fpga_netw))) ratiow;
        y = fl.div (fl.sub b.y (fl.div (fl.half deltah) (of_nat d.fpga_neth))) ratioh;
        w = fl.mul b.w (fl.div one ratiow);
        h = fl.mul b.h (fl.div one ratioh);
      }

  -- `correctYoloBoxes`
  unfoldable pub correct_yolo_boxes : NetDetect → ℕ → ℕ → Dets → Option Dets
  correct_yolo_boxes d src_w src_h dets = fitted d src_w src_h >>= λ size.
      some (map (λ (e : Detection fl.Float). record e { bbox = correct_box d size e.bbox }) dets)

  -- `fillNetworkBoxes`, into an array of `num`
  unfoldable pub fill_network_boxes : NetDetect → List fl.Float → ℕ → ℕ → fl.Float → ℕ → Option Dets
  fill_network_boxes d input src_w src_h thresh num =
      fill_layers d input thresh num 0 d.vec_layer [] >>= λ dets.
      correct_yolo_boxes d src_w src_h dets
