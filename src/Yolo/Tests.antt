-- ===== src/Yolo/Tests.antt =====
-- Two cells with a box each above the threshold, and one detection at most.
use vcu.Prelude.{ℕ, zero, suc, ◌+◌, ◌*◌, ◌≤◌, ◌<◌, ◌≡◌, refl, some, List, [], ◌∷◌, arith}
use vcu.Prelude.{length, get_elem?, replicate, length-replicate}
use vcu.Prelude.{pos}
use vcu.Detect.{Detection, greedy_nms}
use vcu.Detect.Tests.{naturals}
use vcu.Yolo.{
  YoloLayer, NetDetect, make_network_boxes, count_layers, count_boxes, count_cells,
  fill_network_boxes,
}
use vcu.Yolo.Counted.{AreLayers}
use vcu.Yolo.Filled.{IsPicture, network_boxes-filled}
use vcu.Yolo.Sized.{IsSort}
use vcu.Yolo.Infos.{BoxInfo2, get_detect_box_info}
use vcu.Yolo.Inside.{AreInside, box_infos-AreInside}

abbrev layer : YoloLayer
layer = record {
  net_w = 2;
  net_h = 1;
  net_c = 85;
  output_size = 680;
  grid_box_num = 1;
  mask = 0 ∷ [];
}

abbrev net : NetDetect
net = record {
  max_box_num = 1;
  class_num = 1;
  fpga_netw = 416;
  fpga_neth = 416;
  anchor_arr = 10 ∷ 20 ∷ [];
  vec_layer = layer ∷ [];
}

abbrev output : List ℕ
output = replicate 170 5

two_above : count_layers naturals (λ n. n) 1 output 4 0 (layer ∷ []) ≡ some 2
unfolding count_layers count_boxes count_cells
two_above = refl

first_anchor :
    (n : ℕ) → n < 1 → (kind : ℕ) × (get_elem? (0 ∷ []) n ≡ some kind) × (2 * kind + 1 < 2)
first_anchor zero h = (0, refl, omega arith)
first_anchor (suc n) h = absurd (omega arith)

net-AreLayers : AreLayers net (length output) 0 (layer ∷ [])
net-AreLayers = (
  record {
    inside = omega (arith, length-replicate {A = ℕ} 170 5);
    boxes = omega arith;
    classes = omega arith;
    anchors = first_anchor;
  },
  tt,
)

picture : IsPicture net 640 480
picture = record {
  columns = omega arith;
  rows = omega arith;
  tall = omega arith;
  wide = omega arith;
}

keeps_order : IsSort naturals (λ dets. dets)
keeps_order = record { count = λ dets. refl; members = λ p dets h. h }

network_boxes-filled_example :
    (num : ℕ) × (dets : List (Detection ℕ)) × (make_network_boxes naturals (λ n. n) 1 net output 4
      ≡ some num)
    × (fill_network_boxes naturals (λ n. n) 1 net output 640 480 4 num ≡ some dets)
    × (length dets ≡ num)
    × (num ≤ 1)
network_boxes-filled_example =
    network_boxes-filled naturals (λ n. n) 1 net output 640 480 4 net-AreLayers picture

box_infos-AreInside_example :
    (infos : List (BoxInfo2 ℕ)) × (get_detect_box_info naturals
        (λ n. n)
        pos
        1
        (λ dets. dets)
        net
        greedy_nms
        4
        1
        0
        output
        640
        480
      ≡ some infos)
    × (length infos ≤ 1)
    × AreInside 640 480 infos
box_infos-AreInside_example =
    box_infos-AreInside naturals (λ n. n) pos 1 (λ dets. dets) net greedy_nms 4 1 0 output 640 480
      keeps_order net-AreLayers (omega arith) picture
