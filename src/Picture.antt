-- ===== src/Picture.antt =====
-- src/main.cpp: a decoded picture scaled, converted and put in the middle of what the detector takes.
-- libyuv and `float` are arguments; `none` is an access outside a block, and `pad_data` tells the kinds apart.
pub mod Padded
pub mod Narrow
mod Tests
use vcu.Prelude.{
  ℕ, zero, suc, ◌+◌, ◌-◌, ◌*◌, ◌/◌, ◌%◌, ◌^◌, Bool, ◌&&◌, ltb, Option, none, some, List, length,
  if◌then◌else◌,
}
use vcu.Prelude.Memory.{load, store, zeros, ◌>>=◌}

-- `float`, as far as the sizes need it: `half_up` adds 0.5 and converts to `int`.
pub record Reals : Type 1 where
  pub Float : Type 0
  pub of_int : ℕ → Float
  pub mul : Float → Float → Float
  pub div : Float → Float → Float
  pub lt : Float → Float → Bool
  pub half_up : Float → ℕ

-- The two calls of libyuv: the source with the offsets of its planes and its size, the offsets of the
-- planes written and their size, and the size of the block that is written; the block afterwards, or
-- none if a plane does not lie in its block.
pub record Libyuv : Type 0 where
  pub i420_scale : List ℕ → ℕ → ℕ → ℕ → ℕ → ℕ → ℕ → ℕ → ℕ → ℕ → Option (List ℕ)
  pub i420_to_rgb24 : List ℕ → ℕ → ℕ → ℕ → ℕ → ℕ → Option (List ℕ)

pub record RgbData2 : Type 0 where
  pub p_data : List ℕ
  pub len : ℕ
  pub src_h : ℕ
  pub src_w : ℕ
  pub scale_h : ℕ
  pub scale_w : ℕ

-- The size of what the detector takes
pub record Target : Type 0 where
  pub detect_h : ℕ
  pub detect_w : ℕ

-- The offsets of a pixel in what `pad_data` writes, and in what it reads: row `i`, column `j`
abbrev pub pad_pos : Target → ℕ → ℕ → ℕ
pad_pos t i j = (i * t.detect_w + j) * 4 % 2 ^ 32

abbrev pub pixel_pos : Target → ℕ → ℕ → ℕ
pixel_pos t i j = (i * t.detect_w * 3 + j * 3) % 2 ^ 32

-- How `pad_data` ends: with the block, in a read or a write outside a block, or in an `int` that overflows
pub data Copied : Type 0 where
  copied : List ℕ → Copied
  bad_read bad_write bad_int : Copied

abbrev pub on_read : Option (List ℕ) → (List ℕ → Copied) → Copied
on_read none next = bad_read
on_read (some bytes) next = next bytes

abbrev pub on_write : Option (List ℕ) → (List ℕ → Copied) → Copied
on_write none next = bad_write
on_write (some block) next = next block

abbrev pub on_copied : Copied → (List ℕ → Copied) → Copied
on_copied (copied out) next = next out
on_copied bad_read next = bad_read
on_copied bad_write next = bad_write
on_copied bad_int next = bad_int

-- The block of a run that ends
abbrev pub block_of : Copied → Option (List ℕ)
block_of (copied out) = some out
block_of bad_read = none
block_of bad_write = none
block_of bad_int = none

-- The inner loop of `pad_data`: `n` more columns, `j` behind `begin_w`
unfoldable pub pad_row : Target → List ℕ → ℕ → ℕ → ℕ → ℕ → ℕ → List ℕ → Copied
pad_row t rgb begin_h begin_w i zero j out = copied out
pad_row t rgb begin_h begin_w i (suc n) j out = on_read (load rgb (pixel_pos t i j) 3) (λ pixel.
    on_write (store out (pad_pos t (begin_h + i) (begin_w + j)) pixel)
      (λ out'. pad_row t rgb begin_h begin_w i n (suc j) out'))

-- The outer loop: `n` more rows, `i` behind `begin_h`
unfoldable pub pad_rows : Target → RgbData2 → ℕ → ℕ → ℕ → ℕ → List ℕ → Copied
pad_rows t r begin_h begin_w zero i out = copied out
pad_rows t r begin_h begin_w (suc n) i out =
    on_copied (pad_row t r.p_data begin_h begin_w i r.scale_w 0 out)
      (λ out'. pad_rows t r begin_h begin_w n (suc i) out')

abbrev pub margin : ℕ → ℕ → ℕ
margin detect scale = (detect + 2 ^ 32 - scale) % 2 ^ 32 / 2

-- `int end = scale + begin`, as far as it does not overflow
abbrev pub ends_in_range : ℕ → ℕ → Bool
ends_in_range detect scale = ltb (scale + margin detect scale) (2 ^ 31)

unfoldable pub pad_data : Target → RgbData2 → Copied
pad_data t r =
    if ends_in_range t.detect_h r.scale_h && ends_in_range t.detect_w r.scale_w
    then pad_rows t r (margin t.detect_h r.scale_h) (margin t.detect_w r.scale_w) r.scale_h 0
        (zeros (t.detect_w * t.detect_h * 4 % 2 ^ 32))
    else bad_int

-- The static variables of `yuv_to_rgb_scale`, which its first call sets
pub record Sizes : Type 0 where
  pub real_height : ℕ
  pub real_width : ℕ
  pub y_src_pos : ℕ
  pub u_src_pos : ℕ
  pub y_dst_pos : ℕ
  pub u_dst_pos : ℕ

unfoldable pub sizes : Reals → Target → ℕ → ℕ → Sizes
sizes fl t src_height src_width =
    let ratio1 = fl.div (fl.of_int t.detect_h) (fl.of_int src_height) in
    let ratio2 = fl.div (fl.of_int t.detect_w) (fl.of_int src_width) in
    let ratio = if fl.lt ratio1 ratio2 then ratio1 else ratio2 in
    let height = fl.half_up (fl.mul ratio (fl.of_int src_height)) in
    let width = fl.half_up (fl.mul ratio (fl.of_int src_width)) in
    record {
      real_height = height;
      real_width = width;
      y_src_pos = src_height * src_width;
      u_src_pos = src_width * src_height * 5 / 4;
      y_dst_pos = height * width;
      u_dst_pos = height * width * 5 / 4;
    }

-- `yuv_to_rgb_scale`, with its static variables as they are once set
unfoldable pub yuv_to_rgb_scale : Libyuv → Sizes → List ℕ → ℕ → ℕ → Option RgbData2
yuv_to_rgb_scale lib z yuv src_height src_width = do
  dst ←
      lib.i420_scale yuv z.y_src_pos z.u_src_pos src_width src_height (length yuv) z.y_dst_pos
        z.u_dst_pos z.real_width z.real_height
  rgb ←
      lib.i420_to_rgb24 dst z.y_dst_pos z.u_dst_pos z.real_width z.real_height
        (z.real_height * z.real_width * 3)
  some (record {
    p_data = rgb;
    len = z.real_height * z.real_width * 3;
    src_h = src_height;
    src_w = src_width;
    scale_h = z.real_height % 2 ^ 16;
    scale_w = z.real_width % 2 ^ 16;
  })
