-- ===== src/Main.antt =====
-- src/main.cpp: the decoded pictures on their way to the FPGA, and the timestamps of the frames that wait for
-- them. The callback of the decoder is cut in two where other threads can see a difference: behind the
-- time taken, and behind the picture queued.
pub mod Events
pub mod Steps
pub mod Stamps
mod Tests
use vcu.Prelude.{
  ℕ, ◌*◌, ◌%◌, ◌^◌, Bool, true, false, ◌||◌, not, Option, none, some, List, [], ◌∷◌, ◌++◌, length,
  ltb, if◌then◌else◌,
}
use vcu.Prelude.Outcome.{Outcome, done, aborted, access, ◌>>=◌}
use vcu.RtpDataManager.Thread.{CodecType, h264, h265}
use vcu.VcuControl.{VcuControl, push_data, restart_control}
use vcu.Picture.{Reals, Libyuv, Target, Sizes, sizes, yuv_to_rgb_scale, block_of, pad_data}

pub record FpgaInput : Type 0 where
  pub in_data : List ℕ
  pub in_data_len : ℕ
  pub pic_id : ℕ
  pub src_h : ℕ
  pub src_w : ℕ

-- What became of a picture that left `pic_queue`: deleted, or handed to `FPGAControl::input`
pub data Departed : Type 0 where
  freed handed : FpgaInput → Departed

-- The variables that the threads share. `making` is the picture of a call of `vcu_callback` that has
-- its time and is not queued; `gone` records what left `pic_queue`.
pub record Feed : Type 0 where
  pub isfirst : Bool
  pub que_timestamp : List ℕ
  pub set_sizes : Option Sizes
  pub making : Option FpgaInput
  pub pic_queue : List FpgaInput
  pub gone : List Departed
  pub vcu : VcuControl

abbrev is_h265 : CodecType → Bool
is_h265 h264 = false
is_h265 h265 = true

-- What `rtp_callback` makes of `isfirst`, and what it adds to the queue of times
unfoldable pub note_mark : CodecType → Bool → Bool → ℕ → Bool × List ℕ
note_mark codec mark first time =
    if mark
    then if not first || is_h265 codec then (first, time ∷ []) else (false, [])
    else (first, [])

unfoldable pub rtp_callback : CodecType → List ℕ → Bool → ℕ → Feed → Outcome Feed
rtp_callback codec pdata mark time s = do
  v ← push_data pdata s.vcu
  let (first, added) = note_mark codec mark s.isfirst time
  done (record s { vcu = v; isfirst = first; que_timestamp = s.que_timestamp ++ added })

-- `vcu_callback` from the lock of `mutex_timestamp` to the lock of `pic_mutex`, on the times that wait. The
-- assertion is taken as compiled in.
unfoldable pub make_picture :
    Reals → Libyuv → Target → List ℕ → ℕ → ℕ → Feed → List ℕ → Outcome Feed
make_picture fl lib t yuv height width s [] = aborted
make_picture fl lib t yuv height width s (time ∷ times) = do
  let z : Sizes = elim s.set_sizes [ some z ↦ z | none ↦ sizes fl t height width ]
  rgb ← access (yuv_to_rgb_scale lib z yuv height width)
  pad ← access (block_of (pad_data t rgb))
  done (record s {
    que_timestamp = times;
    set_sizes = some z;
    making = some (record {
      in_data = pad;
      in_data_len = t.detect_w * t.detect_h * 4 % 2 ^ 32;
      pic_id = time;
      src_h = height;
      src_w = width;
    });
  })

-- `vcu_callback` up to the lock of `pic_mutex`, on the picture's bytes and size
unfoldable pub take_stamp : Reals → Libyuv → Target → Bool → List ℕ → ℕ → ℕ → Feed → Outcome Feed
take_stamp fl lib t can_send_box yuv height width s =
    if not can_send_box then done s else make_picture fl lib t yuv height width s s.que_timestamp

-- The deletion of the head, before a picture is queued
unfoldable pub drop_head : List FpgaInput → List Departed → List FpgaInput × List Departed
drop_head [] gone = ([], gone)
drop_head (p ∷ rest) gone =
    if ltb 1 (length (p ∷ rest)) then (rest, gone ++ (freed p ∷ [])) else (p ∷ rest, gone)

-- The rest of `vcu_callback`, where it has made a picture
unfoldable pub queue_picture : FpgaInput → Feed → Feed
queue_picture p s =
    let (queue, gone) = drop_head s.pic_queue s.gone in
    record s { making = none; pic_queue = queue ++ (p ∷ []); gone = gone }

-- A round of `input_thread_fromvcu`; on an empty queue it sleeps.
unfoldable pub input_round : Feed → Feed
input_round s = elim s.pic_queue [
  | [] ↦ s
  | p ∷ rest ↦ record s { pic_queue = rest; gone = s.gone ++ (handed p ∷ []) }
]

-- The loop of `clear`, with the queue as its measure
unfoldable pub free_all : List FpgaInput → List Departed → List Departed
free_all [] gone = gone
free_all (p ∷ rest) gone = free_all rest (gone ++ (freed p ∷ []))

-- `clear`, which `DataSend` calls when a client has connected
unfoldable pub clear_feed : Feed → Outcome Feed
clear_feed s = restart_control s.vcu >>= λ v. done (record s {
  isfirst = true;
  que_timestamp = [];
  pic_queue = [];
  gone = free_all s.pic_queue s.gone;
  vcu = v;
})
