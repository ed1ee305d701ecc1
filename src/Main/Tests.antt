-- ===== src/Main/Tests.antt =====
-- Two frames and two pictures, with natural numbers for `float`.
use vcu.Prelude.{
  ℕ, ◌*◌, ◌/◌, ◌≤◌, ◌≡◌, ◌↔◌, refl, true, none, some, List, [], ◌∷◌, ◌++◌, length, get_elem?, ltb,
}
use vcu.Prelude.Memory.{zeros, load, store}
use vcu.Prelude.Outcome.{Outcome, done, aborted, overrun}
use vcu.RtpDataManager.Thread.{h264}
use vcu.VcuControl.{instance_of, push_data}
use vcu.Picture.{Reals, Libyuv, Target, sizes, yuv_to_rgb_scale, pad_row, pad_rows, pad_data}
use vcu.Main.{
  FpgaInput, Feed, note_mark, rtp_callback, make_picture, take_stamp, drop_head, queue_picture,
}
use vcu.Main.Events.{
  Event, packet, decoded, queued, ids, marks, awaited, taken, Runs, starts, goes_on,
}
use vcu.Main.Stamps.{stamped, late_stamp}

abbrev whole : Reals
whole = record {
  Float = ℕ;
  of_int = λ n. n;
  mul = λ a b. a * b;
  div = λ a b. a / b;
  lt = ltb;
  half_up = λ a. a;
}

abbrev black : Libyuv
black = record {
  i420_scale = λ src y u w h size dy du dw dh. some (zeros size);
  i420_to_rgb24 = λ src y u w h size. some (zeros size);
}

abbrev square : Target
square = record { detect_h = 2; detect_w = 2 }

abbrev at_start : Feed
at_start = record {
  isfirst = true;
  que_timestamp = [];
  set_sizes = none;
  making = none;
  pic_queue = [];
  gone = [];
  vcu = record (instance_of h264) { has_vcu = true };
}

abbrev yuv : List ℕ
yuv = zeros 6

abbrev value : Outcome Feed → Feed
value (done s) = s
value aborted = at_start
value overrun = at_start

abbrev marked : List Event
marked = packet (9 ∷ []) true 7 ∷ packet [] true 5 ∷ []

abbrev with_times : Feed
unfolding rtp_callback note_mark push_data
with_times =
    value (rtp_callback h264 (9 ∷ []) true 7 (value (rtp_callback h264 [] true 5 at_start)))

with_times-Runs : Runs whole black square h264 at_start marked with_times
unfolding rtp_callback note_mark push_data
with_times-Runs =
    goes_on (goes_on starts (packet [] true 5) tt refl) (packet (9 ∷ []) true 7) tt refl

abbrev shown : FpgaInput
shown = record { in_data = zeros 16; in_data_len = 16; pic_id = 7; src_h = 2; src_w = 2 }

abbrev made : Feed
made = record with_times {
  que_timestamp = [];
  set_sizes = some (sizes whole square 2 2);
  making = some shown;
}

abbrev queued_once : Feed
unfolding queue_picture drop_head
queued_once = queue_picture shown made

abbrev seen : List Event
seen = queued shown ∷ decoded true yuv 2 2 ∷ marked

seen-Runs : Runs whole black square h264 at_start seen queued_once
unfolding rtp_callback note_mark push_data take_stamp make_picture sizes yuv_to_rgb_scale pad_data
    pad_rows pad_row load store queue_picture drop_head
seen-Runs =
    goes_on (goes_on with_times-Runs (decoded true yuv 2 2) refl refl) (queued shown) refl refl

stamped_example :
    (stamps : List ℕ) × (stamps ++ queued_once.que_timestamp ≡ awaited h264 (marks seen))
    × (length stamps ≡ taken seen)
    × (ids queued_once ≡ ids at_start ++ stamps)
    × (length (queued_once.pic_queue) ≤ 2)
stamped_example =
    stamped whole black square h264 at_start seen queued_once (refl, refl, refl, refl) seen-Runs

late_stamp_example :
    ((take_stamp whole black square true yuv 2 2 with_times ≡ aborted)
      ↔ (taken marked ≡ length (awaited h264 (marks marked))))
    × ((s' : Feed)
        → take_stamp whole black square true yuv 2 2 with_times ≡ done s'
        → (p : FpgaInput) × (s'.making ≡ some p)
          × (get_elem? (awaited h264 (marks marked)) (taken marked) ≡ some (p.pic_id)))
late_stamp_example =
    late_stamp whole black square h264 at_start marked with_times yuv 2 2 (refl, refl, refl, refl)
      with_times-Runs
