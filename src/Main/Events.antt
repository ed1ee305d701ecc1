-- ===== src/Main/Events.antt =====
-- The steps of the threads, and the times and the pictures that a run of them has seen.
use vcu.Prelude.{
  ℕ, suc, ◌≡◌, Bool, true, false, Option, none, some, List, [], ◌∷◌, ◌++◌, map, drop, if◌then◌else◌,
}
use vcu.Prelude.Outcome.{Outcome, done}
use vcu.RtpDataManager.Thread.{CodecType, h264, h265}
use vcu.Picture.{Reals, Libyuv, Target}
use vcu.Main.{
  FpgaInput, Departed, freed, handed, Feed, rtp_callback, take_stamp, queue_picture, input_round,
}

-- What the threads do, one step at a time.
pub data Event : Type 0 where
  packet : List ℕ → Bool → ℕ → Event
  decoded : Bool → List ℕ → ℕ → ℕ → Event
  queued : FpgaInput → Event
  round : Event

-- The decoder calls back once at a time.
abbrev pub Can : Event → Feed → Type 0
Can (packet pdata mark time) s = Unit
Can (decoded can yuv height width) s = s.making ≡ none
Can (queued p) s = s.making ≡ some p
Can round s = Unit

abbrev pub as_list {ℓ} : {A : Type ℓ} → Option A → List A
as_list none = []
as_list (some x) = x ∷ []

abbrev pub picture : Departed → FpgaInput
picture (freed p) = p
picture (handed p) = p

abbrev pub id_of : FpgaInput → ℕ
id_of p = p.pic_id

-- The ids of the pictures made, oldest first.
abbrev pub ids : Feed → List ℕ
ids s = map id_of (map picture s.gone ++ (s.pic_queue ++ as_list s.making))

-- The times of the marked packets, the latest event standing first.
abbrev pub marks : List Event → List ℕ
marks [] = []
marks (packet pdata mark time ∷ es) = if mark then marks es ++ (time ∷ []) else marks es
marks (decoded can yuv height width ∷ es) = marks es
marks (queued p ∷ es) = marks es
marks (round ∷ es) = marks es

-- The first frame of an H.264 stream has no picture of its own.
abbrev pub awaited : CodecType → List ℕ → List ℕ
awaited h264 times = drop 1 times
awaited h265 times = times

-- Whether the next marked packet is the one that is passed over.
abbrev pub passes_over : CodecType → List ℕ → Bool
passes_over h264 [] = true
passes_over h264 (time ∷ times) = false
passes_over h265 times = true

-- How many pictures came while the client wanted boxes.
abbrev pub taken : List Event → ℕ
taken [] = 0
taken (packet pdata mark time ∷ es) = taken es
taken (decoded can yuv height width ∷ es) = if can then suc (taken es) else taken es
taken (queued p ∷ es) = taken es
taken (round ∷ es) = taken es

-- The program at its start, or behind `clear` with nothing being made.
abbrev pub IsFresh : Feed → Type 0
IsFresh s = (s.isfirst ≡ true) × (s.que_timestamp ≡ []) × (s.making ≡ none) × (s.pic_queue ≡ [])

module _ (fl : Reals) (lib : Libyuv) (t : Target) (codec : CodecType) where
  abbrev pub step : Event → Feed → Outcome Feed
  step (packet pdata mark time) s = rtp_callback codec pdata mark time s
  step (decoded can yuv height width) s = take_stamp fl lib t can yuv height width s
  step (queued p) s = done (queue_picture p s)
  step round s = done (input_round s)

  -- The states that the threads reach, however their steps interleave.
  pub data Runs (start : Feed) : List Event → Feed → Type 0 where
    starts : Runs start [] start
    goes_on :
        {es : List Event} {s s' : Feed}
        → Runs start es s
        → (e : Event) → Can e s
        → step e s ≡ done s'
        → Runs start (e ∷ es) s'
