-- ===== src/DataControl.antt =====
-- src/dataControl.cpp: the queue of pictures between the receiver and the detector. Each operation is
-- one step under the mutex. What leaves the queue is recorded: freed with its pixels, or handed to the
-- caller.
pub mod Ledger
mod Tests
use vcu.Prelude.{ℕ, List, [], ◌∷◌, ◌++◌, ltb, if◌then◌else◌, length}

-- `RgbData`, its pixels by their address
pub record RgbData : Type 0 where
  pub rgb : ℕ
  pub rgb_size : ℕ
  pub pic_id : ℕ

pub data Gone : Type 0 where
  freed handed : RgbData → Gone

pub record Queue : Type 0 where
  pub rgb_queue : List RgbData
  pub gone : List Gone

-- `front`, `pop` and the two `delete`s; `front` of an empty queue is not reached
unfoldable pub free_front : Queue → Queue
free_front q = elim q.rgb_queue [
  | [] ↦ q
  | p ∷ rest ↦ record { rgb_queue = rest; gone = q.gone ++ (freed p ∷ []) }
]

-- `setRgbData`
unfoldable pub set_rgb_data : RgbData → Queue → Queue
set_rgb_data p q =
    let q' = if ltb 10 (length q.rgb_queue) then free_front q else q in
    record q' { rgb_queue = q'.rgb_queue ++ (p ∷ []) }

-- The loop of `clearRgbData`, with the queue as its measure.
unfoldable pub clear_queue : List RgbData → List Gone → List Gone
clear_queue [] gone = gone
clear_queue (p ∷ rest) gone = clear_queue rest (gone ++ (freed p ∷ []))

-- `clearRgbData`
unfoldable pub clear_rgb_data : Queue → Queue
clear_rgb_data q = record { rgb_queue = []; gone = clear_queue q.rgb_queue q.gone }

-- One round of `getRgbData`; on an empty queue it sleeps and goes round again.
unfoldable pub get_rgb_data : Queue → Queue
get_rgb_data q = elim q.rgb_queue [
  | [] ↦ q
  | p ∷ rest ↦ record { rgb_queue = rest; gone = q.gone ++ (handed p ∷ []) }
]

pub data Call : Type 0 where
  set_call : RgbData → Call
  get_call clear_call : Call

unfoldable pub call : Call → Queue → Queue
call (set_call p) q = set_rgb_data p q
call get_call q = get_rgb_data q
call clear_call q = clear_rgb_data q

-- The calls of the threads, in the order in which they hold the mutex.
unfoldable pub calls : List Call → Queue → Queue
calls [] q = q
calls (c ∷ cs) q = calls cs (call c q)

abbrev pub empty_queue : Queue
empty_queue = record { rgb_queue = []; gone = [] }
