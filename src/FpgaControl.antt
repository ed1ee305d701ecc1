-- ===== src/FpgaControl.antt =====
-- src/fpgaControl.h, src/fpgaControl.cpp, inc/config.h: the pictures between `input` and
-- `output_thread`. The device is one, as the configurations have it, one thread calls `input`, and
-- nothing stops the threads. Both sides are cut where the other can see a difference: behind `push`
-- and behind the release of `sem_input`, behind the release of `semInput` and behind the callback.
pub mod Matched
mod Tests
use vcu.Prelude.{ℕ, suc, ◌+◌, ◌%◌, ◌^◌, ◌≡◌, Option, none, some, List, [], ◌∷◌, ◌++◌}

-- `FPGA_CFG_IO_DATA_MAX_NUM`
abbrev pub io_data_max_num : ℕ
io_data_max_num = 8

-- The slot of the device's memory for a picture's index, on 32 bits
abbrev pub slot_of : ℕ → ℕ → ℕ
slot_of start index = (index + start) % 2 ^ 32 % io_data_max_num

-- `++vecInputIndex[index]`, `++vecOutputIndex[index]`
abbrev pub next_index : ℕ → ℕ
next_index index = (index + 1) % 2 ^ 32

-- The statics for the device. `writing` is the picture of a call of `input` that has pushed it,
-- `reading` that of a round of `output_thread` that has popped it; `written` and `given` record the
-- slots to which pictures were written, and from which the callback got their results.
pub record Fpga {ℓ} (A : Type ℓ) : Type ℓ where
  pub start_index : ℕ
  pub input_index : ℕ
  pub output_index : ℕ
  pub sem_free : ℕ
  pub sem_input : ℕ
  pub que_input : List A
  pub writing : Option A
  pub reading : Option A
  pub written : List (A × ℕ)
  pub given : List (A × ℕ)

-- `initIndex`, where the device's register stands at `start`; `semInput` has two permits.
abbrev pub init_index {ℓ} : {A : Type ℓ} → ℕ → Fpga A
init_index start = record {
  start_index = start;
  input_index = 0;
  output_index = 0;
  sem_free = 2;
  sem_input = 0;
  que_input = [];
  writing = none;
  reading = none;
  written = [];
  given = [];
}

-- `input` up to `push`, once it has a permit
abbrev pub push_input {ℓ} : {A : Type ℓ} → A → ℕ → Fpga A → Fpga A
push_input x permits s = record s {
  sem_free = permits;
  que_input = s.que_input ++ (x ∷ []);
  writing = some x;
}

-- The rest of `input`
abbrev pub write_input {ℓ} : {A : Type ℓ} → A → Fpga A → Fpga A
write_input x s = record s {
  sem_input = suc s.sem_input;
  input_index = next_index s.input_index;
  writing = none;
  written = s.written ++ ((x, slot_of s.start_index s.input_index) ∷ []);
}

-- `output_thread` up to the release of `semInput`, once the device has a result
abbrev pub pop_input {ℓ} : {A : Type ℓ} → A → List A → ℕ → Fpga A → Fpga A
pop_input x others inputs s = record s {
  sem_input = inputs;
  que_input = others;
  sem_free = suc s.sem_free;
  reading = some x;
}

-- The rest of its round
abbrev pub give_output {ℓ} : {A : Type ℓ} → A → Fpga A → Fpga A
give_output x s = record s {
  output_index = next_index s.output_index;
  reading = none;
  given = s.given ++ ((x, slot_of s.start_index s.output_index) ∷ []);
}

-- The steps of the two sides
pub data Step {ℓ} {A : Type ℓ} : Fpga A → Fpga A → Type ℓ where
  pushes :
      (s : Fpga A) (x : A) (permits : ℕ)
      → s.sem_free ≡ suc permits
      → s.writing ≡ none
      → Step s (push_input x permits s)
  writes : (s : Fpga A) (x : A) → s.writing ≡ some x → Step s (write_input x s)
  pops :
      (s : Fpga A) (x : A) (others : List A) (inputs : ℕ)
      → s.sem_input ≡ suc inputs
      → s.reading ≡ none
      → s.que_input ≡ x ∷ others
      → Step s (pop_input x others inputs s)
  gives : (s : Fpga A) (x : A) → s.reading ≡ some x → Step s (give_output x s)

-- The states that come about in any order of the steps
pub data Reach {ℓ} {A : Type ℓ} (start : ℕ) : Fpga A → Type ℓ where
  starts : Reach start (init_index start)
  goes_on : {s s' : Fpga A} → Reach start s → Step s s' → Reach start s'
