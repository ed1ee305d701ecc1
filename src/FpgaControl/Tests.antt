-- ===== src/FpgaControl/Tests.antt =====
-- Two pictures, the first of which is popped while the second is written.
use vcu.Prelude.{ℕ, ◌+◌, ◌≤◌, ◌≡◌, ◌≢◌, refl, List, [], ◌∷◌, ◌++◌, arith, length}
use vcu.FpgaControl.{
  Fpga, Reach, starts, goes_on, pushes, writes, pops, push_input, write_input, pop_input,
  init_index, slot_of,
}
use vcu.FpgaControl.Matched.{as_list, slotted, plus, results-matched}

abbrev one_written : Fpga ℕ
one_written = write_input 11 (push_input 11 1 (init_index 6))

abbrev two_pushed : Fpga ℕ
two_pushed = push_input 12 0 one_written

abbrev one_popped : Fpga ℕ
one_popped = pop_input 11 (12 ∷ []) 0 two_pushed

one_popped-Reach : Reach 6 one_popped
one_popped-Reach =
    goes_on
      (goes_on
        (goes_on (goes_on starts (pushes (init_index 6) 11 1 refl refl))
          (writes (push_input 11 1 (init_index 6)) 11 refl))
        (pushes one_written 12 0 refl refl))
      (pops two_pushed 11 (12 ∷ []) 0 refl refl refl)

results-matched_example :
    (pending : List ℕ) × (one_popped.written ≡ one_popped.given ++ slotted 6 0 pending)
    × (length pending + length (as_list (one_popped.writing)) ≤ 3)
    × (slot_of 6 (plus 0 0) ≢ slot_of 6 (plus 0 2))
    × (one_popped.sem_input ≤ length (one_popped.que_input))
results-matched_example =
    results-matched 6 one_popped 0 2 (omega arith) (omega arith) (omega arith) one_popped-Reach
