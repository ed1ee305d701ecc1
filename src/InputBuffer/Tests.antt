-- ===== src/InputBuffer/Tests.antt =====
-- Four buffers of ten bytes.
use vcu.Prelude.{ℕ, ◌+◌, ◌≤◌, ◌<◌, ◌≡◌, refl, none, arith}
use vcu.InputBuffer.{InputBufferManager, init, get_buffer_to_save_pic_mt}
use vcu.InputBuffer.Outstanding.{Reach, here, got, offset_of, Apart, get_buffer_disjoint}

abbrev held : ℕ → InputBufferManager
held p = record {
  buffer_index_produce = p;
  buffer_index_consume = 0;
  buffer_len = 10;
  buffer_num = 4;
}

held_two : Reach 4 10 (held 2) 2 0
unfolding init get_buffer_to_save_pic_mt
held_two = got 10 (held 2) (got 0 (held 1) here refl) refl

full_at_three : get_buffer_to_save_pic_mt (held 3) ≡ none
unfolding get_buffer_to_save_pic_mt
full_at_three = refl

get_buffer_disjoint_example :
    (2 + 2 ≤ 4) × (20 + 10 ≤ 40) × ((i : ℕ) → 0 ≤ i → i < 2 → Apart 10 20 (offset_of 4 10 i))
unfolding get_buffer_to_save_pic_mt
get_buffer_disjoint_example =
    get_buffer_disjoint 2 10 (held 2) (held 3) 2 0 20 (omega arith) (omega arith) held_two refl
