-- ===== src/InputBuffer.antt =====
-- src/picBufferManager.hpp: `InputBufferManager`, the ring of picture buffers between the capture and
-- the detection. Each operation runs under `buffer_mutex`, so it is one step.
pub mod Outstanding
mod Tests
use vcu.Prelude.{ℕ, ◌+◌, ◌-◌, ◌*◌, ◌%◌, ◌^◌, Option, none, some, Bool, ltb, if◌then◌else◌, bit_and}

-- `pBuffer` is a block of `buffer_len * buffer_num` bytes; `n` is `buffer_num - 1`.
pub record InputBufferManager : Type 0 where
  pub buffer_index_produce : ℕ
  pub buffer_index_consume : ℕ
  pub buffer_len : ℕ
  pub buffer_num : ℕ

-- `InputBufferManager(int _size, int len)` with `init`
unfoldable pub init : ℕ → ℕ → InputBufferManager
init size len = record {
  buffer_index_produce = 0;
  buffer_index_consume = 0;
  buffer_len = len;
  buffer_num = size;
}

unfoldable pub re_init : InputBufferManager → InputBufferManager
re_init m = record m { buffer_index_produce = 0; buffer_index_consume = 0 }

-- `buffer_index_produce - buffer_index_consume > n - 1`, in 64-bit unsigned arithmetic
abbrev pub is_full : InputBufferManager → Bool
is_full m =
    ltb ((m.buffer_num + 2 ^ 64 - 2) % 2 ^ 64)
      ((m.buffer_index_produce + 2 ^ 64 - m.buffer_index_consume) % 2 ^ 64)

-- One attempt of `getBufferToSavePicMt`: the offset of the buffer in `pBuffer` and the manager
-- afterwards, or `none` where it sleeps and tries again.
unfoldable pub get_buffer_to_save_pic_mt : InputBufferManager → Option (ℕ × InputBufferManager)
get_buffer_to_save_pic_mt m =
    if is_full m
    then none
    else some (
      bit_and m.buffer_index_produce (m.buffer_num - 1) * m.buffer_len,
      record m { buffer_index_produce = (m.buffer_index_produce + 1) % 2 ^ 64 },
    )

-- `getBufferToSavePicMtTest`, which does not wait
unfoldable pub get_buffer_to_save_pic_mt_test : InputBufferManager → ℕ × InputBufferManager
get_buffer_to_save_pic_mt_test m = (
  m.buffer_index_produce % m.buffer_num * m.buffer_len,
  record m { buffer_index_produce = (m.buffer_index_produce + 1) % 2 ^ 64 },
)

unfoldable pub release_buffer_mt : InputBufferManager → InputBufferManager
release_buffer_mt m = record m { buffer_index_consume = (m.buffer_index_consume + 1) % 2 ^ 64 }
