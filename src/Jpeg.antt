-- ===== src/Jpeg.antt =====
-- src/fpgaDecode.cpp: a JPEG file taken apart into the tables and the data that the FPGA decodes. The file
-- and the three blocks that the caller gives are lists of bytes; the block of the data is new.
pub mod Markers
pub mod Rounds
pub mod Segments
pub mod Codes
pub mod Ends
pub mod Contents
pub mod Decoded
pub mod Endless
mod Tests
use vcu.Prelude.{
  ℕ, zero, suc, ◌+◌, ◌-◌, ◌*◌, ◌/◌, ◌%◌, ◌^◌, Bool, true, false, ◌&&◌, ◌==◌, not, Option, none,
  some, List, [], ◌∷◌, ◌++◌, length, ltb, if◌then◌else◌, get_elem?, replicate,
}
use vcu.Prelude.Memory.{load, store, zeros}
use vcu.Prelude.Outcome.{Outcome, done, overrun, access, ◌>>=◌, ◌>>◌}
use vcu.RtpModel.{be16}

-- The variables of `getDecodeTable`. `pos_tot` is also where `pFileData` points; `pos_qt`, `pos_head`
-- and `pos_huff` are the places in the three blocks.
pub record Tables : Type 0 where
  pub pos_tot : ℕ
  pub head : List ℕ
  pub pos_head : ℕ
  pub qt : List ℕ
  pub pos_qt : ℕ
  pub huff : List ℕ
  pub pos_huff : ℕ
  pub huff_length : ℕ

-- -1, or 0 with `pDetData`, which only the start of the data sets; its size is `Detlen`.
pub data Reply : Type 0 where
  refused : Reply
  parsed : Tables → Option (List ℕ) → Reply

-- How a round of the loop ends
pub data Turn : Type 0 where
  goes_on : Tables → Turn
  ends : Reply → Turn

-- The first bytes of a number in memory, low byte first
abbrev pub le_bytes : ℕ → ℕ → List ℕ
le_bytes zero n = []
le_bytes (suc k) n = n % 256 ∷ le_bytes k (n / 256)

abbrev pub byte_at : List ℕ → ℕ → Outcome ℕ
byte_at file i = access (get_elem? file i)

-- `getDataLength`
unfoldable pub get_data_length : List ℕ → ℕ → Outcome ℕ
get_data_length file i = do hi ← byte_at file i; lo ← byte_at file (i + 1); done (be16 hi lo)

-- The head as it is set up behind the test of the file's start, at 32 then
unfoldable pub start_head : List ℕ → Outcome (List ℕ)
start_head head = do
  h ← access (
      store head 0 (
        le_bytes 4 0x3C000100
        ++ (le_bytes 3 0x08
            ++ (le_bytes 1 0x01
                ++ (le_bytes 4 0x3C000200
                    ++ (le_bytes 3 0x23 ++ (le_bytes 1 0x01 ++ le_bytes 4 0x3C001500)))))))
  h' ← access (store h 23 (le_bytes 1 0x01))
  h'' ← access (store h' 28 (le_bytes 3 0xF000 ++ le_bytes 1 0x01))
  access (store h'' 92 (le_bytes 4 0xFFFFFFFF))

-- `case QUANTIFY`. A negative size is no size of a block.
unfoldable pub quantify : List ℕ → Tables → Outcome Turn
quantify file s = do
  len ← get_data_length file s.pos_tot
  values ← access (if ltb len 3 then none else load file (s.pos_tot + 3) (len - 3))
  qt ← access (store s.qt s.pos_qt values)
  done (goes_on (record s { pos_tot = s.pos_tot + 3; qt = qt; pos_qt = s.pos_qt + (len - 3) }))

-- The loops that copy every `step`-th byte to `to` and behind it: `n` more, from `from`
unfoldable pub copy_every : ℕ → List ℕ → ℕ → ℕ → ℕ → List ℕ → Outcome (List ℕ)
copy_every step file zero from to head = done head
copy_every step file (suc n) from to head = do
  b ← byte_at file (from + step)
  head' ← access (store head to (b ∷ []))
  copy_every step file n (from + step) (to + 1) head'

-- `case IMGINFO`
unfoldable pub img_info : List ℕ → Tables → Outcome Turn
img_info file s = do
  len ← get_data_length file s.pos_tot
  height ← get_data_length file (s.pos_tot + 3)
  width ← get_data_length file (s.pos_tot + 5)
  if height == 512 && width == 640
      then (do
        head ← access (store s.head s.pos_head (le_bytes 2 height ++ le_bytes 2 width))
        count ← byte_at file (s.pos_tot + 7)
        head' ← copy_every 3 file count (s.pos_tot + 7) (s.pos_head + 4) head
        done (goes_on (record s { head = head'; pos_head = s.pos_head + 4 + count })))
      else done (ends refused)

-- The values that the loop over the 16 lengths puts into `pdata`, before `ntohs`. `int8_t count` is
-- negative from 128 on, and nothing is counted then.
unfoldable pub first_codes : ℕ → List ℕ → List ℕ
first_codes value [] = []
first_codes value (c ∷ cs) =
    (if c == 0 then 0 else value)
    ∷ first_codes ((value + (if ltb c 128 then c else 0)) % 2 ^ 16 * 2 % 2 ^ 16) cs

-- `pdata` in memory: `ntohs` puts the high byte first.
unfoldable pub code_bytes : List ℕ → List ℕ
code_bytes [] = []
code_bytes (v ∷ vs) = v / 256 % 256 ∷ v % 256 ∷ code_bytes vs

-- `case TABLE`
unfoldable pub table : List ℕ → Tables → Outcome Turn
table file s = do
  len ← get_data_length file s.pos_tot
  bytes ← access (load file s.pos_tot len)
  huff ← access (store s.huff s.pos_huff bytes)
  counts ← access (load file (s.pos_tot + 3) 16)
  huff' ← access (store huff (s.pos_huff + len) (code_bytes (first_codes 0 counts)))
  done (
      goes_on (record s {
        pos_tot = s.pos_tot + 19;
        huff = huff';
        pos_huff = s.pos_huff + len + 32;
        huff_length = ((s.huff_length + len) % 2 ^ 16 + 32) % 2 ^ 16;
      }))

-- `*pData` where `pData` points at `p - 1`
unfoldable pub byte_before : List ℕ → ℕ → Outcome ℕ
byte_before file zero = overrun
byte_before file (suc p) = byte_at file p

-- The loop of `getFileEnd2`, where `pData` points at `p - 1`: the place of the last 0xD9 behind a 0xFF. It
-- reads in front of the block where there is none.
unfoldable pub last_end : List ℕ → ℕ → Outcome ℕ
last_end file zero = overrun
last_end file (suc p) = do
  b ← byte_at file p
  found ← if b == 0xD9 then (do c ← byte_before file p; done (c == 0xFF)) else done false
  elim found [ true ↦ done p | false ↦ last_end file p ]

-- `getFileEnd2(pFileData, pos, end_pos)`. A place in front of `pos` gives a negative size, which is no size of
-- a block.
unfoldable pub get_file_end2 : List ℕ → ℕ → ℕ → Outcome ℕ
get_file_end2 file pos end_pos = do
  p ← last_end file (end_pos + 1)
  access (if ltb (p + 1) pos then none else some (p + 1 - pos))

-- The bytes with which `huffLength` is filled up: 16 where nothing is missing
abbrev pub missing : ℕ → ℕ
missing huff_length = if huff_length == 0 then 0 else 16 - huff_length % 16

-- The data filled up to whole blocks of 16 bytes
abbrev pub whole_blocks : List ℕ → List ℕ
whole_blocks bytes =
    bytes ++ (if length bytes % 16 == 0 then [] else replicate (16 - length bytes % 16) 0xFF)

-- `case DATA_START`
unfoldable pub data_start : List ℕ → Tables → Outcome Turn
data_start file s = do
  count ← byte_at file (s.pos_tot + 2)
  head ← copy_every 2 file count (s.pos_tot + 2) s.pos_head s.head
  len ← get_data_length file s.pos_tot
  huff ← access (store s.huff s.pos_huff (replicate (missing s.huff_length) 0xFF))
  size ← get_file_end2 file (s.pos_tot + len) (length file - 1)
  bytes ← access (load file (s.pos_tot + len) size)
  head' ← access (store head 20 (le_bytes 3 (length (whole_blocks bytes) / 16)))
  done (
      ends (
        parsed
          (record s {
            pos_tot = s.pos_tot + len;
            head = head';
            pos_head = s.pos_head + count;
            huff = huff;
            pos_huff = s.pos_huff + missing s.huff_length;
            huff_length = (s.huff_length + missing s.huff_length) % 2 ^ 16;
          })
          (some (whole_blocks bytes))))

-- The `switch`, behind the two bytes of a marker
unfoldable pub marker : List ℕ → ℕ → Tables → Outcome Turn
marker file key s =
    if key == 0xDB
    then quantify file s
    else if key == 0xC0
    then img_info file s
    else if key == 0xC4
    then table file s
    else if key == 0xDA
    then data_start file s
    else done (goes_on s)

-- One round of the loop
unfoldable pub turn : List ℕ → Tables → Outcome Turn
turn file s = do
  key ← byte_at file s.pos_tot
  if key == 0xFF
      then (do
        key' ← byte_at file (s.pos_tot + 1)
        marker file key' (record s { pos_tot = s.pos_tot + 2 }))
      else done (goes_on (record s { pos_tot = s.pos_tot + 1 }))

-- The loop, with the rounds that are left
unfoldable pub scan : ℕ → List ℕ → Tables → Outcome Reply
scan zero file s = done (parsed s none)
scan (suc n) file s = do t ← turn file s; elim t [ ends r ↦ done r | goes_on s' ↦ scan n file s' ]

-- `getDecodeTable` on the bytes of a file that can be opened, and the three blocks
unfoldable pub get_decode_table : List ℕ → List ℕ → List ℕ → List ℕ → Outcome Reply
get_decode_table head qt huff file = do
  h ← access (store head 0 (zeros 96))
  b2 ← byte_at file 2
  starts ← if b2 == 0xFF then (do b3 ← byte_at file 3; done (b3 == 0xE0)) else done false
  if starts
      then (do
        h' ← start_head h
        scan (length file) file (record {
          pos_tot = 0;
          head = h';
          pos_head = 32;
          qt = qt;
          pos_qt = 0;
          huff = huff;
          pos_huff = 0;
          huff_length = 0;
        }))
      else done refused
