-- ===== src/AircraftDataParser.antt =====
-- src/aircraftDataParser.h, src/aircraftDataParser.cpp: MAVLink packets put together from the pieces
-- that the serial port delivers. `assert` is taken as compiled in.
pub mod Packets
mod Contents
pub mod Round
pub mod Refine
pub mod MessageId
pub mod Pieces
pub mod Delivered
mod Tests
use vcu.Prelude.{ℕ, zero, suc, ◌+◌, ◌-◌, ◌*◌, ◌%◌, ◌^◌, Option, none, some, List, [], ◌∷◌}
use vcu.Prelude.{ℤ, pos, ltb, ◌==◌, if◌then◌else◌, get_elem?, bit_or}
use vcu.ByteArray.{ByteArray, append, clear, remove}
use vcu.Prelude.Memory.{load}
use vcu.Prelude.Outcome.{Outcome, done, overrun, access, check, ◌>>=◌, ◌>>◌}

-- The parser's member, and the two global structures it fills, as their 28 bytes.
pub record AircraftData : Type 0 where
  pub full_packet : ByteArray
  pub gps_data : List ℕ
  pub attitude_data : List ℕ

-- Where the statements of a call lead: to a `return NULL;`, or behind the last `remove` to the
-- function's end, where there is no `return`.
pub data Returned : Type 0 where
  null no_value : Returned

-- `sizeof(MavLinkHead)`, `sizeof(MavLinkEnd)`, and the two payloads' size
abbrev pub head_len : ℕ
head_len = 10

abbrev pub end_len : ℕ
end_len = 2

abbrev pub data_len : ℕ
data_len = 28

abbrev pub gps : ℕ
gps = 0x21

abbrev pub attitude : ℕ
attitude = 0x1e

-- `getMsgid()` on the bytes low, middle and high
unfoldable pub get_msgid : ℕ → ℕ → ℕ → ℕ
get_msgid low middle high = bit_or (bit_or (high * 2 ^ 16 % 2 ^ 32) middle * 2 ^ 8 % 2 ^ 32) low

-- the first position of 0xFD
unfoldable pub start_pos : List ℕ → Option ℕ
start_pos [] = none
start_pos (c ∷ cs) =
    let rest = start_pos cs in
    if c == 0xfd then some 0 else elim rest [ none ↦ none | some i ↦ some (suc i) ]

-- `pHead->getMsgid()` for a head at `i`
unfoldable pub msgid_at : List ℕ → ℕ → Outcome ℕ
msgid_at block i = do
  low ← access (get_elem? block (i + 7))
  middle ← access (get_elem? block (i + 8))
  high ← access (get_elem? block (i + 9))
  done (get_msgid low middle high)

-- the structure that the message's type names is overwritten with the 28 bytes behind the head
unfoldable pub take_data : AircraftData → ℕ → ℕ → Outcome AircraftData
take_data s i type =
    if type == gps
    then (do
      bytes ← access (load s.full_packet.block (i + head_len) data_len)
      done (record s { gps_data = bytes }))
    else if type == attitude
    then (do
      bytes ← access (load s.full_packet.block (i + head_len) data_len)
      done (record s { attitude_data = bytes }))
    else done s

-- the packet whose head stands at `i`, once all of it is there
unfoldable pub parse_packet : AircraftData → ℕ → ℕ → Outcome (Returned × AircraftData)
parse_packet s i payload_len = do
  stx ← access (get_elem? s.full_packet.block i)
  check (stx == 0xfd)
  type ← msgid_at s.full_packet.block i
  s' ← take_data s i type
  left ← access (remove s'.full_packet (pos i) (pos (head_len + payload_len + end_len)))
  done (no_value, record s' { full_packet = left })

unfoldable pub parse_from : AircraftData → Option ℕ → Outcome (Returned × AircraftData)
parse_from s none = do
  empty ← access (clear s.full_packet)
  done (null, record s { full_packet = empty })
parse_from s (some i) = do
  payload_len ← access (get_elem? s.full_packet.block (i + 1))
  (if ltb (s.full_packet.data_size - i) (head_len + payload_len + end_len)
      then done (null, s)
      else parse_packet s i payload_len)

unfoldable pub parse_held : AircraftData → Outcome (Returned × AircraftData)
parse_held s =
    check (ltb s.full_packet.data_size 1024)
    >> (if ltb s.full_packet.data_size head_len then done (null, s) else do
      held ← access (load s.full_packet.block 0 s.full_packet.data_size)
      parse_from s (start_pos held))

-- The statements of `parser(const char *_data, int _len)`
unfoldable pub statements : AircraftData → List ℕ → ℤ → Outcome (Returned × AircraftData)
statements s pdata len = do
  full ← access (append s.full_packet (some pdata) len)
  parse_held (record s { full_packet = full })

-- A call that reaches the end of the function, which returns `void *`, is undefined.
unfoldable pub leave : Returned × AircraftData → Outcome AircraftData
leave (null, s) = done s
leave (no_value, s) = overrun

-- The call `parser(_data, _len)`, which returns NULL if it returns
unfoldable pub parser : AircraftData → List ℕ → ℤ → Outcome AircraftData
parser s pdata len = statements s pdata len >>= leave
