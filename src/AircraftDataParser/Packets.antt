-- ===== src/AircraftDataParser/Packets.antt =====
-- What the parser is to do, on the list of bytes it holds.
use vcu.Prelude.{ℕ, ◌+◌, ◌-◌, Option, none, some, List, [], ◌++◌}
use vcu.Prelude.{Bool, true, ltb, leb, ◌==◌, ◌||◌, if◌then◌else◌, get_or, length, take, drop}
use vcu.AircraftDataParser.{start_pos, get_msgid, gps, attitude, Returned, null, no_value}

-- The bytes held in front of a whole packet, the packet's message, and the bytes behind it.
pub record Packet : Type 0 where
  pub index : ℕ
  pub payload_len : ℕ
  pub type : ℕ

pub data Found : Type 0 where
  incomplete noise : Found
  packet : Packet → Found

abbrev pub packet_at : List ℕ → ℕ → Packet
packet_at all i = record {
  index = i;
  payload_len = get_or all (i + 1) 0;
  type = get_msgid (get_or all (i + 7) 0) (get_or all (i + 8) 0) (get_or all (i + 9) 0);
}

abbrev pub found_at : List ℕ → Option ℕ → Found
found_at all none = noise
found_at all (some i) =
    if ltb (length all - i) (12 + get_or all (i + 1) 0)
    then incomplete
    else packet (packet_at all i)

unfoldable pub find : List ℕ → Found
find all = if ltb (length all) 10 then incomplete else found_at all (start_pos all)

-- The bytes held and the two structures, without the memory they stand in.
pub record View : Type 0 where
  pub held : List ℕ
  pub gps_data : List ℕ
  pub attitude_data : List ℕ

abbrev pub payload : List ℕ → Packet → List ℕ
payload all p = take 28 (drop (p.index + 10) all)

abbrev pub remaining : List ℕ → Packet → List ℕ
remaining all p = take p.index all ++ drop (p.index + (10 + p.payload_len + 2)) all

unfoldable pub step : View → Found → Returned × View
step v incomplete = (null, v)
step v noise = (null, record v { held = [] })
step v (packet p) = (
  no_value,
  (if p.type == gps
      then (record v { held = remaining v.held p; gps_data = payload v.held p })
      else if p.type == attitude
      then (record v { held = remaining v.held p; attitude_data = payload v.held p })
      else record v { held = remaining v.held p }),
)

-- The packet found has the payload that its type promises.
abbrev pub long_enough : Found → Bool
long_enough incomplete = true
long_enough noise = true
long_enough (packet p) =
    if (p.type == gps) || (p.type == attitude) then leb 28 p.payload_len else true

-- Bytes received behind those held.
unfoldable pub receive : View → List ℕ → Returned × View
receive v bytes = let all = v.held ++ bytes in step (record v { held = all }) (find all)
