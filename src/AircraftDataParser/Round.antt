-- ===== src/AircraftDataParser/Round.antt =====
-- The parser on a whole packet, against the round on the bytes held.
use vcu.Prelude.{ℕ, ◌+◌, ◌≤◌, ◌≡◌, refl, inl, inr, some}
use vcu.Prelude.{true, Bool-cases, leb, ◌==◌, ◌||◌}
use vcu.Prelude.{arith, tests}
use vcu.Prelude.Memory.{load}
use vcu.Prelude.Outcome.{done}
use vcu.ByteArray.{ByteArray, contents}
use vcu.ByteArray.Valid.{IsValid}
use vcu.ByteArray.Edit.{remove_lem}
use vcu.AircraftDataParser.{
  AircraftData, Returned, null, no_value, gps, attitude, start_pos, take_data, parse_packet,
}
use vcu.AircraftDataParser.Packets.{
  Packet, packet, packet_at, View, payload, remaining, step, long_enough,
}
use vcu.AircraftDataParser.Contents.{stx_byte, msgid_at_lem, payload_lem}

abbrev pub view : AircraftData → View
view s = record {
  held = contents s.full_packet;
  gps_data = s.gps_data;
  attitude_data = s.attitude_data;
}

-- A call that takes no packet gives no room back.
abbrev pub KeepsRoom : Returned → ℕ → ℕ → Type 0
KeepsRoom null before after = before ≤ after
KeepsRoom no_value before after = Unit

-- A run from an array of the given capacity that ends as the abstract round does.
abbrev pub Ends : ℕ → Returned × View → Returned × AircraftData → Type 0
Ends room out run =
    (run.0 ≡ out.0)
    × IsValid run.1.full_packet
    × (view run.1 ≡ out.1)
    × KeepsRoom out.0 room run.1.full_packet.capacity

-- The message is taken from the bytes held, and leaves the parser with those around the packet.
take_data_lem :
    (s : AircraftData) (i : ℕ) (p : Packet) (left : ByteArray)
    → ((p.type == gps) || (p.type == attitude) ≡ true
        → load s.full_packet.block (i + 10) 28 ≡ some (payload (contents s.full_packet) p))
    → contents left ≡ remaining (contents s.full_packet) p
    → (s' : AircraftData) × (take_data s i p.type ≡ done s')
      × (s'.full_packet ≡ s.full_packet)
      × (view (record s' { full_packet = left }) ≡ (step (view s) (packet p)).1)
unfolding take_data step
take_data_lem s i p left readable e = elim (Bool-cases (p.type == gps)) [
  | inl is_gps ↦ (
    record s { gps_data = payload (contents s.full_packet) p },
    rw (is_gps, readable (rw is_gps)),
    refl,
    rw (is_gps, e),
  )
  | inr not_gps ↦ elim (Bool-cases (p.type == attitude)) [
    | inl is_attitude ↦ (
      record s { attitude_data = payload (contents s.full_packet) p },
      rw (not_gps, is_attitude, readable (rw (not_gps, is_attitude))),
      refl,
      rw (not_gps, is_attitude, e),
    )
    | inr other ↦ (s, rw (not_gps, other), refl, rw (not_gps, other, e))
  ]
]

pub parse_packet_lem :
    (s : AircraftData) (i : ℕ)
    → IsValid s.full_packet
    → start_pos (contents s.full_packet) ≡ some i
    → i + (10 + (packet_at (contents s.full_packet) i).payload_len + 2) ≤ s.full_packet.data_size
    → long_enough (packet (packet_at (contents s.full_packet) i)) ≡ true
    → (run : Returned × AircraftData) × (parse_packet s i
          (packet_at (contents s.full_packet) i).payload_len
        ≡ done run)
      × Ends s.full_packet.capacity
          (step (view s) (packet (packet_at (contents s.full_packet) i)))
          run
unfolding parse_packet step
parse_packet_lem s i v stx whole long =
    let p = packet_at (contents s.full_packet) i in
    let (left, removed, v', rest) = remove_lem s.full_packet i (10 + p.payload_len + 2) v whole in
    let readable : (p.type == gps) || (p.type == attitude) ≡ true
        → load s.full_packet.block (i + 10) 28 ≡ some (payload (contents s.full_packet) p) =
      λ typed.
        payload_lem s.full_packet i v
          (let enough : leb 28 p.payload_len ≡ true = rw typed at long in omega (tests)) in
    let (s', taken, same, out) = take_data_lem s i p left readable rest in
    (
      (no_value, record s' { full_packet = left }),
      rw (
        stx_byte s.full_packet i v stx,
        msgid_at_lem s.full_packet i v (omega arith),
        taken,
        same,
        removed,
      ),
      (refl, v', out, tt),
    )
