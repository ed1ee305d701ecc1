-- ===== src/AircraftDataParser/Tests.antt =====
-- The parser on a small GPS packet.
use vcu.Prelude.{ℕ, ◌≡◌, refl, inl, List, [], ◌∷◌, arith, take, drop, pos, replicate}
use vcu.Prelude.Memory.{length-zeros}
use vcu.Prelude.Outcome.{done, overrun}
use vcu.ByteArray.{fresh}
use vcu.ByteArray.Valid.{IsValid}
use vcu.AircraftDataParser.{
  AircraftData, Returned, null, no_value, statements, leave, parser, start_pos,
}
use vcu.AircraftDataParser.Packets.{receive, step, find}
use vcu.AircraftDataParser.Round.{view, Ends}
use vcu.AircraftDataParser.Refine.{parser_refines}
use vcu.AircraftDataParser.Pieces.{Head, gps_packet, feed}
use vcu.AircraftDataParser.Delivered.{gps_packet_delivered}

abbrev no_fix : List ℕ
no_fix = replicate 28 0

abbrev at_start : AircraftData
at_start = record { full_packet = fresh; gps_data = no_fix; attitude_data = no_fix }

fresh-IsValid : IsValid fresh
unfolding fresh
fresh-IsValid = record { allocated = length-zeros 1024; room = omega arith }

abbrev head : Head
head = record { incompact_flags = 0; compat_flags = 0; seq = 7; sysid = 1; comid = 1 }

abbrev fix : List ℕ
fix = 9 ∷ replicate 27 5

abbrev sent : List ℕ
sent = gps_packet head fix 0xab 0xcd

gps_packet_delivered_example :
    (s1 : AircraftData) × (s : AircraftData) × (feed at_start (take 4 sent ∷ []) ≡ done s1)
    × (statements s1 (drop 4 sent) (pos 36) ≡ done (no_value, s))
    × (feed at_start (take 4 sent ∷ drop 4 sent ∷ []) ≡ overrun)
    × IsValid s.full_packet
    × (view s ≡ record { held = []; gps_data = fix; attitude_data = no_fix })
unfolding fresh
gps_packet_delivered_example =
    gps_packet_delivered head fix 0xab 0xcd at_start (take 4 sent ∷ []) 7 (drop 5 sent)
      fresh-IsValid (omega arith) (omega arith) (omega arith) refl

-- Bytes with no start byte are dropped.
parser_refines_example :
    (run : Returned × AircraftData) × (statements at_start (1 ∷ 2 ∷ fix) (pos 30) ≡ done run)
    × (parser at_start (1 ∷ 2 ∷ fix) (pos 30) ≡ leave run)
    × Ends 1024 (null, record { held = []; gps_data = no_fix; attitude_data = no_fix }) run
unfolding fresh receive step find start_pos
parser_refines_example =
    parser_refines at_start (1 ∷ 2 ∷ fix) 30 fresh-IsValid (omega arith) (inl (omega arith))
      (omega arith) refl

abbrev high_byte : ℕ
high_byte = 1
