-- ===== src/AircraftDataParser/Refine.antt =====
-- The parser against its rounds on lists of bytes.
use vcu.Prelude.{
  Option, length-append, ℕ, ◌+◌, ◌-◌, ◌≤◌, ◌<◌, ◌≡◌, refl, sym, ap, ◌∙◌, inl, inr, none, some,
}
use vcu.Prelude.{List, ◌++◌, true, false, Bool-cases, ltb}
use vcu.Prelude.{arith, length, take, get_elem?, get_or, pos, subst}
use vcu.Prelude.Memory.{length-take_le}
use vcu.Prelude.Outcome.{done}
use native.Mathlib.Decide.{dec_lt}
use vcu.ByteArray.{contents}
use vcu.ByteArray.Valid.{IsValid, length-contents, load_front}
use vcu.ByteArray.Append.{Fits, append_lem}
use vcu.ByteArray.Edit.{clear_lem}
use vcu.AircraftDataParser.{
  AircraftData, Returned, null, no_value, start_pos, parse_from, parse_held, statements, leave,
  parser,
}
use vcu.AircraftDataParser.Packets.{found_at, find, step, long_enough, receive}
use vcu.AircraftDataParser.Contents.{start_pos_lem, get_elem?-contents, get_elem?-some}
use vcu.AircraftDataParser.Round.{view, KeepsRoom, Ends, parse_packet_lem}

keep_room : (r : Returned) (a b c : ℕ) → a ≤ b → KeepsRoom r b c → KeepsRoom r a c
keep_room null a b c h k = omega arith
keep_room no_value a b c h k = tt

parse_from_lem :
    (s : AircraftData) (where_stx : Option ℕ)
    → IsValid s.full_packet
    → start_pos (contents s.full_packet) ≡ where_stx
    → 10 ≤ s.full_packet.data_size
    → long_enough (found_at (contents s.full_packet) where_stx) ≡ true
    → (run : Returned × AircraftData) × (parse_from s where_stx ≡ done run)
      × Ends s.full_packet.capacity
          (step (view s) (found_at (contents s.full_packet) where_stx))
          run
unfolding parse_from step
parse_from_lem s none v e h long =
    let (empty, cleared, v', nothing, room) = clear_lem s.full_packet v in
    ((null, record s { full_packet = empty }), rw cleared, (refl, v', rw nothing, omega arith))
parse_from_lem s (some i) v e h long =
    let all = contents s.full_packet in
    let size : length all ≡ s.full_packet.data_size = length-contents s.full_packet v in
    let (inside, stx) = start_pos_lem all i e in
    let (c, byte) = get_elem?-some s.full_packet.block (i + 1) (omega arith) in
    elim (Bool-cases (ltb (length all - i) (12 + get_or all (i + 1) 0))) [
      | inl short ↦
          let wait : ltb (s.full_packet.data_size - i) (10 + c + 2) ≡ true =
            elim (dec_lt (i + 1) (length all)) [
              | yes before ↦
                  let there =
                    get_elem?-contents s.full_packet.block s.full_packet.data_size (i + 1)
                      (omega arith) (omega arith) in
                  ground (arith, sym byte ∙ there)
              | no last ↦ ground arith
            ] in
          ((null, s), rw (byte, wait), rw short (refl, v, refl, omega arith))
      | inr whole ↦
          let there : get_elem? s.full_packet.block (i + 1) ≡ some (get_or all (i + 1) 0) =
            get_elem?-contents s.full_packet.block s.full_packet.data_size (i + 1) (ground arith)
              (omega arith) in
          let go : ltb (s.full_packet.data_size - i) (10 + get_or all (i + 1) 0 + 2) ≡ false =
            ground arith in
          let (run, parsed, ends) = parse_packet_lem s i v e (ground arith) (rw whole at long) in
          (run, rw (there, go) parsed, rw whole ends)
    ]

parse_held_lem :
    (s : AircraftData)
    → IsValid s.full_packet
    → s.full_packet.data_size < 1024
    → long_enough (find (contents s.full_packet)) ≡ true
    → (run : Returned × AircraftData) × (parse_held s ≡ done run)
      × Ends s.full_packet.capacity (step (view s) (find (contents s.full_packet))) run
unfolding parse_held find step
parse_held_lem s v small long =
    let all = contents s.full_packet in
    let size : length all ≡ s.full_packet.data_size = length-contents s.full_packet v in
    let fits : ltb s.full_packet.data_size 1024 ≡ true = ground arith in
    elim (Bool-cases (ltb s.full_packet.data_size 10)) [
      | inl short ↦ ((null, s), rw (fits, short), rw (size, short) (refl, v, refl, omega arith))
      | inr enough ↦
          let (run, parsed, ends) =
            parse_from_lem s (start_pos all) v refl (ground arith) (rw (size, enough) at long) in
          (
            run,
            rw (fits, enough, load_front s.full_packet.block s.full_packet.data_size (omega arith))
                parsed,
            rw (size, enough) ends,
          )
    ]

parse_held_on :
    (s : AircraftData) (all : List ℕ)
    → contents s.full_packet ≡ all
    → IsValid s.full_packet
    → s.full_packet.data_size < 1024
    → long_enough (find all) ≡ true
    → (run : Returned × AircraftData) × (parse_held s ≡ done run)
      × Ends s.full_packet.capacity (step (record (view s) { held = all }) (find all)) run
parse_held_on s all e v small =
    subst
      (λ held.
        long_enough (find held) ≡ true
        → (run : Returned × AircraftData) × (parse_held s ≡ done run)
          × Ends s.full_packet.capacity (step (record (view s) { held = held }) (find held)) run)
      e (parse_held_lem s v small)

-- On valid arrays and sizes at which `append` is defined, with fewer than 1024 bytes held afterwards,
-- and provided that a GPS or attitude packet that is completed has the payload that its type promises:
-- the statements of `parser` lead to a `return NULL;` if the round on lists of bytes takes no packet, and
-- if it takes one to the end of the function, with the array valid and the bytes held and both
-- structures as that round leaves them. The call itself returns in the first case, with that state, and is
-- undefined in the second, as there is no `return` at the end.
pub parser_refines :
    (s : AircraftData) (pdata : List ℕ) (n : ℕ)
    → IsValid s.full_packet
    → n ≤ length pdata
    → Fits s.full_packet n
    → s.full_packet.data_size + n < 1024
    → long_enough (find (contents s.full_packet ++ take n pdata)) ≡ true
    → (run : Returned × AircraftData) × (statements s pdata (pos n) ≡ done run)
      × (parser s pdata (pos n) ≡ leave run)
      × Ends s.full_packet.capacity (receive (view s) (take n pdata)) run
unfolding parser statements receive
parser_refines s pdata n v held fits small long =
    let (full, appended, v', grown, all) = append_lem s.full_packet pdata n v held fits in
    let size : full.data_size ≡ s.full_packet.data_size + n = omega (
      arith,
      length-contents full v',
      length-contents s.full_packet v,
      ap length all,
      length-append (contents s.full_packet) (take n pdata),
      length-take_le n pdata held,
    ) in
    let (run, parsed, ends) =
      parse_held_on (record s { full_packet = full }) _ all v' (omega arith) long in
    let (result, valid, out, room) = ends in
    (
      run,
      rw appended parsed,
      rw (appended, parsed),
      (result, valid, out, keep_room _ _ _ _ grown room),
    )
