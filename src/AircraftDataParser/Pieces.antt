-- ===== src/AircraftDataParser/Pieces.antt =====
-- A packet that arrives in pieces.
use vcu.Prelude.{
  ℕ, zero, suc, ◌+◌, ◌≤◌, ◌<◌, ◌≡◌, refl, sym, ap, ◌∙◌, inl, inr, some, List, [], ◌∷◌, ◌++◌,
}
use vcu.Prelude.{Bool-cases, ltb, arith, length, take, get_or, pos, length-append}
use vcu.Prelude.Outcome.{Outcome, done, ◌>>=◌}
use vcu.AircraftDataParser.{AircraftData, start_pos, parser}
use vcu.AircraftDataParser.Packets.{incomplete, packet, packet_at, find}

-- The bytes of a head that the parser does not read.
pub record Head : Type 0 where
  pub incompact_flags : ℕ
  pub compat_flags : ℕ
  pub seq : ℕ
  pub sysid : ℕ
  pub comid : ℕ

-- A GPS packet as it is sent.
abbrev pub gps_packet : Head → List ℕ → ℕ → ℕ → List ℕ
gps_packet h bytes low high =
    0xfd
    ∷ length bytes
    ∷ h.incompact_flags
    ∷ h.compat_flags
    ∷ h.seq
    ∷ h.sysid
    ∷ h.comid
    ∷ 0x21
    ∷ 0
    ∷ 0
    ∷ (bytes ++ (low ∷ high ∷ []))

-- The calls on the pieces that the serial port delivers.
unfoldable pub feed : AircraftData → List (List ℕ) → Outcome AircraftData
feed s [] = done s
feed s (piece ∷ pieces) = do s' ← parser s piece (pos (length piece)); feed s' pieces

get_or-append : (xs ys : List ℕ) (i : ℕ) → i < length xs → get_or (xs ++ ys) i 0 ≡ get_or xs i 0
get_or-append [] ys i h = absurd (omega arith)
get_or-append (x ∷ xs) ys zero h = refl
get_or-append (x ∷ xs) ys (suc i) h = get_or-append xs ys i (omega arith)

pub take-append : (n : ℕ) (xs ys : List ℕ) → n ≤ length xs → take n (xs ++ ys) ≡ take n xs
take-append zero xs ys h = refl
take-append (suc n) [] ys h = absurd (omega arith)
take-append (suc n) (x ∷ xs) ys h = ap (λ t. x ∷ t) (take-append n xs ys (omega arith))

start_pos_head : (cs : List ℕ) → 0 < length cs → get_or cs 0 0 ≡ 0xfd → start_pos cs ≡ some 0
unfolding start_pos
start_pos_head [] h e = absurd (omega arith)
start_pos_head (c ∷ cs) h e = ground arith

-- A proper front of the packet is kept until the rest is there.
pub find-front :
    (h : Head) (bytes : List ℕ) (low high : ℕ) (all : List ℕ) (x : ℕ) (rest : List ℕ)
    → all ++ (x ∷ rest) ≡ gps_packet h bytes low high
    → find all ≡ incomplete
unfolding find
find-front h bytes low high all x rest e =
    let size : length all + suc (length rest) ≡ 12 + length bytes =
      omega
        (arith, length-append all (x ∷ rest), ap length e, length-append bytes (low ∷ high ∷ [])) in
    elim (Bool-cases (ltb (length all) 10)) [
      | inl short ↦ rw short refl
      | inr long ↦
          let stx : get_or all 0 0 ≡ 0xfd =
            sym (get_or-append all (x ∷ rest) 0 (ground arith)) ∙ ap (λ l. get_or l 0 0) e in
          let len : get_or all 1 0 ≡ length bytes =
            sym (get_or-append all (x ∷ rest) 1 (ground arith)) ∙ ap (λ l. get_or l 1 0) e in
          rw (long, start_pos_head all (ground arith) stx) (ground arith)
    ]

pub find-gps_packet :
    (h : Head) (bytes : List ℕ) (low high : ℕ)
    → find (gps_packet h bytes low high) ≡ packet (packet_at (gps_packet h bytes low high) 0)
unfolding find start_pos
find-gps_packet h bytes low high = ground (arith, length-append bytes (low ∷ high ∷ []))
