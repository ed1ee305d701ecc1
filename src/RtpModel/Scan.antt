-- ===== src/RtpModel/Scan.antt =====
-- What `findStartCode2` reports and skips, against the start codes of an Annex B byte stream.
use vcu.Prelude.{ℕ, zero, suc, ◌≤◌, ◌<◌, ◌≡◌, ◌⊎◌, List, [], ◌∷◌, arith, true, false, drop, ◌↔◌}
use vcu.RtpModel.{find_start_code2}

abbrev LastIsOne : List ℕ → Type 0
LastIsOne (d ∷ _) = d ≡ 1
LastIsOne [] = ⊥

abbrev ThirdFits : List ℕ → Type 0
ThirdFits (c ∷ rest) = (c ≡ 1) ⊎ ((c ≡ 0) × LastIsOne rest)
ThirdFits [] = ⊥

-- The bytes begin with 00 00 01 or with 00 00 00 01.
abbrev pub HasCode : List ℕ → Type 0
HasCode (a ∷ b ∷ rest) = (a ≡ 0) × (b ≡ 0) × ThirdFits rest
HasCode (a ∷ []) = ⊥
HasCode [] = ⊥

-- `findStartCode2` reports a start code exactly where one stands at the front of the bytes.
pub found_iff :
    (a b c d : ℕ) (rest : List ℕ)
    → ((find_start_code2 a b c d).found ≡ true) ↔ HasCode (a ∷ b ∷ c ∷ d ∷ rest)
unfolding find_start_code2
found_iff a b c d rest = (λ h. ground arith, λ h. ground arith)

-- A step of the search moves on by one to four bytes.
pub move_bounds :
    (a b c d : ℕ)
    → (0 < (find_start_code2 a b c d).move_pos) × ((find_start_code2 a b c d).move_pos ≤ 4)
unfolding find_start_code2
move_bounds a b c d = ground arith

-- Where it reports none, no start code begins at any of the positions that `move_pos` skips.
pub skipped_free :
    (a b c d : ℕ) (rest : List ℕ) (j : ℕ)
    → (find_start_code2 a b c d).found ≡ false
    → j < (find_start_code2 a b c d).move_pos
    → ¬ HasCode (drop j (a ∷ b ∷ c ∷ d ∷ rest))
unfolding find_start_code2
skipped_free a b c d rest zero h lt code = ground arith
skipped_free a b c d rest (suc zero) h lt code = ground arith
skipped_free a b c d rest (suc (suc zero)) h lt code = ground arith
skipped_free a b c d [] (suc (suc (suc zero))) h lt code = code
skipped_free a b c d (e ∷ rest) (suc (suc (suc zero))) h lt code = ground arith
skipped_free a b c d rest (suc (suc (suc (suc j)))) h lt code =
    absurd (omega (arith, move_bounds a b c d))
