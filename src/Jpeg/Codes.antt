-- ===== src/Jpeg/Codes.antt =====
-- The first codes of the lengths, as a prefix code.
use native.Mathlib.Nat.{pow-suc, one-le-pow}
use vcu.Prelude.{
  ℕ, zero, suc, ◌+◌, ◌*◌, ◌%◌, ◌^◌, ◌≤◌, ◌<◌, ◌≡◌, refl, sym, ap, ◌∙◌, some, List, [], ◌∷◌, arith,
  length, get_elem?, ltb, lt→ltb, if◌then◌else◌,
}
use vcu.Jpeg.{first_codes}

-- The share of the codes of 2 ^ length bits that the counts take, the shortest codes first.
abbrev pub share : List ℕ → ℕ
share [] = 0
share (c ∷ cs) = c * 2 ^ length cs + share cs

-- The share of the codes in front of a value of the first length
abbrev from_value : ℕ → List ℕ → ℕ
from_value v [] = v
from_value v (c ∷ cs) = v * 2 ^ length cs

-- The counts are such as `int8_t` holds.
abbrev pub Small : List ℕ → Type 0
Small [] = Unit
Small (c ∷ cs) = (c < 128) × Small cs

doubled : (v c p : ℕ) → (v + c) * 2 * p ≡ v * (p * 2) + c * (p * 2)
doubled v c p = grind arith

le_times : (n p : ℕ) → 1 ≤ p → n ≤ n * p
le_times n p h = grind arith

-- Where the codes do not run out, the next length begins with twice what follows the last code.
next_value :
    (v c : ℕ) (cs : List ℕ) (d : ℕ)
    → c < 128
    → from_value v (c ∷ d ∷ cs) + share (c ∷ d ∷ cs) < 2 ^ 16
    → ((v + (if ltb c 128 then c else 0)) % 2 ^ 16 * 2 % 2 ^ 16 ≡ (v + c) * 2)
      × (from_value ((v + c) * 2) (d ∷ cs) + share (d ∷ cs) < 2 ^ 16)
next_value v c cs d small h =
    let p = 2 ^ length cs in
    let all : v * (p * 2) + (c * (p * 2) + (d * p + share cs)) < 2 ^ 16 =
      rw (pow-suc 2 (length cs)) at h in
    let ring = doubled v c p in
    let at_least : (v + c) * 2 ≤ (v + c) * 2 * p =
      le_times ((v + c) * 2) p (one-le-pow (length cs) 2 (omega arith)) in
    (rw (lt→ltb c 128 small) (omega arith), omega arith)

-- Every length that has codes begins at or behind the value doubled up to it.
value-le :
    (v : ℕ) (cs : List ℕ) (k c code : ℕ)
    → Small cs
    → from_value v cs + share cs < 2 ^ 16
    → get_elem? cs k ≡ some c
    → 0 < c
    → get_elem? (first_codes v cs) k ≡ some code
    → v * 2 ^ k ≤ code
unfolding first_codes
value-le v [] k c code small h here positive there = absurd (cc)
value-le v (d ∷ cs) zero c code small h here positive there = ground arith
value-le v (d ∷ []) (suc k) c code small h here positive there = absurd (cc)
value-le v (d ∷ d' ∷ cs) (suc k) c code small h here positive there =
    let (same, below) = next_value v d cs d' small.0 h in
    let later =
      value-le ((v + d) * 2) (d' ∷ cs) k c code small.1 below here positive
        (ap (λ x. get_elem? (first_codes x (d' ∷ cs)) k) (sym same) ∙ there) in
    let q = 2 ^ k in
    let ring = doubled v d q in let goal : v * (q * 2) ≤ code = omega arith in rw (pow-suc 2 k) goal

split_times : (v c p : ℕ) → (v + c) * p ≡ v * p + c * p
split_times v c p = grind arith

from_zero : (cs : List ℕ) → from_value 0 cs ≡ 0
from_zero [] = refl
from_zero (c ∷ cs) = grind arith

ordered :
    (v : ℕ) (cs : List ℕ) (i j k ci ck at_i at_k : ℕ)
    → k ≡ i + suc j
    → Small cs
    → from_value v cs + share cs < 2 ^ 16
    → get_elem? cs i ≡ some ci
    → get_elem? cs k ≡ some ck
    → 0 < ci
    → 0 < ck
    → get_elem? (first_codes v cs) i ≡ some at_i
    → get_elem? (first_codes v cs) k ≡ some at_k
    → (at_i + ci) * 2 ^ suc j ≤ at_k
unfolding first_codes
ordered v [] i j k ci ck at_i at_k e small h here later pi pk there after = absurd (cc)
ordered v (c ∷ cs) i j zero ci ck at_i at_k e small h here later pi pk there after =
    absurd (omega arith)
ordered v (c ∷ []) i j (suc k) ci ck at_i at_k e small h here later pi pk there after = absurd (cc)
ordered v (c ∷ d ∷ cs) zero j (suc k) ci ck at_i at_k e small h here later pi pk there after =
    let (same, below) = next_value v c cs d small.0 h in
    let e' : k ≡ j = omega arith in
    let far =
      value-le ((v + c) * 2) (d ∷ cs) k ck at_k small.1 below later pk
        (ap (λ x. get_elem? (first_codes x (d ∷ cs)) k) (sym same) ∙ after) in
    let first : at_i ≡ v = ground arith in
    let count : ci ≡ c = ground arith in
    let q = 2 ^ j in
    let far' : (v + c) * 2 * q ≤ at_k = rw e' at far in
    let goal : (v + c) * (q * 2) ≤ at_k = omega (arith, doubled v c q, split_times v c (q * 2)) in
    rw (pow-suc 2 j, first, count) goal
ordered v (c ∷ d ∷ cs) (suc i) j (suc k) ci ck at_i at_k e small h here later pi pk there after =
    let (same, below) = next_value v c cs d small.0 h in
    ordered ((v + c) * 2) (d ∷ cs) i j k ci ck at_i at_k (omega arith) small.1 below here later pi
      pk (ap (λ x. get_elem? (first_codes x (d ∷ cs)) i) (sym same) ∙ there)
      (ap (λ x. get_elem? (first_codes x (d ∷ cs)) k) (sym same) ∙ after)

-- The counts of a table, each one that `int8_t` holds, that leave the code of 16 ones free, as the standard
-- asks: where two lengths have codes, the first code of the longer, cut down to the shorter length, is at or
-- behind what follows the last code of the shorter, so that no code begins with a shorter one.
pub first_codes-prefix_free :
    (cs : List ℕ) (i j k ci ck at_i at_k : ℕ)
    → k ≡ i + suc j
    → Small cs
    → share cs < 2 ^ 16
    → get_elem? cs i ≡ some ci
    → get_elem? cs k ≡ some ck
    → 0 < ci
    → 0 < ck
    → get_elem? (first_codes 0 cs) i ≡ some at_i
    → get_elem? (first_codes 0 cs) k ≡ some at_k
    → (at_i + ci) * 2 ^ suc j ≤ at_k
first_codes-prefix_free cs i j k ci ck at_i at_k e small h =
    ordered 0 cs i j k ci ck at_i at_k e small (omega (arith, from_zero cs))
