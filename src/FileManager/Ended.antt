-- ===== src/FileManager/Ended.antt =====
-- When the reading of the main configuration file ends.
use vcu.Prelude.{
  ℕ, zero, suc, ◌+◌, ◌≤◌, ◌<◌, ◌≡◌, ◌⊎◌, refl, ap, inl, inr, none, some, List, [], ◌∷◌,
}
use vcu.Prelude.{true, false, ◌||◌, ◌==◌, arith, length, Bool-cases, Option-cases}
use vcu.FileManager.{Table}
use vcu.FileManager.Basic.{
  Stream, getline, Run, exited, ended, section_rounds, head_name, set_section, BasicTables,
  basic_rounds, parser_basic_cfg,
}
use vcu.FileManager.Sections.{
  EndsLine, IsAlive, Finished, getline_lem, empty_step, weaken-Finished, section_rounds_lem,
}

-- A run that has come to its end.
abbrev pub HasEnded {ℓ} : {A : Type ℓ} → Run A → Type ℓ
HasEnded {A = A} r = (r ≡ exited) ⊎ ((a : A) × (r ≡ ended a))

over_step :
    (fuel : ℕ) (s : Stream) (tables : BasicTables)
    → s.eof ≡ true
    → basic_rounds (suc fuel) s tables ≡ ended tables
unfolding basic_rounds
over_step fuel s tables e = rw (e, basic_rounds)

-- The steps of the outer loop on a stream that goes on.
module _ (fuel : ℕ) (s : Stream) (tables : BasicTables) (going : (s.eof || s.fail) ≡ false) where
  pass_empty :
      (getline s []).0 ≡ []
      → basic_rounds (suc fuel) s tables ≡ basic_rounds fuel (getline s []).1 tables
  unfolding basic_rounds
  pass_empty e = rw (going, e, basic_rounds)

  pass_other :
      (c : ℕ) (line : List ℕ)
      → (getline s []).0 ≡ c ∷ line
      → (c == 91) ≡ false
      → basic_rounds (suc fuel) s tables ≡ basic_rounds fuel (getline s []).1 tables
  unfolding basic_rounds
  pass_other c line e other = rw (going, e, other, basic_rounds)

  module _ (c : ℕ) (line : List ℕ) (e : (getline s []).0 ≡ c ∷ line) (head : (c == 91) ≡ true) where
    no_name : head_name (c ∷ line) ≡ none → basic_rounds (suc fuel) s tables ≡ exited
    unfolding basic_rounds
    no_name thrown = rw (going, e, head, thrown, basic_rounds)

    bad_section :
        (name : List ℕ)
        → head_name (c ∷ line) ≡ some name
        → section_rounds fuel (getline (getline s []).1 []).1 (getline (getline s []).1 []).0 []
          ≡ exited
        → basic_rounds (suc fuel) s tables ≡ exited
    unfolding basic_rounds
    bad_section name found bad = rw (going, e, head, found, bad, basic_rounds)

    good_section :
        (name : List ℕ) (read : Table × Stream)
        → head_name (c ∷ line) ≡ some name
        → section_rounds fuel (getline (getline s []).1 []).1 (getline (getline s []).1 []).0 []
          ≡ ended read
        → basic_rounds (suc fuel) s tables
          ≡ basic_rounds fuel read.1 (set_section name read.0 tables)
    unfolding basic_rounds
    good_section name read found good = rw (going, e, head, found, good, basic_rounds)

List-cases : (xs : List ℕ) → (xs ≡ []) ⊎ ((c : ℕ) × (t : List ℕ) × (xs ≡ c ∷ t))
List-cases [] = inl refl
List-cases (c ∷ t) = inr (c, t, refl)

-- A section whose head has been read.
section_ends :
    (fuel : ℕ) (s : Stream)
    → IsAlive s
    → length s.rest + 2 ≤ fuel
    → Finished (length s.rest) (section_rounds fuel (getline s []).1 (getline s []).0 [])
section_ends fuel s a h =
    let s' = (getline s []).1 in
    elim (getline_lem s [] a) [
      | inl (none_left, over) ↦
          inr (([], s'), empty_step fuel s' (getline s []).0 [] none_left (omega arith), inl over)
      | inr (a', less) ↦
          weaken-Finished (length s'.rest) (length s.rest) _ (omega arith)
            (section_rounds_lem fuel s' (getline s []).0 [] a' (omega arith))
    ]

over_ends :
    (fuel : ℕ) (s : Stream) (tables : BasicTables)
    → s.eof ≡ true
    → 0 < fuel
    → HasEnded (basic_rounds fuel s tables)
over_ends zero s tables e h = absurd (omega arith)
over_ends (suc fuel) s tables e h = inr (tables, over_step fuel s tables e)

going_on : (s : Stream) → IsAlive s → (s.eof || s.fail) ≡ false
going_on s a = rw (a.no_eof, a.no_fail) refl

no_line : (c : ℕ) (t xs : List ℕ) → xs ≡ [] → xs ≡ c ∷ t → ⊥
no_line c t xs e f = absurd (omega (arith, ap length e, ap length f))

basic_rounds_lem :
    (fuel : ℕ) (s : Stream) (tables : BasicTables)
    → IsAlive s
    → length s.rest + 3 ≤ fuel
    → HasEnded (basic_rounds fuel s tables)
basic_rounds_lem zero s tables a h = absurd (omega arith)
basic_rounds_lem (suc fuel) s tables a h =
    let first = (getline s []).1 in
    let going = going_on s a in
    let passed : HasEnded (basic_rounds fuel first tables) = elim (getline_lem s [] a) [
      | inl (none_left, over) ↦ over_ends fuel first tables over (omega arith)
      | inr (a', less) ↦ basic_rounds_lem fuel first tables a' (omega arith)
    ] in
    elim (List-cases (getline s []).0) [
      | inl empty ↦ rw (pass_empty fuel s tables going empty) passed
      | inr (c, line, e) ↦ elim (Bool-cases (c == 91)) [
        | inr other ↦ rw (pass_other fuel s tables going c line e other) passed
        | inl head ↦ elim (Option-cases (head_name (c ∷ line))) [
          | inl thrown ↦ inl (no_name fuel s tables going c line e head thrown)
          | inr (name, found) ↦ elim (getline_lem s [] a) [
            | inl (none_left, over) ↦ absurd (no_line c line (getline s []).0 none_left e)
            | inr (a', less) ↦ elim (section_ends fuel first a' (omega arith)) [
              | inl bad ↦ inl (bad_section fuel s tables going c line e head name found bad)
              | inr (read, good, after) ↦
                  rw (good_section fuel s tables going c line e head name read found good)
                    (elim after [
                      | inl over ↦ over_ends fuel read.1 _ over (omega arith)
                      | inr (a'', short) ↦ basic_rounds_lem fuel read.1 _ a'' (omega arith)
                    ])
            ]
          ]
        ]
      ]
    ]

-- On a file whose last line has its end, `parserBasicCfg` comes to its end, by returning or in an
-- exception that exits the program, within a round for each character and three more.
pub parser_basic_cfg-HasEnded :
    (fuel : ℕ) (text : List ℕ) (tables : BasicTables)
    → EndsLine text
    → length text + 3 ≤ fuel
    → HasEnded (parser_basic_cfg fuel text tables)
parser_basic_cfg-HasEnded fuel text tables h enough =
    basic_rounds_lem fuel (record { rest = text; eof = false; fail = false }) tables
      (record { no_eof = refl; no_fail = refl; lines = h }) enough
