-- ===== src/FileManager/Sections.antt =====
-- When the reading of a section ends.
use vcu.Prelude.{ℕ, zero, suc, ◌+◌, ◌≤◌, ◌<◌, ◌≡◌, ◌⊎◌, refl, inl, inr, none, some, List, [], ◌∷◌}
use vcu.Prelude.{Bool, true, false, ◌==◌, arith, length, Bool-cases, Option-cases}
use vcu.FileManager.{Table}
use vcu.FileManager.Basic.{
  Stream, split_line, after_line, getline, noted, Run, exited, ended, section_rounds,
}

-- A text that is empty or whose last character ends a line.
abbrev pub EndsLine : List ℕ → Type 0
EndsLine [] = Unit
EndsLine (c ∷ []) = c ≡ 10
EndsLine (c ∷ d ∷ s) = EndsLine (d ∷ s)

tail-EndsLine : (c : ℕ) (s : List ℕ) → EndsLine (c ∷ s) → EndsLine s
tail-EndsLine c [] h = tt
tail-EndsLine c (d ∷ s) h = h

split_line_lem :
    (c : ℕ) (s : List ℕ)
    → EndsLine (c ∷ s)
    → (line : List ℕ) × (r : List ℕ) × (split_line (c ∷ s) ≡ (line, some r))
      × EndsLine r
      × (length r ≤ length s)
unfolding split_line
split_line_lem c [] h = ([], [], (let e : (c == 10) ≡ true = ground arith in rw e), tt, omega arith)
split_line_lem c (d ∷ s) h = elim (Bool-cases (c == 10)) [
  | inl end ↦ ([], d ∷ s, rw end, h, omega arith)
  | inr inner ↦
      let (line, r, e, h', short) = split_line_lem d s h in
      (c ∷ line, r, rw (inner, e), h', omega arith)
]

-- A stream whose flags are clear, and whose text ends its last line.
pub record IsAlive (s : Stream) : Type 0 where
  pub no_eof : s.eof ≡ false
  pub no_fail : s.fail ≡ false
  pub lines : EndsLine s.rest

-- After a `getline`: the end, with an empty string, or fewer characters left.
abbrev pub Next : ℕ → List ℕ → Stream → Type 0
Next n line s = ((line ≡ []) × (s.eof ≡ true)) ⊎ (IsAlive s × (length s.rest < n))

some_left :
    (c : ℕ) (t : List ℕ)
    → EndsLine (c ∷ t)
    → Next (suc (length t)) (split_line (c ∷ t)).0 (after_line (split_line (c ∷ t)).1)
unfolding after_line
some_left c t h =
    let (line, r, e, h', short) = split_line_lem c t h in
    rw e (inr (record { no_eof = refl; no_fail = refl; lines = h' }, omega arith))

getline_rest :
    (rest str : List ℕ)
    → EndsLine rest
    → let next = getline (record { rest = rest; eof = false; fail = false }) str in
      Next (length rest) next.0 next.1
unfolding getline
getline_rest [] str h = inl (refl, refl)
getline_rest (c ∷ t) str h = some_left c t h

pub getline_lem :
    (s : Stream) (str : List ℕ)
    → IsAlive s
    → Next (length s.rest) (getline s str).0 (getline s str).1
getline_lem s str a = alive s.rest s.eof s.fail str a.no_eof a.no_fail a.lines
  where
    alive :
        (rest : List ℕ) (eof fail : Bool) (str : List ℕ)
        → eof ≡ false
        → fail ≡ false
        → EndsLine rest
        → let next = getline (record { rest = rest; eof = eof; fail = fail }) str in
          Next (length rest) next.0 next.1
    alive rest eof fail str e f h = rw (e, f) (getline_rest rest str h)

-- A loop that has ended, with at most `n` characters left if there are any.
abbrev pub Finished : ℕ → Run (Table × Stream) → Type 0
Finished n r =
    (r ≡ exited)
    ⊎ ((read : Table × Stream) × (r ≡ ended read)
        × (((read.1).eof ≡ true) ⊎ (IsAlive read.1 × (length (read.1).rest ≤ n))))

thrown_step :
    (fuel : ℕ) (s : Stream) (c : ℕ) (temp : List ℕ) (table : Table)
    → noted (c ∷ temp) table ≡ none
    → section_rounds (suc fuel) s (c ∷ temp) table ≡ exited
unfolding section_rounds
thrown_step fuel s c temp table e = rw (e, section_rounds)

noted_step :
    (fuel : ℕ) (s : Stream) (c : ℕ) (temp : List ℕ) (table table' : Table)
    → noted (c ∷ temp) table ≡ some table'
    → section_rounds (suc fuel) s (c ∷ temp) table
      ≡ section_rounds fuel (getline s (c ∷ temp)).1 (getline s (c ∷ temp)).0 table'
unfolding section_rounds
noted_step fuel s c temp table table' e = rw (e, section_rounds)

pub empty_step :
    (fuel : ℕ) (s : Stream) (temp : List ℕ) (table : Table)
    → temp ≡ []
    → 0 < fuel
    → section_rounds fuel s temp table ≡ ended (table, s)
unfolding section_rounds
empty_step zero s temp table e h = absurd (omega arith)
empty_step (suc fuel) s temp table e h = rw e refl

pub weaken-Finished : (n m : ℕ) (r : Run (Table × Stream)) → n ≤ m → Finished n r → Finished m r
weaken-Finished n m r h (inl e) = inl e
weaken-Finished n m r h (inr (read, e, inl over)) = inr (read, e, inl over)
weaken-Finished n m r h (inr (read, e, inr (a, short))) = inr (read, e, inr (a, omega arith))

pub section_rounds_lem :
    (fuel : ℕ) (s : Stream) (temp : List ℕ) (table : Table)
    → IsAlive s
    → length s.rest + 2 ≤ fuel
    → Finished (length s.rest) (section_rounds fuel s temp table)
section_rounds_lem zero s temp table a h = absurd (omega arith)
section_rounds_lem (suc fuel) s [] table a h =
    inr ((table, s), empty_step (suc fuel) s [] table refl (omega arith), inr (a, omega arith))
section_rounds_lem (suc fuel) s (c ∷ temp) table a h =
    elim (Option-cases (noted (c ∷ temp) table)) [
      | inl thrown ↦ inl (thrown_step fuel s c temp table thrown)
      | inr (table', e) ↦
          let s' = (getline s (c ∷ temp)).1 in
          let line = (getline s (c ∷ temp)).0 in
          rw (noted_step fuel s c temp table table' e) (elim (getline_lem s (c ∷ temp) a) [
            | inl (none_left, over) ↦
                inr ((table', s'), empty_step fuel s' line table' none_left (omega arith), inl over)
            | inr (a', less) ↦
                weaken-Finished (length s'.rest) (length s.rest) _ (omega arith)
                  (section_rounds_lem fuel s' line table' a' (omega arith))
          ])
    ]
