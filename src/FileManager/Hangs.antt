-- ===== src/FileManager/Hangs.antt =====
-- When the reading of the main configuration file does not end.
use vcu.Prelude.{
  ℕ, zero, suc, ◌+◌, ◌-◌, ◌%◌, ◌^◌, ◌≤◌, ◌<◌, ◌≡◌, refl, ◌∙◌, inl, inr, none, some, List, [], ◌∷◌,
}
use vcu.Prelude.{Bool, true, ◌==◌, leb, arith, length, Bool-cases, Option-cases, take, drop}
use vcu.Common.{substr, find_from}
use vcu.FileManager.{Table, find_char, insert}
use vcu.FileManager.Basic.{Stream, getline, value_end, basic_entry, noted, running, section_rounds}

find_from-lt : (p : ℕ → Bool) (s : List ℕ) (i : ℕ) → find_from p s 0 ≡ some i → i < length s
unfolding find_from
find_from-lt p [] i h = ground arith
find_from-lt p (c ∷ s) zero h = omega arith
find_from-lt p (c ∷ s) (suc i) h = ground (arith, find_from-lt p s i)

substr-some : (s : List ℕ) (i n : ℕ) → i ≤ length s → substr s i n ≡ some (take n (drop i s))
unfolding substr
substr-some s i n h = let inside : leb i (length s) ≡ true = ground arith in rw inside

no_sign :
    (temp : List ℕ)
    → find_char 61 temp ≡ none
    → basic_entry temp ≡ some (temp, take (value_end temp) temp)
unfolding basic_entry
no_sign temp absent = rw (absent, substr-some temp 0 (value_end temp) (omega arith), basic_entry)

sign :
    (temp : List ℕ) (i : ℕ)
    → find_char 61 temp ≡ some i
    → i < length temp
    → basic_entry temp
      ≡ some (take i temp, take ((value_end temp + 2 ^ 64 - i - 1) % 2 ^ 64) (drop (i + 1) temp))
unfolding basic_entry
sign temp i found inside = rw (
  found,
  substr-some temp 0 i (omega arith),
  substr-some temp (i + 1) ((value_end temp + 2 ^ 64 - i - 1) % 2 ^ 64) (omega arith),
  basic_entry,
)

-- No line of a section makes `substr` throw.
basic_entry-some : (temp : List ℕ) → (found : List ℕ × List ℕ) × (basic_entry temp ≡ some found)
basic_entry-some temp = elim (Option-cases (find_char 61 temp)) [
  | inl absent ↦ ((temp, take (value_end temp) temp), no_sign temp absent)
  | inr (i, found) ↦ (
    (take i temp, take ((value_end temp + 2 ^ 64 - i - 1) % 2 ^ 64) (drop (i + 1) temp)),
    sign temp i found (find_from-lt (λ d. d == 61) temp i found),
  )
]

noted-some :
    (c : ℕ) (temp : List ℕ) (table : Table)
    → (table' : Table) × (noted (c ∷ temp) table ≡ some table')
unfolding noted
noted-some c temp table = elim (Bool-cases (c == 35)) [
  | inl comment ↦ (table, rw comment)
  | inr other ↦
      let (found, e) = basic_entry-some (c ∷ temp) in (insert found.0 found.1 table, rw (other, e))
]

getline_over :
    (s : Stream) (str : List ℕ) → s.eof ≡ true → getline s str ≡ (str, record s { fail = true })
unfolding getline
getline_over s str e = rw (e, getline)

running_step :
    (fuel : ℕ) (s : Stream) (c : ℕ) (temp : List ℕ) (table table' : Table)
    → noted (c ∷ temp) table ≡ some table'
    → getline s (c ∷ temp) ≡ (c ∷ temp, record s { fail = true })
    → section_rounds (suc fuel) s (c ∷ temp) table
      ≡ section_rounds fuel (record s { fail = true }) (c ∷ temp) table'
unfolding section_rounds
running_step fuel s c temp table table' e over = rw (e, over, section_rounds)

no_rounds :
    (s : Stream) (temp : List ℕ) (table : Table) → section_rounds zero s temp table ≡ running
unfolding section_rounds
no_rounds s temp table = refl

-- When the line of a section that has been read last is not empty and the file has ended behind it,
-- the inner loop of `parserBasicCfg` goes on for any number of rounds: it neither ends nor throws.
pub section_rounds-running :
    (fuel : ℕ) (s : Stream) (c : ℕ) (temp : List ℕ) (table : Table)
    → s.eof ≡ true
    → section_rounds fuel s (c ∷ temp) table ≡ running
section_rounds-running zero s c temp table e = no_rounds s (c ∷ temp) table
section_rounds-running (suc fuel) s c temp table e =
    let (table', kept) = noted-some c temp table in
    running_step fuel s c temp table table' kept (getline_over s (c ∷ temp) e)
    ∙ section_rounds-running fuel (record s { fail = true }) c temp table' e
