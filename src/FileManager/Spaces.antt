-- ===== src/FileManager/Spaces.antt =====
-- `rmStrSpace` takes out every space.
use vcu.Prelude.{
  ℕ, zero, suc, ◌+◌, ◌<◌, ◌≡◌, refl, ◌∙◌, inl, inr, none, some, Option-cases, List, [], ◌∷◌, ◌++◌,
}
use vcu.Prelude.{◌==◌, arith, length, take, drop}
use vcu.Common.{find_from}
use vcu.Common.Words.{stripped}
use vcu.FileManager.{rm_rounds, rm_str_space}

no_space : (s : List ℕ) → find_from (λ c. c == 32) s 0 ≡ none → stripped (λ c. c == 32) s ≡ s
unfolding find_from
no_space [] h = refl
no_space (c ∷ s) h = ground (arith, no_space s)

one_space :
    (s : List ℕ) (i : ℕ)
    → find_from (λ c. c == 32) s 0 ≡ some i
    → (stripped (λ c. c == 32) (take i s ++ drop (suc i) s) ≡ stripped (λ c. c == 32) s)
      × (length (take i s ++ drop (suc i) s) < length s)
unfolding find_from
one_space [] i h = ground arith
one_space (c ∷ s) zero h = ground arith
one_space (c ∷ s) (suc i) h = ground (arith, one_space s i)

rm_rounds_lem :
    (fuel : ℕ) (s : List ℕ) → length s < fuel → rm_rounds fuel s ≡ stripped (λ c. c == 32) s
unfolding rm_rounds
rm_rounds_lem zero s h = absurd (omega arith)
rm_rounds_lem (suc fuel) s h = elim (Option-cases (find_from (λ c. c == 32) s 0)) [
  | inl clean ↦ rw (clean, no_space s clean) refl
  | inr (i, found) ↦
      let (same, shorter) = one_space s i found in
      rw found (rm_rounds_lem fuel (take i s ++ drop (suc i) s) (omega arith) ∙ same)
]

-- `rmStrSpace` ends within a round for each character and one more, and leaves the string without its
-- spaces.
pub rm_str_space_lem : (s : List ℕ) → rm_str_space s ≡ stripped (λ c. c == 32) s
unfolding rm_str_space
rm_str_space_lem s = rm_rounds_lem (length s + 1) s (omega arith)
