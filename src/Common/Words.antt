-- ===== src/Common/Words.antt =====
-- What the words of a string are.
use vcu.Prelude.{ℕ, ◌≡◌, refl, ap, ◌∙◌, inl, inr, some, List, [], ◌∷◌, ◌++◌}
use vcu.Prelude.{Bool, false, Bool-cases, ◌==◌, if◌then◌else◌, joined}
use vcu.Common.{split_by, string_split}
use vcu.Common.Split.{runs, close, words, split_by-words}

-- No character is the separator.
abbrev pub Free : (ℕ → Bool) → List ℕ → Type 0
Free sep [] = Unit
Free sep (c ∷ s) = (sep c ≡ false) × Free sep s

-- A word has a character, and none that is the separator.
abbrev pub IsWord : (ℕ → Bool) → List ℕ → Type 0
IsWord sep [] = ⊥
IsWord sep (c ∷ s) = Free sep (c ∷ s)

abbrev pub AreWords : (ℕ → Bool) → List (List ℕ) → Type 0
AreWords sep [] = Unit
AreWords sep (w ∷ ws) = IsWord sep w × AreWords sep ws

-- The string with its separators taken out.
abbrev pub stripped : (ℕ → Bool) → List ℕ → List ℕ
stripped sep [] = []
stripped sep (c ∷ s) = if sep c then stripped sep s else c ∷ stripped sep s

close-AreWords :
    (sep : ℕ → Bool) (w : List ℕ) (ws : List (List ℕ))
    → Free sep w
    → AreWords sep ws
    → AreWords sep (close w ws)
close-AreWords sep [] ws f a = a
close-AreWords sep (c ∷ w) ws f a = (f, a)

joined-close : (w : List ℕ) (ws : List (List ℕ)) → joined (close w ws) ≡ w ++ joined ws
joined-close [] ws = refl
joined-close (c ∷ w) ws = refl

runs_lem :
    (sep : ℕ → Bool) (s : List ℕ)
    → Free sep (runs sep s).0
      × AreWords sep (runs sep s).1
      × ((runs sep s).0 ++ joined (runs sep s).1 ≡ stripped sep s)
unfolding runs
runs_lem sep [] = (tt, tt, refl)
runs_lem sep (c ∷ s) =
    let (free, are, all) = runs_lem sep s in
    elim (Bool-cases (sep c)) [
      | inl is_sep ↦
          rw is_sep
            (tt, close-AreWords sep _ _ free are, joined-close (runs sep s).0 (runs sep s).1 ∙ all)
      | inr other ↦ rw other ((other, free), are, ap (λ t. c ∷ t) all)
    ]

pub split_by_lem :
    (s : List ℕ) (sep : ℕ → Bool)
    → (ws : List (List ℕ)) × (split_by s sep ≡ some ws)
      × AreWords sep ws
      × (joined ws ≡ stripped sep s)
split_by_lem s sep =
    let (free, are, all) = runs_lem sep s in
    (
      words sep s,
      split_by-words s sep,
      close-AreWords sep _ _ free are,
      joined-close (runs sep s).0 (runs sep s).1 ∙ all,
    )

-- `string_split` always ends; what it gives has no empty piece and no separator in a piece, and the
-- pieces one after another are the string without its separators.
pub string_split_lem :
    (s : List ℕ) (sep : ℕ)
    → (ws : List (List ℕ)) × (string_split s sep ≡ some ws)
      × AreWords (λ c. c == sep) ws
      × (joined ws ≡ stripped (λ c. c == sep) s)
string_split_lem s sep = split_by_lem s (λ c. c == sep)
