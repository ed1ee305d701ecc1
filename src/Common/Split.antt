-- ===== src/Common/Split.antt =====
-- `string_split` against the words of a string by recursion on its characters.
use vcu.Prelude.{
  ℕ, zero, suc, ◌+◌, ◌-◌, ◌<◌, ◌≡◌, refl, sym, ap, ◌∙◌, inl, inr, Option, none, some, List, [], ◌∷◌,
}
use vcu.Prelude.{
  Bool, true, false, not, Bool-cases, Option-cases, ◌==◌, leb, if◌then◌else◌, arith, length, take,
  drop, length-drop, length-take, drop-drop, take_enough,
}
use vcu.Common.{substr, find_from, find_first, piece, split_rounds, split_by, string_split}

-- The word at the front of a string, and the words behind it.
abbrev pub close : List ℕ → List (List ℕ) → List (List ℕ)
close [] ws = ws
close (c ∷ w) ws = (c ∷ w) ∷ ws

unfoldable pub runs : (ℕ → Bool) → List ℕ → List ℕ × List (List ℕ)
runs sep [] = ([], [])
runs sep (c ∷ s) =
    if sep c
    then ([], close (runs sep s).0 (runs sep s).1)
    else (c ∷ (runs sep s).0, (runs sep s).1)

abbrev pub words : (ℕ → Bool) → List ℕ → List (List ℕ)
words sep s = close (runs sep s).0 (runs sep s).1

-- A search from a position is a search in what is left from there.
find_from-drop :
    (p : ℕ → Bool) (s : List ℕ) (i : ℕ)
    → find_from p s i ≡ elim (find_from p (drop i s) 0) [ none ↦ none | some j ↦ some (i + j) ]
unfolding find_from
find_from-drop p s zero = elim (Option-cases (find_from p s 0)) [
  | inl e ↦ rw e refl
  | inr (j, e) ↦ rw e (ap some (omega arith))
]
find_from-drop p [] (suc i) = refl
find_from-drop p (c ∷ s) (suc i) = elim (Option-cases (find_from p (drop i s) 0)) [
  | inl e ↦ rw (find_from-drop p s i, e) refl
  | inr (j, e) ↦ rw (find_from-drop p s i, e) (ap some (omega arith))
]

-- Separators in front of a word are passed over.
no_word : (sep : ℕ → Bool) (s : List ℕ) → find_from (λ c. not (sep c)) s 0 ≡ none → words sep s ≡ []
unfolding find_from runs
no_word sep [] h = refl
no_word sep (c ∷ s) h = elim (Bool-cases (sep c)) [
  | inl is_sep ↦ ground (arith, no_word sep s)
  | inr other ↦ ground arith
]

first_word :
    (sep : ℕ → Bool) (s : List ℕ) (j : ℕ)
    → find_from (λ c. not (sep c)) s 0 ≡ some j
    → (c : ℕ) × (t : List ℕ) × (drop j s ≡ c ∷ t)
      × (sep c ≡ false)
      × (words sep s ≡ words sep (drop j s))
      × (j < length s)
unfolding find_from runs
first_word sep [] j h = ground arith
first_word sep (c ∷ s) zero h = (c, s, refl, ground arith, refl, omega arith)
first_word sep (c ∷ s) (suc j) h =
    let (later, is_sep) : (find_from (λ c. not (sep c)) s 0 ≡ some j) × (sep c ≡ true) =
      ground arith in
    let (d, t, e, other, same, inside) = first_word sep s j later in
    (d, t, e, other, rw is_sep same, omega arith)

whole_word : (sep : ℕ → Bool) (s : List ℕ) → find_from sep s 0 ≡ none → runs sep s ≡ (s, [])
unfolding find_from runs
whole_word sep [] h = refl
whole_word sep (c ∷ s) h = ground (arith, whole_word sep s)

word_end :
    (sep : ℕ → Bool) (s : List ℕ) (j : ℕ)
    → find_from sep s 0 ≡ some j
    → (runs sep s ≡ (take j s, words sep (drop j s))) × (j < length s)
unfolding find_from runs
word_end sep [] j h = ground arith
word_end sep (c ∷ s) zero h = ground arith
word_end sep (c ∷ s) (suc j) h = ground (arith, word_end sep s j)

-- The two searches of a round, at a position inside the string.
abbrev next_begin : List ℕ → (ℕ → Bool) → Option ℕ → Option ℕ
next_begin s sep i = find_first (λ c. not (sep c)) s i

abbrev next_end : List ℕ → (ℕ → Bool) → Option ℕ → Option ℕ
next_end s sep b = find_first sep s b

no_rounds :
    (fuel : ℕ) (s : List ℕ) (sep : ℕ → Bool)
    → 0 < fuel
    → split_rounds fuel s sep none none ≡ some []
unfolding split_rounds
no_rounds zero s sep h = absurd (omega arith)
no_rounds (suc fuel) s sep h = refl

close_lem : (w : List ℕ) (ws : List (List ℕ)) → 0 < length w → close w ws ≡ w ∷ ws
close_lem [] ws h = absurd (omega arith)
close_lem (c ∷ w) ws h = refl

in_word :
    (sep : ℕ → Bool) (u : List ℕ) (c : ℕ) (t : List ℕ) (k : ℕ)
    → u ≡ c ∷ t
    → sep c ≡ false
    → find_from sep u 0 ≡ some k
    → 0 < k
unfolding find_from
in_word sep u c t zero e other h = let h' = rw e at h in ground arith
in_word sep u c t (suc k) e other h = omega arith

-- With a round for each character left and one more, the rounds find the words that are left.
rounds_lem :
    (fuel : ℕ) (s : List ℕ) (sep : ℕ → Bool) (i : ℕ)
    → length (drop i s) < fuel
    → split_rounds fuel s sep
        (next_begin s sep (some i))
        (next_end s sep (next_begin s sep (some i)))
      ≡ some (words sep (drop i s))
unfolding split_rounds find_first piece substr
rounds_lem zero s sep i h = absurd (omega arith)
rounds_lem (suc fuel) s sep i h = elim (Option-cases (find_from (λ c. not (sep c)) (drop i s) 0)) [
  | inl absent ↦
      let begins : find_from (λ c. not (sep c)) s i ≡ none =
        find_from-drop _ s i ∙ rw absent refl in
      rw (begins, no_word sep (drop i s) absent) refl
  | inr (j, found) ↦
      let begins : find_from (λ c. not (sep c)) s i ≡ some (i + j) =
        find_from-drop _ s i ∙ rw found refl in
      let (c, t, shape, other, same, inside) = first_word sep (drop i s) j found in
      let u = drop (i + j) s in
      let here : drop j (drop i s) ≡ u = drop-drop i j s in
      let fits : leb (i + j) (length s) ≡ true = ground (arith, length-drop i s) in
      elim (Option-cases (find_from sep u 0)) [
        | inl last ↦
            let ends : find_from sep s (i + j) ≡ none = find_from-drop _ s (i + j) ∙ rw last refl in
            let one : words sep (drop i s) ≡ u ∷ [] =
              same
              ∙ ap (words sep) here
              ∙ rw (whole_word sep u last)
                  (close_lem u [] (omega (arith, ap length shape, ap length here))) in
            rw
              (
                begins,
                ends,
                fits,
                take_enough (length s) u (omega (arith, length-drop (i + j) s)),
                no_rounds fuel s sep (omega arith),
                one,
              )
              refl
        | inr (k, next) ↦
            let ends : find_from sep s (i + j) ≡ some (i + j + k) =
              find_from-drop _ s (i + j) ∙ rw next refl in
            let (cut, before) = word_end sep u k next in
            let some_word = in_word sep u c t k (sym here ∙ shape) other next in
            let size : i + j + k - (i + j) ≡ k = omega arith in
            let later =
              rounds_lem fuel s sep (i + j + k) (
                omega (arith, length-drop i s, length-drop (i + j) s, length-drop (i + j + k) s)) in
            let split : words sep (drop i s) ≡ take k u ∷ words sep (drop (i + j + k) s) =
              same
              ∙ ap (words sep) here
              ∙ rw cut (close_lem (take k u) _ (omega (arith, length-take k u)))
              ∙ ap (λ l. take k u ∷ words sep l) (drop-drop (i + j) k s) in
            rw (begins, ends, fits, size, later, split) refl
      ]
]

pub split_by-words : (s : List ℕ) (sep : ℕ → Bool) → split_by s sep ≡ some (words sep s)
unfolding split_by
split_by-words s sep = rounds_lem (length s + 1) s sep 0 (omega arith)

-- `string_split` always ends, and gives the words of the string in order.
pub string_split-words :
    (s : List ℕ) (sep : ℕ) → string_split s sep ≡ some (words (λ c. c == sep) s)
string_split-words s sep = split_by-words s (λ c. c == sep)
