-- ===== src/Detect/Scored.antt =====
-- What holds of every detection of an array, and the reads and writes of a class's probability.
use vcu.Prelude.{
  ℕ, zero, suc, ◌≡◌, refl, inl, inr, some, List, [], ◌∷◌, ◌++◌, map, Bool, true, false, ◌&&◌, ltb,
  ◌==◌, Bool-cases, arith, length, take, drop, get_elem?, set,
}
use vcu.Detect.{Floats, Detection}

module _ {ℓ} {A : Type ℓ} where
  abbrev pub all : (A → Bool) → List A → Bool
  all p [] = true
  all p (x ∷ xs) = p x && all p xs

  pub all-cons :
      (p : A → Bool) (x : A) (xs : List A)
      → all p (x ∷ xs) ≡ true
      → (p x ≡ true) × (all p xs ≡ true)
  all-cons p x xs h = elim (Bool-cases (p x)) [
    | inl holds ↦ (holds, rw holds at h)
    | inr fails ↦ absurd (let e : false ≡ true = rw fails at h in cc)
  ]

  pub all-append :
      (p : A → Bool) (xs ys : List A) → all p xs ≡ true → all p ys ≡ true → all p (xs ++ ys) ≡ true
  all-append p [] ys h k = k
  all-append p (x ∷ xs) ys h k =
      let (first, rest) = all-cons p x xs h in rw (first, all-append p xs ys rest k) refl

  pub all-take : (p : A → Bool) (n : ℕ) (xs : List A) → all p xs ≡ true → all p (take n xs) ≡ true
  all-take p zero xs h = refl
  all-take p (suc n) [] h = refl
  all-take p (suc n) (x ∷ xs) h =
      let (first, rest) = all-cons p x xs h in rw (first, all-take p n xs rest) refl

  pub all-drop : (p : A → Bool) (n : ℕ) (xs : List A) → all p xs ≡ true → all p (drop n xs) ≡ true
  all-drop p zero xs h = h
  all-drop p (suc n) [] h = refl
  all-drop p (suc n) (x ∷ xs) h = all-drop p n xs (all-cons p x xs h).1

  pub all-set :
      (p : A → Bool) (i : ℕ) (xs : List A) (y : A)
      → all p xs ≡ true
      → p y ≡ true
      → all p (set xs i y) ≡ true
  all-set p i [] y h k = refl
  all-set p zero (x ∷ xs) y h k = rw (k, (all-cons p x xs h).1) refl
  all-set p (suc i) (x ∷ xs) y h k =
      let (first, rest) = all-cons p x xs h in rw (first, all-set p i xs y rest k) refl

  pub all-get_elem? :
      (p : A → Bool) (i : ℕ) (xs : List A) (y : A)
      → all p xs ≡ true
      → get_elem? xs i ≡ some y
      → p y ≡ true
  all-get_elem? p i [] y h e = absurd (cc)
  all-get_elem? p zero (x ∷ xs) y h e = let same : x ≡ y = cc in rw same at (all-cons p x xs h).0
  all-get_elem? p (suc i) (x ∷ xs) y h e = all-get_elem? p i xs y (all-cons p x xs h).1 e

  pub all-map :
      (p q : A → Bool) (f : A → A) (xs : List A)
      → ((x : A) → p x ≡ true → q (f x) ≡ true)
      → all p xs ≡ true
      → all q (map f xs) ≡ true
  all-map p q f [] keeps h = refl
  all-map p q f (x ∷ xs) keeps h =
      let (first, rest) = all-cons p x xs h in rw (keeps x first, all-map p q f xs keeps rest) refl

module _ (fl : Floats) where
  -- Whether a detection has a probability for class `k`, and whether it has `n` classes, each with one
  abbrev pub has_score : ℕ → Detection fl.Float → Bool
  has_score k d = ltb k (length d.prob)

  abbrev pub has_classes : ℕ → Detection fl.Float → Bool
  has_classes n d = (d.classes == n) && (length d.prob == n)

  pub has_classes_lem :
      (n : ℕ) (d : Detection fl.Float)
      → has_classes n d ≡ true
      → (d.classes ≡ n) × (length d.prob ≡ n)
  has_classes_lem n d h = (ground arith, ground arith)

  pub has_classes_intro :
      (n : ℕ) (d : Detection fl.Float) → d.classes ≡ n → length d.prob ≡ n → has_classes n d ≡ true
  has_classes_intro n d e f = ground arith
