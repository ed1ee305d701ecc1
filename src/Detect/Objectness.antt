-- ===== src/Detect/Objectness.antt =====
-- The loop that moves the detections with no objectness behind the others.
use vcu.Prelude.{
  drop_enough, ℕ, zero, suc, ◌+◌, ◌-◌, ◌≤◌, ◌<◌, ◌≡◌, refl, ap, ◌∙◌, inl, inr, some, List, [], ◌∷◌,
  ◌++◌,
}
use vcu.Prelude.{
  Bool, true, false, not, ◌&&◌, Bool-cases, ltb, arith, length, take, drop, get_elem?, set,
  length-set, get_elem?-set_self,
}
use mathlib.Core.List.{Perm}
use mathlib.Core.List.Perm
use vcu.Detect.{Floats, Detection, swapped, move_empty}

module _ {ℓ} {A : Type ℓ} where
  get_elem?-some : (xs : List A) (i : ℕ) → i < length xs → (a : A) × (get_elem? xs i ≡ some a)
  get_elem?-some [] i h = absurd (omega arith)
  get_elem?-some (x ∷ xs) zero h = (x, refl)
  get_elem?-some (x ∷ xs) (suc i) h = get_elem?-some xs i (omega arith)

  take-set : (xs : List A) (i j : ℕ) (a : A) → i ≤ j → take i (set xs j a) ≡ take i xs
  take-set xs zero j a h = refl
  take-set [] (suc i) j a h = refl
  take-set (x ∷ xs) (suc i) zero a h = absurd (omega arith)
  take-set (x ∷ xs) (suc i) (suc j) a h = ap (λ t. x ∷ t) (take-set xs i j a (omega arith))

  drop-set : (xs : List A) (n j : ℕ) (a : A) → j < n → drop n (set xs j a) ≡ drop n xs
  drop-set xs zero j a h = absurd (omega arith)
  drop-set [] (suc n) j a h = refl
  drop-set (x ∷ xs) (suc n) zero a h = refl
  drop-set (x ∷ xs) (suc n) (suc j) a h = drop-set xs n j a (omega arith)

  drop-get :
      (xs : List A) (j : ℕ) (a : A) → get_elem? xs j ≡ some a → drop j xs ≡ a ∷ drop (suc j) xs
  drop-get [] j a h = ground arith
  drop-get (x ∷ xs) zero a h = ground arith
  drop-get (x ∷ xs) (suc j) a h = drop-get xs j a h

  take-get :
      (xs : List A) (i : ℕ) (a : A)
      → get_elem? xs i ≡ some a
      → take (suc i) xs ≡ take i xs ++ (a ∷ [])
  take-get [] i a h = ground arith
  take-get (x ∷ xs) zero a h = ground arith
  take-get (x ∷ xs) (suc i) a h = ap (λ t. x ∷ t) (take-get xs i a h)

  -- An element put in front and the one it replaces.
  replace-perm :
      (xs : List A) (j : ℕ) (x y : A) → get_elem? xs j ≡ some y → Perm (y ∷ set xs j x) (x ∷ xs)
  replace-perm [] j x y h = ground arith
  replace-perm (z ∷ xs) zero x y h = let same : z ≡ y = ground arith in rw same (Perm.swap x y xs)
  replace-perm (z ∷ xs) (suc j) x y h =
      Perm.trans (Perm.swap z y (set xs j x))
        (Perm.trans (Perm.cons z (replace-perm xs j x y h)) (Perm.swap x z xs))

  set_same : (xs : List A) (i : ℕ) (x y : A) → get_elem? xs i ≡ some x → set (set xs i y) i x ≡ xs
  set_same [] i x y h = refl
  set_same (z ∷ xs) zero x y h = ground arith
  set_same (z ∷ xs) (suc i) x y h = ap (λ t. z ∷ t) (set_same xs i x y h)

  exchange-perm :
      (xs : List A) (i j : ℕ) (x y : A)
      → i ≤ j
      → get_elem? xs i ≡ some x
      → get_elem? xs j ≡ some y
      → Perm (set (set xs i y) j x) xs
  exchange-perm [] i j x y h p q = ground arith
  exchange-perm (z ∷ xs) zero zero x y h p q = rw (set_same (z ∷ xs) zero x y p) Perm.rfl
  exchange-perm (z ∷ xs) zero (suc j) x y h p q =
      let same : z ≡ x = ground arith in rw same (replace-perm xs j x y q)
  exchange-perm (z ∷ xs) (suc i) zero x y h p q = absurd (omega arith)
  exchange-perm (z ∷ xs) (suc i) (suc j) x y h p q =
      Perm.cons z (exchange-perm xs i j x y (omega arith) p q)

module _ (fl : Floats) where
  abbrev pub all_live : List (Detection fl.Float) → Bool
  all_live [] = true
  all_live (d ∷ dets) = not (fl.is_zero d.objectness) && all_live dets

  abbrev pub all_empty : List (Detection fl.Float) → Bool
  all_empty [] = true
  all_empty (d ∷ dets) = fl.is_zero d.objectness && all_empty dets

  all_live-snoc :
      (dets : List (Detection fl.Float)) (d : Detection fl.Float)
      → all_live dets ≡ true
      → fl.is_zero d.objectness ≡ false
      → all_live (dets ++ (d ∷ [])) ≡ true
  all_live-snoc [] d h e = ground arith
  all_live-snoc (c ∷ dets) d h e = ground (arith, all_live-snoc dets d)

  -- What the loop leaves, and how many detections it leaves in front.
  abbrev pub Parted : List (Detection fl.Float) → List (Detection fl.Float) × ℕ → Type 0
  Parted dets r =
      Perm r.0 dets
      × (r.1 ≤ length dets)
      × (all_live (take r.1 r.0) ≡ true)
      × (all_empty (drop r.1 r.0) ≡ true)

  round_empty :
      (fuel i m : ℕ) (dets : List (Detection fl.Float)) (d e : Detection fl.Float)
      → ltb i (suc m) ≡ true
      → get_elem? dets i ≡ some d
      → get_elem? dets m ≡ some e
      → fl.is_zero d.objectness ≡ true
      → move_empty fl (suc fuel) i (suc m) dets ≡ move_empty fl fuel i m (swapped fl dets i m d e)
  unfolding move_empty
  round_empty fuel i m dets d e more at_i at_m gone =
      let last : suc m - 1 ≡ m = omega arith in rw (more, at_i, last, at_m, gone) refl

  round_live :
      (fuel i m : ℕ) (dets : List (Detection fl.Float)) (d e : Detection fl.Float)
      → ltb i (suc m) ≡ true
      → get_elem? dets i ≡ some d
      → get_elem? dets m ≡ some e
      → fl.is_zero d.objectness ≡ false
      → move_empty fl (suc fuel) i (suc m) dets ≡ move_empty fl fuel (suc i) (suc m) dets
  unfolding move_empty
  round_live fuel i m dets d e more at_i at_m full =
      let last : suc m - 1 ≡ m = omega arith in rw (more, at_i, last, at_m, full) refl

  move_empty_from :
      (fuel i n : ℕ) (dets : List (Detection fl.Float))
      → n < i + fuel
      → i ≤ n
      → n ≤ length dets
      → all_live (take i dets) ≡ true
      → all_empty (drop n dets) ≡ true
      → (r : List (Detection fl.Float) × ℕ) × (move_empty fl fuel i n dets ≡ some r) × Parted dets r
  unfolding move_empty
  move_empty_from zero i n dets f h k live empty = absurd (omega arith)
  move_empty_from (suc fuel) i zero dets f h k live empty =
      let start : i ≡ 0 = omega arith in
      let stop : ltb i 0 ≡ false = ground arith in
      ((dets, 0), rw stop refl, (Perm.rfl, omega arith, refl, empty))
  move_empty_from (suc fuel) i (suc m) dets f h k live empty = elim (Bool-cases (ltb i (suc m))) [
    | inr done ↦
        let end : i ≡ suc m = ground arith in
        ((dets, suc m), rw done refl, (Perm.rfl, k, rw end at live, empty))
    | inl more ↦
        let low : i < suc m = ground arith in
        let (d, at_i) = get_elem?-some dets i (omega arith) in
        let (e, at_m) = get_elem?-some dets m (omega arith) in
        elim (Bool-cases (fl.is_zero d.objectness)) [
          | inr full ↦
              let (r, ran, parted) =
                move_empty_from fuel (suc i) (suc m) dets (omega arith) (omega arith) k
                  (rw (take-get dets i d at_i) (all_live-snoc (take i dets) d live full)) empty in
              (r, round_live fuel i m dets d e more at_i at_m full ∙ ran, parted)
          | inl gone ↦
              let dets' = swapped fl dets i m d e in
              let size : length dets' ≡ length dets =
                length-set (set dets i e) m d ∙ length-set dets i e in
              let front : take i dets' ≡ take i dets =
                take-set (set dets i e) i m d (omega arith) ∙ take-set dets i i e (omega arith) in
              let moved : get_elem? dets' m ≡ some d =
                get_elem?-set_self (set dets i e) m d (omega (arith, length-set dets i e)) in
              let back : drop (suc m) dets' ≡ drop (suc m) dets =
                drop-set (set dets i e) (suc m) m d (omega arith)
                ∙ drop-set dets (suc m) i e (omega arith) in
              let (r, ran, (perm, bound, live', empty')) =
                move_empty_from fuel i m dets' (omega arith) (omega arith) (omega arith)
                  (rw front live) (rw (drop-get dets' m d moved, gone, back) empty) in
              (
                r,
                round_empty fuel i m dets d e more at_i at_m gone ∙ ran,
                (
                  Perm.trans perm (exchange-perm dets i m d e (omega arith) at_i at_m),
                  omega arith,
                  live',
                  empty',
                ),
              )
        ]
  ]

  -- The loop at the head of `do_nms_sort` and `diounms_sort` always ends, within the array: what it leaves is the
  -- detections in some order, those with an objectness in front, as many as it reports, and
  -- those without behind them.
  pub move_empty_lem :
      (dets : List (Detection fl.Float))
      → (r : List (Detection fl.Float) × ℕ) × (move_empty fl (length dets + 1) 0 (length dets) dets
          ≡ some r)
        × Parted dets r
  move_empty_lem dets =
      move_empty_from (length dets + 1) 0 (length dets) dets (omega arith) (omega arith)
        (omega arith) refl (ap all_empty (drop_enough (length dets) dets (omega arith)))
