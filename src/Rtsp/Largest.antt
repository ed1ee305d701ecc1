-- ===== src/Rtsp/Largest.antt =====
-- The sequence number in the reports, and the wraps counted.
use vcu.Prelude.{
  ℕ, suc, ◌+◌, ◌*◌, ◌%◌, ◌^◌, ◌<◌, ◌≡◌, refl, sym, ap, subst, ◌∙◌, inl, inr, List, [], ◌∷◌,
}
use vcu.Prelude.{ltb, ◌==◌, Bool-cases, if◌then◌else◌, arith}
use vcu.Rtsp.Reports.{Stats, set_seq}

-- The packets' numbers in the order of their arrival.
abbrev pub set_seqs : Stats → List ℕ → Stats
set_seqs s [] = s
set_seqs s (seq ∷ seqs) = set_seqs (set_seq seq s) seqs

abbrev pub largest : ℕ → List ℕ → ℕ
largest n [] = n
largest n (m ∷ ms) = if ltb n m then largest m ms else largest n ms

abbrev pub count_of : ℕ → List ℕ → ℕ
count_of n [] = 0
count_of n (m ∷ ms) = let rest = count_of n ms in if m == n then suc rest else rest

abbrev pub All16 : List ℕ → Type 0
All16 [] = Unit
All16 (m ∷ ms) = (m < 2 ^ 16) × All16 ms

abbrev larger : ℕ → ℕ → ℕ
larger n m = if ltb n m then m else n

one_seq : (m : ℕ) (s : Stats) → m < 2 ^ 16 → s.max < 2 ^ 16 → (set_seq m s).max ≡ larger s.max m
unfolding set_seq
one_seq m s h k =
    let low : (m + 65536 * s.wrap_around_count) % 2 ^ 16 ≡ m = omega arith in
    rw low (elim (Bool-cases (m == 65535)) [
      | inl top ↦ rw top (ground arith)
      | inr below ↦ rw below (ground arith)
    ])

larger_lt : (n m : ℕ) → n < 2 ^ 16 → m < 2 ^ 16 → larger n m < 2 ^ 16
larger_lt n m h k = ground arith

one_wrap :
    (m : ℕ) (s : Stats)
    → (set_seq m s).wrap_around_count
      ≡ (if m == 65535 then (s.wrap_around_count + 1) % 2 ^ 16 else s.wrap_around_count)
unfolding set_seq
one_wrap m s = refl

one_same : (m : ℕ) (s : Stats) → (set_seq m s).seq ≡ (set_seq m s).max
unfolding set_seq
one_same m s = refl

largest_step : (n m : ℕ) (ms : List ℕ) → largest n (m ∷ ms) ≡ largest (larger n m) ms
largest_step n m ms = elim (Bool-cases (ltb n m)) [
  | inl less ↦ rw less
  | inr not_less ↦ rw not_less
]

max_lem :
    (s : Stats) (ms : List ℕ) → All16 ms → s.max < 2 ^ 16 → (set_seqs s ms).max ≡ largest s.max ms
max_lem s [] h k = refl
max_lem s (m ∷ ms) h k =
    let one = one_seq m s h.0 k in
    max_lem (set_seq m s) ms h.1 (subst (λ n. n < 2 ^ 16) (sym one) (larger_lt s.max m k h.0))
    ∙ ap (λ n. largest n ms) one
    ∙ sym (largest_step s.max m ms)

same_lem : (s : Stats) (m : ℕ) (ms : List ℕ) → (set_seqs s (m ∷ ms)).seq ≡ (set_seqs s (m ∷ ms)).max
same_lem s m [] = one_same m s
same_lem s m (m' ∷ ms) = same_lem (set_seq m s) m' ms

wrap_lem :
    (s : Stats) (ms : List ℕ)
    → s.wrap_around_count < 2 ^ 16
    → (set_seqs s ms).wrap_around_count ≡ (s.wrap_around_count + count_of 65535 ms) % 2 ^ 16
wrap_lem s [] h = omega arith
wrap_lem s (m ∷ ms) h = elim (Bool-cases (m == 65535)) [
  | inl top ↦
      let one : (set_seq m s).wrap_around_count ≡ (s.wrap_around_count + 1) % 2 ^ 16 =
        one_wrap m s ∙ rw top refl in
      rw top (omega (arith, wrap_lem (set_seq m s) ms (omega arith), one))
  | inr below ↦
      let one : (set_seq m s).wrap_around_count ≡ s.wrap_around_count =
        one_wrap m s ∙ rw below refl in
      rw below (omega (arith, wrap_lem (set_seq m s) ms (omega arith), one))
]

-- After the packets' numbers have been set in the order of their arrival, the number reported is the
-- largest of them and of the one kept before, so that it stays at 65535 once that number has arrived,
-- and the wraps, modulo 2 ^ 16, are those counted before and the packets with the number 65535.
pub set_seq-largest :
    (s : Stats) (m : ℕ) (ms : List ℕ)
    → All16 (m ∷ ms)
    → s.max < 2 ^ 16
    → s.wrap_around_count < 2 ^ 16
    → ((set_seqs s (m ∷ ms)).seq ≡ largest s.max (m ∷ ms))
      × ((set_seqs s (m ∷ ms)).wrap_around_count
          ≡ (s.wrap_around_count + count_of 65535 (m ∷ ms)) % 2 ^ 16)
set_seq-largest s m ms h k w = (same_lem s m ms ∙ max_lem s (m ∷ ms) h k, wrap_lem s (m ∷ ms) w)
