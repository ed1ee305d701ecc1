-- ===== src/Yolo/Sums.antt =====
-- Finite sums, which may be taken in either order.
use vcu.Prelude.{ℕ, zero, suc, ◌+◌, ◌≡◌, refl, sym, ap, ◌∙◌, arith}

-- `f i + … + f (i + m - 1)`
abbrev pub sum : (ℕ → ℕ) → ℕ → ℕ → ℕ
sum f zero i = 0
sum f (suc m) i = f i + sum f m (suc i)

sum_zeros : (m i : ℕ) → sum (λ i. 0) m i ≡ 0
sum_zeros zero i = refl
sum_zeros (suc m) i = omega (arith, sum_zeros m (suc i))

sum_both : (f g : ℕ → ℕ) (m i : ℕ) → sum (λ i. f i + g i) m i ≡ sum f m i + sum g m i
sum_both f g zero i = omega arith
sum_both f g (suc m) i = omega (arith, sum_both f g m (suc i))

pub sum_swap :
    (f : ℕ → ℕ → ℕ) (k n m j : ℕ)
    → sum (λ n. sum (f n) m j) k n ≡ sum (λ j. sum (λ n. f n j) k n) m j
sum_swap f zero n m j = sym (sum_zeros m j)
sum_swap f (suc k) n m j =
    ap (λ t. sum (f n) m j + t) (sum_swap f k (suc n) m j)
    ∙ sym (sum_both (f n) (λ j. sum (λ n. f n j) k (suc n)) m j)
