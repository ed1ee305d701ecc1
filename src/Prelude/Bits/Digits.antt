-- ===== src/Prelude/Bits/Digits.antt =====
-- One equation for the lowest digit of the native bit operations, whatever the digits' operation.
use Prim.Native.Nat.{ℕ, zero, suc, ◌+◌, ◌-◌, ◌*◌, ◌/◌, ◌%◌, ◌≤◌, digits, bitwise}
use mathlib.Core.Path.{◌≡◌, refl, ◌∙◌}
use native.Mathlib.Omega.{arith}

module _ (rest : ℕ → ℕ) (op : ℕ → ℕ → ℕ) where
  -- A round of fuel more than the number needs changes nothing.
  spare_round : (n a b : ℕ) → a ≤ n → digits rest op (suc n) a b ≡ digits rest op n a b
  spare_round zero zero b h = refl
  spare_round zero (suc a) b h = absurd (omega arith)
  spare_round (suc n) zero b h = refl
  spare_round (suc n) (suc a) b h = rw (spare_round n (suc a / 2) (b / 2) (omega arith))

  spare : (k n a b : ℕ) → a ≤ n → (m : ℕ) → m ≡ k + n → digits rest op m a b ≡ digits rest op n a b
  spare zero n a b h m e = let e' : m ≡ n = omega arith in rw e'
  spare (suc k) n a b h zero e = absurd (omega arith)
  spare (suc k) n a b h (suc m) e =
      spare_round m a b (omega arith) ∙ spare k n a b h m (omega arith)

  pub bitwise_step :
      (a b : ℕ)
      → bitwise rest op (suc a) b ≡ bitwise rest op (suc a / 2) (b / 2) * 2 + op (suc a % 2) (b % 2)
  bitwise_step a b =
      rw (
        spare (suc a - suc a / 2 - 1) (suc a / 2) (suc a / 2) (b / 2) (omega arith) a (omega arith))
