-- ===== src/Prelude/Bits/Xor.antt =====
-- Exclusive or is commutative and cancels.
use Prim.Native.Nat.{ℕ, zero, suc, ◌+◌, ◌/◌, ◌%◌, ◌≤◌, bit_xor}
use mathlib.Core.Path.{◌≡◌, refl, sym, ap, ◌∙◌}
use native.Mathlib.Omega.{arith}
use vcu.Prelude.Bits.{bit_xor_step, zero-bit_xor, differ-eq}

comm_fuel : (n a b : ℕ) → a + b ≤ n → bit_xor a b ≡ bit_xor b a
comm_fuel zero a b h = let p : a ≡ 0 = omega arith in let q : b ≡ 0 = omega arith in rw (p, q)
comm_fuel (suc n) zero zero h = refl
comm_fuel (suc n) zero (suc b) h = ground (
  arith,
  bit_xor_step 0 (suc b),
  bit_xor_step (suc b) 0,
  differ-eq (0 % 2) (suc b % 2),
  differ-eq (suc b % 2) (0 % 2),
  comm_fuel n (0 / 2) (suc b / 2) (omega arith),
)
comm_fuel (suc n) (suc a) b h = ground (
  arith,
  bit_xor_step (suc a) b,
  bit_xor_step b (suc a),
  differ-eq (suc a % 2) (b % 2),
  differ-eq (b % 2) (suc a % 2),
  comm_fuel n (suc a / 2) (b / 2) (omega arith),
)

pub bit_xor_comm : (a b : ℕ) → bit_xor a b ≡ bit_xor b a
bit_xor_comm a b = comm_fuel (a + b) a b (omega arith)

cancel_fuel : (n a b : ℕ) → a ≤ n → bit_xor a (bit_xor a b) ≡ b
cancel_fuel n zero b h = zero-bit_xor (bit_xor 0 b) ∙ zero-bit_xor b
cancel_fuel zero (suc a) b h = absurd (omega arith)
cancel_fuel (suc n) (suc a) b h =
    let x = bit_xor (suc a) b in
    let y = bit_xor (suc a / 2) (b / 2) in
    let halved : x / 2 ≡ y = omega (arith, bit_xor_step (suc a) b, differ-eq (suc a % 2) (b % 2)) in
    let ih : bit_xor (suc a / 2) y ≡ b / 2 = cancel_fuel n (suc a / 2) (b / 2) (omega arith) in
    let high : bit_xor (suc a / 2) (x / 2) ≡ b / 2 = ap (bit_xor (suc a / 2)) halved ∙ ih in
    omega (
      arith,
      bit_xor_step (suc a) x,
      bit_xor_step (suc a) b,
      high,
      differ-eq (suc a % 2) (b % 2),
      differ-eq (suc a % 2) (x % 2),
    )

pub bit_xor_cancel : (a b : ℕ) → bit_xor a (bit_xor a b) ≡ b
bit_xor_cancel a b = cancel_fuel a a b (omega arith)

pub bit_xor-injective : (a b c : ℕ) → bit_xor a b ≡ bit_xor a c → b ≡ c
bit_xor-injective a b c e = sym (bit_xor_cancel a b) ∙ ap (bit_xor a) e ∙ bit_xor_cancel a c
