-- ===== src/Prelude/Bits.antt =====
-- The bit operations of C on unsigned values, as arithmetic on the native numbers.
use Prim.Native.Nat.{ℕ, zero, suc, ◌+◌, ◌-◌, ◌*◌, ◌/◌, ◌%◌, ◌^◌, ◌≤◌, ◌<◌, ◌∣◌, min, max}
use Prim.Native.Nat.{bit_and, bit_or, bit_xor, bitwise, differ}
use Prim.Native.Nat.{bit_and-bitwise, bit_or-bitwise, bit_xor-bitwise}
use mathlib.Core.Path.{◌≡◌, refl, sym, ap, subst, ◌∙◌}
use mathlib.Core.Bool.{Bool, true, ◌&&◌}
use native.Mathlib.Nat.{pow-suc, one-le-pow, div-add-mod, mod-mod_of_dvd, dvd-mul_left}
use native.Mathlib.Omega.{arith}
use vcu.Prelude.Tests.{◌==◌, ==_iff}
mod Digits
pub mod Xor
use Digits.{bitwise_step}

-- Whether two functions have the same value at every number under a bound.
unfoldable pub agree_below : (f g : ℕ → ℕ) → ℕ → Bool
agree_below f g zero = true
agree_below f g (suc top) = f top == g top && agree_below f g top

agree_below-apply : (f g : ℕ → ℕ) (top c : ℕ) → c < top → agree_below f g top ≡ true → f c ≡ g c
unfolding agree_below
agree_below-apply f g zero c below same = absurd (omega arith)
agree_below-apply f g (suc top) c below same =
    ground (arith, ==_iff (f c) (g c), agree_below-apply f g top c)

-- Two functions that agree on every byte.
pub eq_on_bytes : (f g : ℕ → ℕ) → agree_below f g 256 ≡ true → (c : ℕ) → c < 256 → f c ≡ g c
eq_on_bytes f g same c byte = agree_below-apply f g 256 c byte same

pub bit_or_step : (m n : ℕ) → bit_or m n ≡ max (m % 2) (n % 2) + 2 * bit_or (m / 2) (n / 2)
bit_or_step zero n = simp bit_or-bitwise (omega arith)
bit_or_step (suc m) n = simp bit_or-bitwise (omega (arith, bitwise_step (λ high. high) max m n))

pub bit_xor_step : (m n : ℕ) → bit_xor m n ≡ differ (m % 2) (n % 2) + 2 * bit_xor (m / 2) (n / 2)
bit_xor_step zero n = simp bit_xor-bitwise (omega arith)
bit_xor_step (suc m) n =
    simp bit_xor-bitwise (omega (arith, bitwise_step (λ high. high) differ m n))

pub bit_and_step : (m n : ℕ) → bit_and m n ≡ min (m % 2) (n % 2) + 2 * bit_and (m / 2) (n / 2)
bit_and_step zero n = simp bit_and-bitwise (omega arith)
bit_and_step (suc m) n = simp bit_and-bitwise (omega (arith, bitwise_step (λ high. 0) min m n))

pub differ-eq : (x y : ℕ) → differ x y ≡ (x - y) + (y - x)
differ-eq zero y = omega arith
differ-eq (suc x) zero = omega arith
differ-eq (suc x) (suc y) = omega (arith, differ-eq x y)

ruleset digit_laws = (arith, differ-eq)

pub bit_xor-lt : (k a b : ℕ) → a < 2 ^ k → b < 2 ^ k → bit_xor a b < 2 ^ k
bit_xor-lt zero zero zero p q = omega arith
bit_xor-lt zero zero (suc b) p q = absurd (omega arith)
bit_xor-lt zero (suc a) b p q = absurd (omega arith)
bit_xor-lt (suc k) a b p q = omega (
  digit_laws,
  bit_xor_step a b,
  pow-suc 2 k,
  bit_xor-lt k (a / 2) (b / 2) (omega (arith, pow-suc 2 k)) (omega (arith, pow-suc 2 k)),
)

pub scale_suc : (q k : ℕ) → q * 2 ^ suc k ≡ q * 2 ^ k * 2
scale_suc q k = omega (arith, ap (λ (t : ℕ). q * t) (pow-suc 2 k))

pub zero-bit_xor : (b : ℕ) → bit_xor 0 b ≡ b
zero-bit_xor b = bit_xor-bitwise 0 b

-- Exclusive or with its own low k bits clears them in a word.
pub bit_xor_low : (k q r : ℕ) → r < 2 ^ k → bit_xor r (q * 2 ^ k + r) ≡ q * 2 ^ k
bit_xor_low zero q zero h = zero-bit_xor _ ∙ omega arith
bit_xor_low zero q (suc r) h = absurd (omega arith)
bit_xor_low (suc k) q r h = ground (
  arith,
  scale_suc q k,
  pow-suc 2 k,
  bit_xor_step r (q * 2 ^ suc k + r),
  differ-eq (r % 2) ((q * 2 ^ suc k + r) % 2),
  bit_xor_low k q (r / 2) (omega (arith, pow-suc 2 k)),
)

bit_or-zero : (n a : ℕ) → a ≤ n → bit_or a 0 ≡ a
bit_or-zero n zero h = refl
bit_or-zero zero (suc a) h = absurd (omega arith)
bit_or-zero (suc n) (suc a) h =
    omega (arith, bit_or_step (suc a) 0, bit_or-zero n (suc a / 2) (omega arith))

-- `(q << k) | r` is a sum when `r` fits k bits.
pub bit_or_disjoint : (k q r : ℕ) → r < 2 ^ k → bit_or (q * 2 ^ k) r ≡ q * 2 ^ k + r
bit_or_disjoint zero q zero h = bit_or-zero (q * 2 ^ 0) (q * 2 ^ 0) (omega arith) ∙ omega arith
bit_or_disjoint zero q (suc r) h = absurd (omega arith)
bit_or_disjoint (suc k) q r h = ground (
  arith,
  scale_suc q k,
  pow-suc 2 k,
  bit_or_step (q * 2 ^ suc k) r,
  bit_or_disjoint k q (r / 2) (omega (arith, pow-suc 2 k)),
)

no_bits : (top w : ℕ) → w ≤ top → bit_and w 0 ≡ 0
no_bits zero zero h = refl
no_bits zero (suc w) h = absurd (omega arith)
no_bits (suc top) w h = omega (arith, bit_and_step w 0, no_bits top (w / 2) (omega arith))

bit_and-zero : (w : ℕ) → bit_and w 0 ≡ 0
bit_and-zero w = no_bits w w (omega arith)

pub bit_and-one : (w : ℕ) → bit_and w 1 ≡ w % 2
bit_and-one w = let high = bit_and-zero (w / 2) in omega (arith, bit_and_step w 1)

and_low : (k q r : ℕ) → r < 2 ^ k → bit_and (q * 2 ^ k + r) (2 ^ k - 1) ≡ r
and_low zero q r h = bit_and-zero (q * 2 ^ 0 + r) ∙ omega arith
and_low (suc k) q r h = ground (
  arith,
  scale_suc q k,
  pow-suc 2 k,
  one-le-pow k 2,
  bit_and_step (q * 2 ^ suc k + r) (2 ^ suc k - 1),
  and_low k q (r / 2) (omega (arith, pow-suc 2 k)),
)

-- A mask of k ones keeps the remainder.
pub bit_and_mask : (k a : ℕ) → bit_and a (2 ^ k - 1) ≡ a % 2 ^ k
bit_and_mask k a = ground (
  arith,
  one-le-pow k 2 (omega arith),
  div-add-mod a (2 ^ k),
  and_low k (a / 2 ^ k) (a % 2 ^ k) (mod_below a (2 ^ k) (one-le-pow k 2 (omega arith))),
)
  where
    mod_below : (a m : ℕ) → 0 < m → a % m < m
    mod_below a m h = omega arith

pub two_pow_add : (j k : ℕ) → 2 ^ (j + k) ≡ 2 ^ j * 2 ^ k
two_pow_add zero k = let e : 0 + k ≡ k = omega arith in ap (λ e. 2 ^ e) e ∙ omega arith
two_pow_add (suc j) k =
    ap (λ e. 2 ^ e) e ∙ omega (arith, pow-suc 2 (j + k), pow-suc 2 j, two_pow_add j k, doubled)
  where
    e : suc j + k ≡ suc (j + k)
    e = omega arith

    doubled : 2 ^ suc j * 2 ^ k ≡ 2 ^ j * 2 ^ k * 2
    doubled = omega (arith, ap (λ (t : ℕ). t * 2 ^ k) (pow-suc 2 j))

-- A counter modulo 2 ^ 64 gives the remainder by a smaller power of two.
pub mod-mod_pow : (k a : ℕ) → k ≤ 64 → a % 2 ^ 64 % 2 ^ k ≡ a % 2 ^ k
mod-mod_pow k a h = mod-mod_of_dvd (2 ^ k) a divides
  where
    split : 2 ^ (64 - k) * 2 ^ k ≡ 2 ^ 64
    split =
        let e : 64 - k + k ≡ 64 = omega arith in sym (two_pow_add (64 - k) k) ∙ ap (λ e. 2 ^ e) e

    divides : 2 ^ k ∣ 2 ^ 64
    divides = subst (λ t. 2 ^ k ∣ t) split (dvd-mul_left (2 ^ k) (2 ^ (64 - k)))
