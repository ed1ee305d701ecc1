-- ===== src/Prelude/Memory.antt =====
-- Blocks of memory as lists of bytes, with the bounds that C leaves unchecked written out:
-- `none` is an access outside the block, that is, undefined behaviour.
use Prim.Native.Nat.{ℕ, zero, suc, ◌+◌, ◌≤◌, ◌<◌}
use mathlib.Core.Path.{◌≡◌, refl, ap, sym, ◌∙◌}
use mathlib.Core.Bool.{true}
use mathlib.Core.Option.{Option, none, some}
use mathlib.Core.List.{List, [], ◌∷◌, ◌++◌, append_assoc}
use native.Mathlib.Omega.{arith}
use vcu.Prelude.Tests.{leb, if◌then◌else◌}
use vcu.Prelude.Lists.{length, take, drop, length-take, length-drop, length-append, drop-drop}

-- Steps that may leave the defined behaviour.
infixl 5 ◌>>=◌ ◌>>◌
abbrev pub ◌>>=◌ {ℓ κ} : {A : Type ℓ} {B : Type κ} → Option A → (A → Option B) → Option B
none >>= f = none
some a >>= f = f a

abbrev pub ◌>>◌ {ℓ κ} : {A : Type ℓ} {B : Type κ} → Option A → Option B → Option B
m >> k = m >>= λ _. k

-- memcpy of `n` bytes from offset `i` of a block
unfoldable pub load : List ℕ → ℕ → ℕ → Option (List ℕ)
load block i n = if leb (i + n) (length block) then some (take n (drop i block)) else none

-- memcpy of `bytes` to offset `i` of a block
unfoldable pub store : List ℕ → ℕ → List ℕ → Option (List ℕ)
store block i bytes =
    if leb (i + length bytes) (length block)
    then some (take i block ++ (bytes ++ drop (i + length bytes) block))
    else none

-- a zero-filled block (`new char[n]` followed by `memset(…, 0, n)`)
abbrev pub zeros : ℕ → List ℕ
zeros zero = []
zeros (suc n) = 0 ∷ zeros n

pub length-zeros : (n : ℕ) → length (zeros n) ≡ n
length-zeros zero = refl
length-zeros (suc n) = ap suc (length-zeros n)

pub take-append-length {ℓ} :
    {A : Type ℓ} (n : ℕ) (xs ys : List A) → n ≡ length xs → take n (xs ++ ys) ≡ xs
take-append-length zero [] ys h = refl
take-append-length (suc n) [] ys h = absurd (omega arith)
take-append-length zero (x ∷ xs) ys h = absurd (omega arith)
take-append-length (suc n) (x ∷ xs) ys h =
    ap (λ t. x ∷ t) (take-append-length n xs ys (omega arith))

pub drop-append-length {ℓ} :
    {A : Type ℓ} (n : ℕ) (xs ys : List A) → n ≡ length xs → drop n (xs ++ ys) ≡ ys
drop-append-length zero [] ys h = refl
drop-append-length (suc n) [] ys h = absurd (omega arith)
drop-append-length zero (x ∷ xs) ys h = absurd (omega arith)
drop-append-length (suc n) (x ∷ xs) ys h = drop-append-length n xs ys (omega arith)

pub length-take_le {ℓ} : {A : Type ℓ} (n : ℕ) (xs : List A) → n ≤ length xs → length (take n xs) ≡ n
length-take_le n xs h = omega (arith, length-take n xs)

-- A store inside the block succeeds, keeps the block's size, and the bytes up to its end are
-- those in front of it, unchanged, followed by what it wrote.
pub store_lem :
    (block : List ℕ) (i : ℕ) (bytes : List ℕ)
    → i + length bytes ≤ length block
    → (out : List ℕ) × (store block i bytes ≡ some out)
      × (length out ≡ length block)
      × (take (i + length bytes) out ≡ take i block ++ bytes)
      × (take i out ≡ take i block)
unfolding store
store_lem block i bytes h = (
  take i block ++ (bytes ++ drop (i + length bytes) block),
  ground arith,
  omega (
    arith,
    length-append (take i block) (bytes ++ drop (i + length bytes) block),
    length-append bytes (drop (i + length bytes) block),
    length-take i block,
    length-drop (i + length bytes) block,
  ),
  rw (← append_assoc (take i block) bytes (drop (i + length bytes) block)) (
      take-append-length (i + length bytes) (take i block ++ bytes) _
        (omega (arith, length-append (take i block) bytes, length-take i block))),
  take-append-length i (take i block) _ (omega (arith, length-take i block)),
)

pub store-none :
    (block : List ℕ) (i : ℕ) (bytes : List ℕ)
    → length block < i + length bytes
    → store block i bytes ≡ none
unfolding store
store-none block i bytes h = ground arith

pub load_lem :
    (block : List ℕ) (i n : ℕ)
    → i + n ≤ length block
    → load block i n ≡ some (take n (drop i block))
unfolding load
load_lem block i n h = ground arith

pub take-take {ℓ} : {A : Type ℓ} (m n : ℕ) (xs : List A) → m ≤ n → take m (take n xs) ≡ take m xs
take-take zero n xs h = refl
take-take (suc m) zero xs h = absurd (omega arith)
take-take (suc m) (suc n) [] h = refl
take-take (suc m) (suc n) (x ∷ xs) h = ap (λ t. x ∷ t) (take-take m n xs (omega arith))

pub drop-take {ℓ} :
    {A : Type ℓ} (m n k : ℕ) (xs : List A) → k + m ≡ n → drop m (take n xs) ≡ take k (drop m xs)
drop-take zero n k xs h = let e : n ≡ k = omega arith in rw e
drop-take (suc m) zero k xs h = absurd (omega arith)
drop-take (suc m) (suc n) zero [] h = refl
drop-take (suc m) (suc n) (suc k) [] h = refl
drop-take (suc m) (suc n) k (x ∷ xs) h = drop-take m n k xs (omega arith)

-- Every element is a byte.
abbrev pub IsBytes : List ℕ → Type 0
IsBytes [] = Unit
IsBytes (x ∷ xs) = (x < 256) × IsBytes xs

pub drop-IsBytes : (n : ℕ) (xs : List ℕ) → IsBytes xs → IsBytes (drop n xs)
drop-IsBytes zero xs h = h
drop-IsBytes (suc n) [] h = h
drop-IsBytes (suc n) (x ∷ xs) h = drop-IsBytes n xs h.1

-- A load of what stands between two parts of a block, and a store behind the first part.
pub load-append :
    (front bytes rest : List ℕ) (i n : ℕ)
    → i ≡ length front
    → n ≡ length bytes
    → load (front ++ (bytes ++ rest)) i n ≡ some bytes
load-append front bytes rest i n e e' =
    load_lem _ i n (omega (arith, length-append front (bytes ++ rest), length-append bytes rest))
    ∙ ap (λ l. some (take n l)) (drop-append-length i front (bytes ++ rest) e)
    ∙ ap some (take-append-length n bytes rest e')

pub store-append :
    (front rest bytes : List ℕ) (i : ℕ)
    → i ≡ length front
    → length bytes ≤ length rest
    → store (front ++ rest) i bytes ≡ some (front ++ (bytes ++ drop (length bytes) rest))
unfolding store
store-append front rest bytes i e h =
    let room : leb (i + length bytes) (length (front ++ rest)) ≡ true =
      ground (arith, length-append front rest) in
    rw room (
      ap some (
        (λ k.
          take-append-length i front rest e k
          ++ (bytes
              ++ (sym (drop-drop i (length bytes) (front ++ rest))
                    ∙ ap (drop (length bytes)) (drop-append-length i front rest e))
                  k))))
