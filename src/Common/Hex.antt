-- ===== src/Common/Hex.antt =====
-- `hexToInt` reads back what `intToHex` writes.
use vcu.Prelude.{
  ℕ, zero, suc, ◌+◌, ◌-◌, ◌*◌, ◌/◌, ◌%◌, ◌^◌, ◌≤◌, ◌<◌, ◌≡◌, refl, ◌∙◌, some, List, [], ◌∷◌,
}
use vcu.Prelude.{pos, true, ap, Bool-cases, leb, ◌==◌, inl, inr, arith, length, take}
use vcu.Common.{substr, hex_step, hex_chars, hex_to_int, hex_char, hex_rounds, int_to_hex}

hex_step-hex_char :
    (res n : ℕ) → n < 16 → res * 16 + n < 2 ^ 32 → hex_step res (hex_char n) ≡ res * 16 + n
unfolding hex_step
hex_step-hex_char res n h k = ground arith

hex_chars-hex_rounds :
    (fuel n : ℕ) (tail : List ℕ)
    → n ≤ fuel
    → n < 2 ^ 32
    → hex_chars 0 (hex_rounds fuel n tail) ≡ hex_chars n tail
unfolding hex_rounds hex_chars
hex_chars-hex_rounds zero zero tail h k = refl
hex_chars-hex_rounds zero (suc n) tail h k = absurd (omega arith)
hex_chars-hex_rounds (suc fuel) n tail h k = elim (Bool-cases (n == 0)) [
  | inl done ↦ let nothing : n ≡ 0 = ground arith in rw nothing refl
  | inr more ↦
      rw
        (
          more,
          hex_chars-hex_rounds fuel (n / 16) (hex_char (n % 16) ∷ tail) (ground arith)
              (omega arith),
        )
        (ap (λ r. hex_chars r tail)
          (hex_step-hex_char (n / 16) (n % 16) (omega arith) (omega arith) ∙ omega arith))
]

take_whole : (xs : List ℕ) → take (length xs) xs ≡ xs
take_whole [] = refl
take_whole (x ∷ xs) = rw (take_whole xs)

-- For every `int` that is not negative, `hexToInt` reads the number back from what `intToHex` writes,
-- behind any two characters such as "0x".
pub hex_to_int-int_to_hex :
    (n a b : ℕ) → n < 2 ^ 31 → hex_to_int (a ∷ b ∷ int_to_hex (pos n)) ≡ some n
unfolding hex_to_int int_to_hex substr hex_chars
hex_to_int-int_to_hex n a b h =
    let digits = hex_rounds n n [] in
    let inside : leb 2 (suc (suc (length digits))) ≡ true = ground arith in
    let size : suc (suc (length digits)) - 2 ≡ length digits = omega arith in
    rw (inside, size, take_whole digits, hex_chars-hex_rounds n n [] (omega arith) (omega arith))
      refl
