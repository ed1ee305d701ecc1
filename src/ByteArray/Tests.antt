-- ===== src/ByteArray/Tests.antt =====
-- The operations on small arrays.
use vcu.Prelude.{ℕ, ◌≤◌, ◌≡◌, refl, inl, some, none, List, [], ◌∷◌, ◌++◌, arith, pos}
use vcu.Prelude.Memory.{load, store}
use vcu.ByteArray.{
  ByteArray, contents, append, mid, from_char, null_array, strlen, from_ptr, append_len, reserve,
  push_back,
}
use vcu.ByteArray.Valid.{IsValid}
use vcu.ByteArray.Append.{append_lem, append-overflows}

-- "abc" in a block of eight bytes
abbrev abc : ByteArray
abc = record { block = 97 ∷ 98 ∷ 99 ∷ 0 ∷ 0 ∷ 0 ∷ 0 ∷ 0 ∷ []; capacity = 8; data_size = 3 }

abbrev digits : List ℕ
digits = 48 ∷ 49 ∷ 50 ∷ 51 ∷ 52 ∷ 53 ∷ 54 ∷ 55 ∷ 56 ∷ 57 ∷ []

abbrev more_digits : List ℕ
more_digits = digits ++ digits

abc-IsValid : IsValid abc
abc-IsValid = omega arith

strlen-abc : strlen (abc.block) ≡ some 3
unfolding strlen
strlen-abc = refl

-- `mid(1, 0)` has no block, and a byte cannot be appended to an array that has none.
mid_zero : mid abc (pos 1) (pos 0) ≡ some null_array
unfolding mid from_ptr
mid_zero = refl

null_array-append : append null_array (some digits) (pos 1) ≡ none
unfolding append null_array append_len reserve push_back load store
null_array-append = refl

from_char_empty : contents (from_char 97 (pos 5)) ≡ []
unfolding from_char null_array
from_char_empty = refl

append_lem_example :
    (b : ByteArray) × (append abc (some digits) (pos 10) ≡ some b)
    × IsValid b
    × (8 ≤ b.capacity)
    × (contents b ≡ 97 ∷ 98 ∷ 99 ∷ digits)
append_lem_example = append_lem abc digits 10 abc-IsValid (omega arith) (inl (omega arith))

append-overflows_example : append abc (some more_digits) (pos 15) ≡ none
append-overflows_example =
    append-overflows abc more_digits 15 abc-IsValid (omega arith) (omega arith) (omega arith)
