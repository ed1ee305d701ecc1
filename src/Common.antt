-- ===== src/Common.antt =====
-- src/common.h: the string helpers of the configuration. A string is the list of its characters'
-- codes; `none` is the exception that `substr` throws.
pub mod Hex
pub mod Split
pub mod Words
mod Tests
use vcu.Prelude.{ℕ, zero, suc, ◌+◌, ◌-◌, ◌*◌, ◌/◌, ◌%◌, ◌^◌, Option, none, some, List, [], ◌∷◌}
use vcu.Prelude.Memory.{◌>>=◌}
use vcu.Prelude.{
  ℤ, pos, negsuc, Bool, false, leb, ltb, ◌==◌, ◌&&◌, ◌||◌, not, if◌then◌else◌, length, take, drop,
}

-- `s.substr(pos, n)`
unfoldable pub substr : List ℕ → ℕ → ℕ → Option (List ℕ)
substr s i n = if leb i (length s) then some (take n (drop i s)) else none

abbrev within : ℕ → ℕ → ℕ → Bool
within low c high = leb low c && leb c high

-- One character of a number in base 16; any other character is passed over.
unfoldable pub hex_step : ℕ → ℕ → ℕ
hex_step res c =
    if within 65 c 70
    then (res * 16 + c - 65 + 10) % 2 ^ 32
    else if within 97 c 102
    then (res * 16 + c - 97 + 10) % 2 ^ 32
    else if within 48 c 57
    then (res * 16 + c - 48) % 2 ^ 32
    else res

unfoldable pub hex_chars : ℕ → List ℕ → ℕ
hex_chars res [] = res
hex_chars res (c ∷ s) = hex_chars (hex_step res c) s

-- `hexToInt`
unfoldable pub hex_to_int : List ℕ → Option ℕ
hex_to_int s = substr s 2 (length s - 2) >>= λ digits. some (hex_chars 0 digits)

abbrev pub hex_char : ℕ → ℕ
hex_char n = if leb 10 n then 65 + n - 10 else 48 + n

-- The rounds of `intToHex` on a number that is not negative; each puts a character in front.
unfoldable pub hex_rounds : ℕ → ℕ → List ℕ → List ℕ
hex_rounds zero num res = res
hex_rounds (suc fuel) num res =
    let rest = hex_rounds fuel (num / 16) (hex_char (num % 16) ∷ res) in
    if num == 0 then res else rest

-- On a negative number the remainder is negative too, and counts back from '0'.
unfoldable pub negative_rounds : ℕ → ℕ → List ℕ → List ℕ
negative_rounds zero num res = res
negative_rounds (suc fuel) num res =
    let rest = negative_rounds fuel (num / 16) ((48 - num % 16) ∷ res) in
    if num == 0 then res else rest

-- `intToHex`
unfoldable pub int_to_hex : ℤ → List ℕ
int_to_hex (pos n) = hex_rounds n n []
int_to_hex (negsuc n) = negative_rounds (suc n) (suc n) []

-- `find_first_of` and `find_first_not_of` from a position; `none` is `npos`, from which nothing is found.
unfoldable pub find_from : (ℕ → Bool) → List ℕ → ℕ → Option ℕ
find_from p [] i = none
find_from p (c ∷ s) zero =
    let rest = find_from p s zero in
    if p c then some zero else elim rest [ none ↦ none | some j ↦ some (suc j) ]
find_from p (c ∷ s) (suc i) = elim (find_from p s i) [ none ↦ none | some j ↦ some (suc j) ]

unfoldable pub find_first : (ℕ → Bool) → List ℕ → Option ℕ → Option ℕ
find_first p s none = none
find_first p s (some i) = find_from p s i

-- `str.substr(beginPos, endPos - beginPos)`; from `npos` it throws
unfoldable pub piece : List ℕ → Option ℕ → Option ℕ → Option (List ℕ)
piece s none end_pos = none
piece s (some b) none = substr s b (length s)
piece s (some b) (some e) = substr s b (e - b)

-- The loop of `string_split`, and of both `split_string`, whose text is the same; `sep` are the
-- separators.
unfoldable pub split_rounds : ℕ → List ℕ → (ℕ → Bool) → Option ℕ → Option ℕ → Option (List (List ℕ))
split_rounds zero s sep begin_pos end_pos = none
split_rounds (suc fuel) s sep none none = some []
split_rounds (suc fuel) s sep begin_pos end_pos =
    let next_begin = find_first (λ c. not (sep c)) s end_pos in
    let next_end = find_first sep s next_begin in
    do
      word ← piece s begin_pos end_pos
      words ← split_rounds fuel s sep next_begin next_end
      some (word ∷ words)

-- The whole of it; a round for each character and one more are enough
unfoldable pub split_by : List ℕ → (ℕ → Bool) → Option (List (List ℕ))
split_by s sep =
    let begin_pos = find_first (λ c. not (sep c)) s (some 0) in
    split_rounds (length s + 1) s sep begin_pos (find_first sep s begin_pos)

-- `string_split(str, splitStr)`
abbrev pub string_split : List ℕ → ℕ → Option (List (List ℕ))
string_split s sep = split_by s (λ c. c == sep)

-- `split_string(str, splitStr)` with a character, whose text is that of `string_split`
abbrev pub split_string : List ℕ → ℕ → Option (List (List ℕ))
split_string s sep = string_split s sep

-- A character of a string of separators
abbrev pub one_of : List ℕ → ℕ → Bool
one_of [] c = false
one_of (d ∷ chars) c = (c == d) || one_of chars c

-- `split_string(str, splitStr)` with a string, each of whose characters is a separator
abbrev pub split_chars : List ℕ → List ℕ → Option (List (List ℕ))
split_chars s chars = split_by s (one_of chars)

-- The settings of the accelerator.
pub record FpgaParaCfg : Type 0 where
  pub param_files : List ℕ
  pub param_address : List ℕ
  pub key_files : List ℕ
  pub input_size : ℕ
  pub input_offset : List ℕ
  pub output_offset : List ℕ
  pub output_size : ℕ
  pub output_sig_type : ℕ
  pub output_wait_time : ℕ
  pub input_reg : List ℕ
  pub output_reg : List ℕ
  pub interupt_dev : List ℕ

-- `FpgaParaCfg::isValid()`; the sizes are unsigned, so that neither is below 0
unfoldable pub is_valid : FpgaParaCfg → Bool
is_valid c =
    (length c.param_files == 0)
    || ((length c.param_address == 0)
        || ((length c.input_offset == 0) || (length c.output_offset == 0)))
