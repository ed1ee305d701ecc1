-- ===== src/Common/Tests.antt =====
-- The string helpers on small strings.
use vcu.Prelude.{◌==◌, false, refl, ℕ, ◌≡◌, some, List, [], ◌∷◌, joined, pos, arith}
use vcu.Common.{FpgaParaCfg, is_valid, string_split, hex_to_int, int_to_hex}
use vcu.Common.Hex.{hex_to_int-int_to_hex}
use vcu.Common.Words.{AreWords, string_split_lem}

-- "416x320"
abbrev resolution : List ℕ
resolution = 52 ∷ 49 ∷ 54 ∷ 120 ∷ 51 ∷ 50 ∷ 48 ∷ []

hex_to_int-int_to_hex_example : hex_to_int (48 ∷ 120 ∷ int_to_hex (pos 519168)) ≡ some 519168
hex_to_int-int_to_hex_example = hex_to_int-int_to_hex 519168 48 120 (omega arith)

string_split_lem_example :
    (ws : List (List ℕ)) × (string_split resolution 120 ≡ some ws)
    × AreWords (λ c. c == 120) ws
    × (joined ws ≡ 52 ∷ 49 ∷ 54 ∷ 51 ∷ 50 ∷ 48 ∷ [])
string_split_lem_example = string_split_lem resolution 120

abbrev filled : FpgaParaCfg
filled = record {
  param_files = resolution;
  param_address = resolution;
  key_files = [];
  input_size = 519168;
  input_offset = resolution;
  output_offset = resolution;
  output_size = 519168;
  output_sig_type = 0;
  output_wait_time = 1;
  input_reg = [];
  output_reg = [];
  interupt_dev = [];
}

-- Settings with all that is needed are reported as not valid.
is_valid-filled : is_valid filled ≡ false
unfolding is_valid
is_valid-filled = refl
