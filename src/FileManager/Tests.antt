-- ===== src/FileManager/Tests.antt =====
-- A line of a configuration file.
use vcu.Prelude.{ℕ, ◌≡◌, refl, true, false, List, [], ◌∷◌, ◌++◌, arith}
use vcu.FileManager.Basic.{
  Stream, BasicTables, basic_key, running, section_rounds, parser_basic_cfg,
}
use vcu.FileManager.Ended.{HasEnded, parser_basic_cfg-HasEnded}
use vcu.FileManager.Hangs.{section_rounds-running}

abbrev no_tables : BasicTables
no_tables = record { basic = []; fpga = []; pic = []; detect = [] }

-- "a=1"
abbrev setting_line : List ℕ
setting_line = 97 ∷ 61 ∷ 49 ∷ []

-- A section with one line, which has its end.
abbrev one_section : List ℕ
one_section = (91 ∷ basic_key) ++ (93 ∷ 10 ∷ (setting_line ++ (10 ∷ [])))

parser_basic_cfg-HasEnded_example : HasEnded (parser_basic_cfg 40 one_section no_tables)
parser_basic_cfg-HasEnded_example =
    parser_basic_cfg-HasEnded 40 one_section no_tables refl (omega arith)

abbrev at_end : Stream
at_end = record { rest = []; eof = true; fail = false }

section_rounds-running_example : section_rounds 1000 at_end setting_line [] ≡ running
section_rounds-running_example = section_rounds-running 1000 at_end 97 (61 ∷ 49 ∷ []) [] refl
