-- ===== src/FileManager/Basic.antt =====
-- `parserBasicCfg` and `Common::setCfg` of a section: the sections of the main configuration file. A
-- stream is the characters that are left and its two flags.
use vcu.Prelude.{ℕ, zero, suc, ◌+◌, ◌-◌, ◌%◌, ◌^◌, Option, none, some, List, [], ◌∷◌}
use vcu.Prelude.{Bool, true, false, ◌||◌, ◌==◌, if◌then◌else◌, length}
use vcu.Prelude.Memory.{◌>>=◌}
use vcu.Common.{substr}
use vcu.FileManager.{Table, find_char, insert, same}

pub record Stream : Type 0 where
  pub rest : List ℕ
  pub eof : Bool
  pub fail : Bool

-- The characters up to the end of the line, and those behind it; `none` is the end of the text.
unfoldable pub split_line : List ℕ → List ℕ × Option (List ℕ)
split_line [] = ([], none)
split_line (c ∷ s) =
    let line = split_line s in if c == 10 then ([], some s) else (c ∷ line.0, line.1)

-- A stream whose text has been cut, `none` at its end.
unfoldable pub after_line : Option (List ℕ) → Stream
after_line none = record { rest = []; eof = true; fail = false }
after_line (some s) = record { rest = s; eof = false; fail = false }

-- `getline(in, str)`: a stream that has ended fails and leaves the string as it is.
unfoldable pub getline : Stream → List ℕ → List ℕ × Stream
getline s str = if s.eof || s.fail then (str, record s { fail = true }) else elim s.rest [
  | [] ↦ ([], record { rest = []; eof = true; fail = true })
  | c ∷ t ↦ let line = split_line (c ∷ t) in (line.0, after_line line.1)
]

-- `len`: where the value ends
unfoldable pub value_end : List ℕ → ℕ
value_end temp = elim (find_char 35 temp) [
  | none ↦ length temp
  | some pos2 ↦ elim (find_char 32 temp) [ none ↦ pos2 | some postemp ↦ postemp ]
]

-- The key and the value of a line, the sizes modulo 2 ^ 64
unfoldable pub basic_entry : List ℕ → Option (List ℕ × List ℕ)
basic_entry temp = elim (find_char 61 temp) [
  | none ↦ do val ← substr temp 0 (value_end temp); some (temp, val)
  | some i ↦ do
    key ← substr temp 0 i
    val ← substr temp (i + 1) ((value_end temp + 2 ^ 64 - i - 1) % 2 ^ 64)
    some (key, val)
]

-- A line that is not empty, `none` when `substr` throws
unfoldable pub noted : List ℕ → Table → Option Table
noted [] table = some table
noted (c ∷ temp) table =
    if c == 35
    then some table
    else (basic_entry (c ∷ temp) >>= λ found. some (insert found.0 found.1 table))

-- How a run ends, or that it has not ended within the rounds given.
pub data Run {ℓ} (A : Type ℓ) : Type ℓ where
  running : Run A
  exited : Run A
  ended : A → Run A

-- The inner loop
unfoldable pub section_rounds : ℕ → Stream → List ℕ → Table → Run (Table × Stream)
section_rounds zero s temp table = running
section_rounds (suc fuel) s [] table = ended (table, s)
section_rounds (suc fuel) s (c ∷ temp) table = elim (noted (c ∷ temp) table) [
  | none ↦ exited
  | some table' ↦ let next = getline s (c ∷ temp) in section_rounds fuel next.1 next.0 table'
]

-- The position of the last of a character, behind `i` characters in front
unfoldable pub find_last : ℕ → List ℕ → ℕ → Option ℕ
find_last c [] i = none
find_last c (d ∷ s) i = elim (find_last c s (suc i)) [
  | some j ↦ some j
  | none ↦ if d == c then some i else none
]

-- `lineStr.substr(1, lineStr.find_last_of(']') - 1)`
unfoldable pub head_name : List ℕ → Option (List ℕ)
head_name line = elim (find_last 93 line 0) [
  | none ↦ substr line 1 (length line)
  | some i ↦ substr line 1 (i - 1)
]

pub record BasicTables : Type 0 where
  pub basic : Table
  pub fpga : Table
  pub pic : Table
  pub detect : Table

-- "basic_cfg", "fpga_cfg", "pic_cfg" and "detect_cfg"
abbrev pub basic_key : List ℕ
basic_key = 98 ∷ 97 ∷ 115 ∷ 105 ∷ 99 ∷ 95 ∷ 99 ∷ 102 ∷ 103 ∷ []

abbrev pub fpga_key : List ℕ
fpga_key = 102 ∷ 112 ∷ 103 ∷ 97 ∷ 95 ∷ 99 ∷ 102 ∷ 103 ∷ []

abbrev pub pic_key : List ℕ
pic_key = 112 ∷ 105 ∷ 99 ∷ 95 ∷ 99 ∷ 102 ∷ 103 ∷ []

abbrev pub detect_key : List ℕ
detect_key = 100 ∷ 101 ∷ 116 ∷ 101 ∷ 99 ∷ 116 ∷ 95 ∷ 99 ∷ 102 ∷ 103 ∷ []

-- `Common::setCfg(key, map)`
unfoldable pub set_section : List ℕ → Table → BasicTables → BasicTables
set_section key val t =
    if same key basic_key
    then record t { basic = val }
    else if same key fpga_key
    then record t { fpga = val }
    else if same key pic_key
    then record t { pic = val }
    else if same key detect_key
    then record t { detect = val }
    else t

-- The outer loop
unfoldable pub basic_rounds : ℕ → Stream → BasicTables → Run BasicTables
basic_rounds zero s tables = running
basic_rounds (suc fuel) s tables =
    let first = getline s [] in
    let passed = basic_rounds fuel first.1 tables in
    if s.eof || s.fail then ended tables else elim first.0 [
      | [] ↦ passed
      | c ∷ line ↦
          if c == 91
          then elim (head_name (c ∷ line)) [
            | none ↦ exited
            | some name ↦
                let next = getline first.1 [] in
                elim (section_rounds fuel next.1 next.0 []) [
                  | running ↦ running
                  | exited ↦ exited
                  | ended read ↦ basic_rounds fuel read.1 (set_section name read.0 tables)
                ]
          ]
          else passed
    ]

-- `parserBasicCfg` on the text of a file that can be opened, with a number of rounds
abbrev pub parser_basic_cfg : ℕ → List ℕ → BasicTables → Run BasicTables
parser_basic_cfg fuel text tables =
    basic_rounds fuel (record { rest = text; eof = false; fail = false }) tables
