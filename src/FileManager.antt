-- ===== src/FileManager.antt =====
-- src/fileManager.cpp, src/common.cpp, src/yoloDetect.cpp: the lines of a configuration file. A string is
-- the list of its characters' codes; `none` is the exception that `substr` throws.
pub mod Spaces
pub mod Basic
pub mod Sections
pub mod Ended
pub mod Hangs
mod Tests
use vcu.Prelude.{ℕ, zero, suc, ◌+◌, ◌-◌, Option, none, some, List, [], ◌∷◌, ◌++◌, Bool, true, false}
use vcu.Prelude.{◌&&◌, ◌==◌, if◌then◌else◌, length, take, drop}
use vcu.Prelude.Memory.{◌>>=◌}
use vcu.Common.{substr, find_from}

-- `str.erase(pos, 1)`
abbrev pub erase : List ℕ → Option ℕ → List ℕ
erase s none = s
erase s (some i) = take i s ++ drop (suc i) s

abbrev pub if_found : Option ℕ → List ℕ → List ℕ → List ℕ
if_found none again s = s
if_found (some i) again s = again

-- The loop of `rmStrSpace`, with a round for each character and one more.
unfoldable pub rm_rounds : ℕ → List ℕ → List ℕ
rm_rounds zero s = s
rm_rounds (suc fuel) s =
    let found = find_from (λ c. c == 32) s 0 in if_found found (rm_rounds fuel (erase s found)) s

unfoldable pub rm_str_space : List ℕ → List ℕ
rm_str_space s = rm_rounds (length s + 1) s

abbrev pub find_char : ℕ → List ℕ → Option ℕ
find_char c s = find_from (λ d. d == c) s 0

-- `substr(from, end - from)` where the end may be `npos`
abbrev pub up_to : List ℕ → ℕ → Option ℕ → Option (List ℕ)
up_to s from none = substr s from (length s)
up_to s from (some end) = substr s from (end - from)

-- The name in front of '=' and the value behind it; with no '=' both are the whole line.
unfoldable pub entry : List ℕ → Option ℕ → Option (List ℕ × List ℕ)
entry s none = some (s, s)
entry s (some mid) = do
  name ← substr s 0 mid
  value ← substr s (mid + 1) (length s - mid - 1)
  some (name, value)

-- What a line is: nothing, a new section, or an entry of the section.
pub data Line : Type 0 where
  skipped : Line
  section : List ℕ → Line
  setting : List ℕ → List ℕ → Line

-- The section's name, from behind '[' up to ']' or the end
unfoldable pub section_name : List ℕ → Option (List ℕ)
section_name s = up_to s 1 (find_char 93 s)

unfoldable pub entry_line : List ℕ → Option Line
entry_line s = do
  bare ← up_to s 0 (find_char 35 s)
  found ← entry bare (find_char 61 bare)
  some (setting found.0 found.1)

unfoldable pub bare_line : List ℕ → Option Line
bare_line [] = some skipped
bare_line (c ∷ s) =
    if c == 35
    then some skipped
    else if c == 91
    then (do name ← section_name (c ∷ s); some (section name))
    else entry_line (c ∷ s)

-- The body of the loop of `parserCfg`, and of `parserNetCfg`, up to its use of the pair
unfoldable pub parse_line : List ℕ → Option Line
parse_line s = bare_line (rm_str_space s)

-- Two strings are equal.
abbrev pub same : List ℕ → List ℕ → Bool
same [] [] = true
same [] (d ∷ t) = false
same (c ∷ s) [] = false
same (c ∷ s) (d ∷ t) = c == d && same s t

abbrev pub Table : Type 0
Table = List (List ℕ × List ℕ)

-- `std::map::insert`, which keeps the value that is there
unfoldable pub insert : List ℕ → List ℕ → Table → Table
insert name value [] = (name, value) ∷ []
insert name value (e ∷ table) = if same name e.0 then e ∷ table else e ∷ insert name value table

-- `operator[]` and an assignment
unfoldable pub assign : List ℕ → List ℕ → Table → Table
assign name value [] = (name, value) ∷ []
assign name value (e ∷ table) =
    if same name e.0 then (e.0, value) ∷ table else e ∷ assign name value table

pub record NetTables : Type 0 where
  pub camera : Table
  pub rtp : Table
  pub box : Table

-- "camera", "rtp_send" and "box_send"
abbrev pub camera_key : List ℕ
camera_key = 99 ∷ 97 ∷ 109 ∷ 101 ∷ 114 ∷ 97 ∷ []

abbrev pub rtp_key : List ℕ
rtp_key = 114 ∷ 116 ∷ 112 ∷ 95 ∷ 115 ∷ 101 ∷ 110 ∷ 100 ∷ []

abbrev pub box_key : List ℕ
box_key = 98 ∷ 111 ∷ 120 ∷ 95 ∷ 115 ∷ 101 ∷ 110 ∷ 100 ∷ []

-- `Common::setCfg(key, pair)`
unfoldable pub set_cfg : List ℕ → List ℕ → List ℕ → NetTables → NetTables
set_cfg key name value t =
    if same key camera_key
    then record t { camera = insert name value t.camera }
    else if same key rtp_key
    then record t { rtp = insert name value t.rtp }
    else if same key box_key
    then record t { box = insert name value t.box }
    else t

unfoldable pub use_line : Line → List ℕ × NetTables → List ℕ × NetTables
use_line skipped s = s
use_line (section key) s = (key, s.1)
use_line (setting name value) s = (s.0, set_cfg s.0 name value s.1)

-- `parserCfg` on the lines of the file, from the section that the last file left; `none` exits.
unfoldable pub parser_cfg : List (List ℕ) → List ℕ × NetTables → Option (List ℕ × NetTables)
parser_cfg [] s = some s
parser_cfg (l ∷ lines) s = do line ← parse_line l; parser_cfg lines (use_line line s)

-- `parserNetCfg`, whose tables are one for each section
unfoldable pub assign_in : List ℕ → List ℕ → List ℕ → List (List ℕ × Table) → List (List ℕ × Table)
assign_in key name value [] = (key, assign name value []) ∷ []
assign_in key name value (t ∷ tables) =
    if same key t.0
    then (t.0, assign name value t.1) ∷ tables
    else t ∷ assign_in key name value tables

unfoldable pub use_net_line : Line → List ℕ × List (List ℕ × Table) → List ℕ × List (List ℕ × Table)
use_net_line skipped s = s
use_net_line (section key) s = (key, s.1)
use_net_line (setting name value) s = (s.0, assign_in s.0 name value s.1)

unfoldable pub parser_net_cfg :
    List (List ℕ) → List ℕ × List (List ℕ × Table) → Option (List ℕ × List (List ℕ × Table))
parser_net_cfg [] s = some s
parser_net_cfg (l ∷ lines) s = do line ← parse_line l; parser_net_cfg lines (use_net_line line s)
