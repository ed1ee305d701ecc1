-- ===== src/Rtsp/Parser.antt =====
-- `parser`: what the camera's answers tell.
use vcu.Prelude.{ℕ, zero, ◌+◌, ◌-◌, ◌%◌, ◌^◌, Option, none, some, List, [], ◌∷◌}
use vcu.Prelude.{
  ℤ, pos, negsuc, Bool, true, false, not, ◌==◌, ◌&&◌, if◌then◌else◌, length, get_elem?,
}
use vcu.Prelude.Outcome.{Outcome, done, access, check, ◌>>=◌, ◌>>◌}
use vcu.Common.{substr, split_string, split_chars}
use vcu.Rtsp.{Camera, h264, h265, Facts}
use vcu.Rtsp.Texts.{chars, crlf, or_throw, find_str, has}

abbrev pub realm_key : List ℕ
realm_key = chars "realm=\""

abbrev pub nonce_key : List ℕ
nonce_key = chars "nonce=\""

abbrev pub session_key : List ℕ
session_key = chars "Session: "

abbrev pub port_key : List ℕ
port_key = chars "server_port"

abbrev pub control_key : List ℕ
control_key = chars "a=control"

abbrev pub track_key : List ℕ
track_key = chars "track"

-- `str.substr(pos + strlen(key), str.size() - pos - 1 - strlen(key))`, the sizes modulo 2 ^ 64
unfoldable pub quoted : List ℕ → ℕ → List ℕ → Option (List ℕ)
quoted key i str = substr str (i + length key) ((length str + 2 ^ 64 - i - 1 - length key) % 2 ^ 64)

-- A piece of the challenge
unfoldable pub challenge_piece : Facts → List ℕ → Outcome Facts
challenge_piece f str = elim (find_str realm_key str) [
  | some i ↦ do realm ← or_throw (quoted realm_key i str); done (record f { realm = realm })
  | none ↦ elim (find_str nonce_key str) [
    | some i ↦ do nonce ← or_throw (quoted nonce_key i str); done (record f { nonce = nonce })
    | none ↦ done f
  ]
]

unfoldable pub challenge_pieces : Facts → List (List ℕ) → Outcome Facts
challenge_pieces f [] = done f
challenge_pieces f (str ∷ strs) =
    let rest = λ (f' : Facts). challenge_pieces f' strs in challenge_piece f str >>= rest

unfoldable pub challenge_lines : Facts → List (List ℕ) → Outcome Facts
challenge_lines f [] = done f
challenge_lines f (line ∷ lines) =
    let rest = λ (f' : Facts). challenge_lines f' lines in
    or_throw (split_string line 44) >>= λ strs. challenge_pieces f strs >>= rest

abbrev not_empty : List ℕ → Bool
not_empty s = not (length s == 0)

-- The answer that refuses a request
unfoldable pub parse_challenge : Facts → List ℕ → Outcome Facts
parse_challenge f response = do
  lines ← or_throw (split_chars response crlf)
  told ← challenge_lines (record f { is_first = false; need_certify = true }) lines
  check (not_empty told.nonce && not_empty told.realm)
  done told

-- The first piece with the port; the port is what stands behind its first '-'.
unfoldable pub first_port : Camera → Facts → List (List ℕ) → Outcome Facts
first_port camera f [] = done f
first_port camera f (str ∷ strs) =
    let rest = first_port camera f strs in
    elim (find_str port_key str) [
      | some zero ↦ do
        parts ← or_throw (split_string str 45)
        port ← access (get_elem? parts 1)
        done (record f { rtcp_server_port = camera.atoi port })
      | _ ↦ rest
    ]

abbrev pub is_zero : ℤ → Bool
is_zero (pos n) = n == 0
is_zero (negsuc n) = false

-- A line of the answer that opens a session
unfoldable pub session_line : Camera → Facts → List ℕ → Outcome Facts
session_line camera f line = do
  named ← elim (find_str session_key line) [
    | some zero ↦ do
      parts ← or_throw (split_string line 59)
      first ← access (get_elem? parts 0)
      session ← or_throw (substr first (length session_key) (length first - length session_key))
      done (record f { session = session })
    | _ ↦ done f
  ]
  (if has (chars "server_port=") line
      then (do
        parts ← or_throw (split_string line 59)
        told ← first_port camera named parts
        check (not (is_zero told.rtcp_server_port))
        done told)
      else done named)

unfoldable pub session_lines : Camera → Facts → List (List ℕ) → Outcome Facts
session_lines camera f [] = done f
session_lines camera f (line ∷ lines) =
    let rest = λ (f' : Facts). session_lines camera f' lines in session_line camera f line >>= rest

unfoldable pub parse_session : Camera → Facts → List ℕ → Outcome Facts
parse_session camera f response = do
  lines ← or_throw (split_chars response crlf)
  session_lines camera (record f { is_first2 = false }) lines

-- A line of the description of the camera's streams
unfoldable pub track_line : Facts → List ℕ → Outcome Facts
track_line f str =
    if has control_key str
    then elim (find_str track_key str) [
      | none ↦ done f
      | some i ↦
          if f.only_video
          then (do
            track ← or_throw (substr str i (length str - i))
            done (record f { track = track; only_video = false }))
          else done f
    ]
    else if has (chars "H265") str
    then done (record f { codec = some h265 })
    else if has (chars "H264") str
    then done (record f { codec = some h264 })
    else done f

unfoldable pub track_lines : Facts → List (List ℕ) → Outcome Facts
track_lines f [] = done f
track_lines f (line ∷ lines) =
    let rest = λ (f' : Facts). track_lines f' lines in track_line f line >>= rest

unfoldable pub parse_tracks : Facts → List ℕ → Outcome Facts
parse_tracks f response = do lines ← or_throw (split_chars response crlf); track_lines f lines

-- `parser(pstr, len)`
unfoldable pub parser : Camera → Facts → List ℕ → Outcome Facts
parser camera f response =
    if has (chars "Unauthorized") response && f.is_first
    then parse_challenge f response
    else if has session_key response && f.is_first2
    then parse_session camera f response
    else if has (chars "v=") response && (has control_key response && has track_key response)
    then parse_tracks f response
    else done f
