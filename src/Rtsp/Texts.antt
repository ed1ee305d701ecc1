-- ===== src/Rtsp/Texts.antt =====
-- The texts of the requests, and the search for a text in another.
use Prim.Native.String.{String}
use Prim.Native.Char.{code}
use vcu.Prelude.{ℕ, suc, Option, none, some, List, [], ◌∷◌}
use vcu.Prelude.{Bool, true, false, ◌==◌, ◌&&◌, if◌then◌else◌}
use vcu.Prelude.Outcome.{Outcome, done, aborted}

-- The characters of a text
abbrev pub chars : String → List ℕ
chars String.[] = []
chars (String.◌∷◌ c s) = code c ∷ chars s

-- An exception that nothing catches
abbrev pub or_throw {ℓ} : {A : Type ℓ} → Option A → Outcome A
or_throw none = aborted
or_throw (some a) = done a

-- Whether a text begins with another.
unfoldable pub starts_with : List ℕ → List ℕ → Bool
starts_with [] s = true
starts_with (c ∷ key) [] = false
starts_with (c ∷ key) (d ∷ s) = (c == d) && starts_with key s

-- `s.find(key)`
unfoldable pub find_str : List ℕ → List ℕ → Option ℕ
find_str key [] = if starts_with key [] then some 0 else none
find_str key (c ∷ s) =
    let rest = find_str key s in
    if starts_with key (c ∷ s) then some 0 else elim rest [ none ↦ none | some i ↦ some (suc i) ]

-- `s.find(key) != std::string::npos`
abbrev pub has : List ℕ → List ℕ → Bool
has key s = elim (find_str key s) [ none ↦ false | some _ ↦ true ]

abbrev pub opt_msg_1 : List ℕ
opt_msg_1 = chars "OPTIONS "

abbrev pub describe_msg_1 : List ℕ
describe_msg_1 = chars "DESCRIBE "

abbrev pub setup_msg_1 : List ℕ
setup_msg_1 = chars "SETUP "

abbrev pub play_msg_1 : List ℕ
play_msg_1 = chars "PLAY "

abbrev pub parameter_msg_1 : List ℕ
parameter_msg_1 = chars "GET_PARAMETER "

abbrev pub cseq_head : List ℕ
cseq_head = chars "CSeq: "

abbrev pub author_msg_1 : List ℕ
author_msg_1 = chars "Authorization: Digest username=\""

abbrev pub author_msg_2 : List ℕ
author_msg_2 = chars "\", realm=\""

abbrev pub author_msg_3 : List ℕ
author_msg_3 = chars "\", nonce=\""

abbrev pub author_msg_4 : List ℕ
author_msg_4 = chars "\", uri=\""

abbrev pub author_msg_5 : List ℕ
author_msg_5 = chars "\", response=\""

abbrev pub author_msg_6 : List ℕ
author_msg_6 = chars "\"\r\n"

abbrev pub user_agent_msg : List ℕ
user_agent_msg = chars "User-Agent: virtual client player\r\n"

abbrev pub transport_msg : List ℕ
transport_msg = chars "Transport: RTP/AVP;unicast;client_port=9980-9990\r\n"

abbrev pub crlf : List ℕ
crlf = chars "\r\n"

abbrev pub rtsp_end : List ℕ
rtsp_end = chars " RTSP/1.0\r\n"
