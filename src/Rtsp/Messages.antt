-- ===== src/Rtsp/Messages.antt =====
-- The requests to the camera.
use vcu.Prelude.{ℕ, suc, List, ◌++◌}
use vcu.Prelude.{Bool, not, ◌==◌, if◌then◌else◌, length}
use vcu.Prelude.Outcome.{Outcome, done, check, ◌>>=◌, ◌>>◌}
use vcu.Rtsp.{Camera, Rtsp}
use vcu.Rtsp.Digest.{cal_response}
use vcu.Rtsp.Texts.{
  chars, crlf, rtsp_end, cseq_head, user_agent_msg, transport_msg, opt_msg_1, describe_msg_1,
  setup_msg_1, play_msg_1, parameter_msg_1, author_msg_1, author_msg_2, author_msg_3, author_msg_4,
  author_msg_5, author_msg_6,
}

-- `cseq_str`
abbrev pub cseq_str : Camera → ℕ → List ℕ
cseq_str camera n = cseq_head ++ (camera.to_string n ++ crlf)

-- `seq_num++`
abbrev next_seq : Rtsp → Rtsp
next_seq s = record s { seq_num = suc s.seq_num }

abbrev pub author_str : Camera → Rtsp → List ℕ
author_str camera s =
    author_msg_1
    ++ (camera.user
        ++ (author_msg_2
            ++ (s.facts.realm
                ++ (author_msg_3
                    ++ (s.facts.nonce
                        ++ (author_msg_4
                            ++ (camera.url ++ (author_msg_5 ++ (s.response ++ author_msg_6)))))))))

-- A request: its line, its number, and what follows them
abbrev pub request_str : Camera → List ℕ → ℕ → List ℕ → List ℕ
request_str camera line n rest = line ++ (rtsp_end ++ (cseq_str camera n ++ rest))

-- `get_opt_msg(url, author)`
unfoldable pub get_opt_msg : Camera → Bool → Rtsp → Outcome (List ℕ × Rtsp)
get_opt_msg camera author s =
    if author
    then (do
      told ← cal_response camera (chars "OPTIONS:") (next_seq s)
      done (
        request_str camera (opt_msg_1 ++ camera.url) s.seq_num
            (author_str camera told.1 ++ (user_agent_msg ++ crlf)),
        told.1,
      ))
    else done (
      request_str camera (opt_msg_1 ++ camera.url) s.seq_num (user_agent_msg ++ crlf),
      next_seq s,
    )

-- `get_describe_msg(url, author)`
unfoldable pub get_describe_msg : Camera → Bool → Rtsp → Outcome (List ℕ × Rtsp)
get_describe_msg camera author s =
    if author
    then (do
      told ← cal_response camera (chars "DESCRIBE:") (next_seq s)
      done (
        request_str camera (describe_msg_1 ++ camera.url) s.seq_num
            (author_str camera told.1 ++ (user_agent_msg ++ crlf)),
        told.1,
      ))
    else done (
      request_str camera (describe_msg_1 ++ camera.url) s.seq_num (user_agent_msg ++ crlf),
      next_seq s,
    )

abbrev not_empty : List ℕ → Bool
not_empty s = not (length s == 0)

-- `get_setup_msg(url)`
unfoldable pub get_setup_msg : Camera → Rtsp → Outcome (List ℕ × Rtsp)
get_setup_msg camera s = do
  told ← cal_response camera (chars "SETUP:") (next_seq s)
  check (not_empty s.facts.track)
  done (
    request_str camera (setup_msg_1 ++ (camera.url ++ (chars "/" ++ s.facts.track))) s.seq_num
        (author_str camera told.1 ++ (user_agent_msg ++ (transport_msg ++ crlf))),
    told.1,
  )

abbrev session_str : Rtsp → List ℕ
session_str s = chars "Session: " ++ (s.facts.session ++ crlf)

-- `get_play_msg(url)`
unfoldable pub get_play_msg : Camera → Rtsp → Outcome (List ℕ × Rtsp)
get_play_msg camera s = do
  told ← cal_response camera (chars "PLAY:") (next_seq s)
  check (not_empty s.facts.session)
  done (
    request_str camera (play_msg_1 ++ (camera.url ++ chars "/")) s.seq_num (
        author_str camera told.1
        ++ (user_agent_msg ++ (session_str s ++ (chars "Range: npt=0.000-\r\n" ++ crlf)))),
    told.1,
  )

-- `get_parameter_msg(url)`
unfoldable pub get_parameter_msg : Camera → Rtsp → Outcome (List ℕ × Rtsp)
get_parameter_msg camera s = do
  told ← cal_response camera (chars "GET_PARAMETER:") (next_seq s)
  check (not_empty s.facts.session)
  done (
    request_str camera (parameter_msg_1 ++ (camera.url ++ chars "/")) s.seq_num
        (author_str camera told.1 ++ (user_agent_msg ++ (session_str s ++ crlf))),
    told.1,
  )
