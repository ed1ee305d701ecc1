-- ===== src/Rtsp/Login.antt =====
-- `login` and `play`: the conversation with the camera.
use vcu.Prelude.{ℕ, List, [], ◌∷◌, ◌++◌}
use vcu.Prelude.{true, false, not, ◌&&◌, if◌then◌else◌, length, ltb}
use vcu.Prelude.Outcome.{Outcome, done, check, ◌>>=◌, ◌>>◌}
use vcu.Rtsp.{Camera, Rtsp}
use vcu.Rtsp.Parser.{parser, is_zero}
use vcu.Rtsp.Messages.{get_opt_msg, get_describe_msg, get_setup_msg, get_play_msg}

-- The statics, and the messages sent so far.
pub record Talk : Type 0 where
  pub state : Rtsp
  pub sent : List (List ℕ)

-- A round of `receive_tcp_thread` on bytes that were read: up to two of them are ignored.
unfoldable pub receive_tcp : Camera → Rtsp → List ℕ → Outcome Rtsp
receive_tcp camera s bytes =
    if ltb 2 (length bytes)
    then (do told ← parser camera s.facts bytes; done (record s { facts = told }))
    else done s

-- A message sent, and the wait for its answer
unfoldable pub ask : Camera → List (List ℕ) → List ℕ × Rtsp → Outcome Talk
ask camera sent message = do
  check (camera.send_ok (length sent))
  s ← receive_tcp camera message.1 (camera.answer (length sent))
  done (record { state = s; sent = sent ++ (message.0 ∷ []) })

-- `if (need_certify)` behind the first request
unfoldable pub certify : Camera → Talk → Outcome Talk
certify camera t =
    if t.state.facts.need_certify
    then get_opt_msg camera true t.state >>= ask camera t.sent
    else done t

-- The descriptions; the first has the account when the camera refused the request in front of it.
unfoldable pub describe : Camera → Talk → Outcome Talk
describe camera t = do
  told ← get_describe_msg camera t.state.facts.need_certify t.state >>= ask camera t.sent
  (if told.state.facts.need_certify && not t.state.facts.need_certify
      then get_describe_msg camera true told.state >>= ask camera told.sent
      else done told)

-- `login`, from a connected socket
unfoldable pub login : Camera → Rtsp → Outcome Talk
login camera s = do
  asked ← get_opt_msg camera false s >>= ask camera []
  certified ← certify camera asked
  described ← describe camera certified
  get_setup_msg camera described.state >>= ask camera described.sent

-- `play`, up to the start of the report threads
unfoldable pub play : Camera → Talk → Outcome Talk
play camera t = do
  told ← get_play_msg camera t.state >>= ask camera t.sent
  check (not (is_zero told.state.facts.rtcp_server_port))
  done told
