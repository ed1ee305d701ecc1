-- ===== src/Rtsp/Tests.antt =====
-- A camera that refuses the first request and then answers, and the reports of a stream.
use vcu.Prelude.{◌+◌, ◌≡◌, refl, some, none, [], ◌∷◌, arith}
use vcu.Prelude.{true, false, pos, length, if◌then◌else◌, ltb}
use vcu.Prelude.Memory.{store, zeros}
use vcu.Prelude.Outcome.{Outcome, done, aborted, overrun}
use vcu.Rtsp.{Camera, Facts, Rtsp}
use vcu.Rtsp.Texts.{chars, find_str, starts_with}
use vcu.Rtsp.Digest.{cal_response, cal_response_lem, proof_of, puts, put}
use vcu.Rtsp.Parser.{
  challenge_piece, parser, parse_challenge, parse_session, parse_tracks, track_lines, track_line,
  challenge_lines, challenge_pieces, quoted,
}
use vcu.Rtsp.Login.{Talk, login, certify, describe, ask, receive_tcp}
use vcu.Rtsp.Messages.{get_opt_msg, get_describe_msg, get_setup_msg}
use vcu.Common.{substr, split_by, split_rounds, find_first, find_from, piece}
use vcu.Rtsp.Numbered.{IsNumbered, login-IsNumbered}
use vcu.Rtsp.Reports.{Stats, IsStats, Report, send_report, get_fields, send_report-fields}
use vcu.Rtsp.Largest.{set_seqs, set_seq-largest}

abbrev nothing_known : Facts
nothing_known = record {
  need_certify = false;
  nonce = [];
  realm = [];
  session = [];
  track = [];
  rtcp_server_port = pos 0;
  codec = none;
  is_first = true;
  is_first2 = true;
  only_video = true;
}

abbrev start : Rtsp
start = record { seq_num = 1; response = []; facts = nothing_known }

-- The digest is the text's length.
abbrev camera : Camera
camera = record {
  user = chars "me";
  passwd = chars "it";
  url = chars "rtsp://c";
  md5 = λ text. length text ∷ [];
  to_string = λ n. (48 + n) ∷ [];
  atoi = λ text. pos (length text);
  answer = λ k.
      if ltb k 1
      then chars "401 Unauthorized\r\nrealm=\"r\",nonce=\"n\"\r\n"
      else chars "v=0\r\na=control:track1\r\nH264\r\n";
  send_ok = λ k. true;
}

cal_response_lem_example :
    cal_response camera (chars "PLAY:") start
    ≡ done (
      (length (proof_of camera (chars "PLAY:") start)) ∷ [],
      record start { response = (length (proof_of camera (chars "PLAY:") start)) ∷ [] },
    )
cal_response_lem_example = cal_response_lem camera (chars "PLAY:") start

abbrev or_silent : Outcome Talk → Talk
or_silent (done t) = t
or_silent aborted = record { state = start; sent = [] }
or_silent overrun = record { state = start; sent = [] }

abbrev talk : Talk
talk = or_silent (login camera start)

abbrev stats : Stats
stats = record {
  version = 2;
  ssrc = 7;
  seq = 65535;
  wrap_around_count = 1;
  max = 65535;
  lsr = 9;
  sr_time = 1000;
  receive_buffer = zeros 100;
}

stats-IsStats : IsStats stats
stats-IsStats = record {
  version_range = omega arith;
  ssrc_range = omega arith;
  seq_range = omega arith;
  wrap_range = omega arith;
  lsr_range = omega arith;
}

send_report-fields_example :
    (report : Report) × (send_report camera false stats 1002 start ≡ done report)
    × (report.message ≡ none)
    × (get_fields report.packet
        ≡ some (record {
          version = 2;
          count = 1;
          type = 201;
          words = 7;
          source = 7;
          cycles = 1;
          highest = 65535;
          jitter = 80;
          last_report = 9;
          delay = 131072;
        }))
send_report-fields_example =
    send_report-fields camera false stats 1002 start stats-IsStats (omega arith) (omega arith)
      (omega arith)

set_seq-largest_example :
    ((set_seqs stats (65535 ∷ 0 ∷ 1 ∷ [])).seq ≡ 65535)
    × ((set_seqs stats (65535 ∷ 0 ∷ 1 ∷ [])).wrap_around_count ≡ 2)
set_seq-largest_example =
    set_seq-largest stats 65535 (0 ∷ 1 ∷ []) (omega arith, (omega arith, (omega arith, tt)))
      (omega arith) (omega arith)

talked : login camera start ≡ done talk
unfolding login certify describe ask receive_tcp get_opt_msg get_describe_msg get_setup_msg
    cal_response puts put store parser parse_challenge parse_session parse_tracks track_lines
    track_line challenge_lines challenge_pieces challenge_piece quoted substr split_by split_rounds
    find_first find_from piece find_str starts_with
talked = refl

-- The four messages of this login.
login-IsNumbered_example :
    IsNumbered camera 1 (talk.sent) × ((talk.state).seq_num ≡ 1 + length (talk.sent))
login-IsNumbered_example = login-IsNumbered camera start talk talked
