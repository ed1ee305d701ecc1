-- ===== src/RtpDataManager/Thread.antt =====
-- The body of `parser_thread` on a packet taken from the buffer.
pub mod Depacketizer
pub mod Refine
pub mod Fragments
use vcu.Prelude.{ℕ, List, [], ◌∷◌, ◌++◌}
use vcu.Prelude.{Bool, false, if◌then◌else◌}
use vcu.ByteArray.{ByteArray, clear}
use vcu.Prelude.Memory.{load}
use vcu.Prelude.Outcome.{Outcome, done, access, check, ◌>>=◌, ◌>>◌}
use vcu.RtpDataManager.{Parser, Parsed}
use vcu.RtpDataManager.H264.{parser_rtp_h264}
use vcu.RtpDataManager.H265.{parser_rtp_h265}

pub data CodecType : Type 0 where
  h264 h265 : CodecType

-- What the thread reads from outside: `canSendBox()`, `canSendCon()`, whether the socket takes the
-- packet, and the value of `timestamp`, which it leaves uninitialised.
pub record Env : Type 0 where
  pub can_send_box : Bool
  pub can_send_con : Bool
  pub socket_sends : Bool
  pub timestamp : ℕ

-- What it hands on: bytes for the decoder's callback, a packet for the client.
pub data Output : Type 0 where
  frame : List ℕ → Bool → ℕ → Output
  forward : List ℕ → Output

-- The parser's static variables and the static `packet_data`.
pub record Stream : Type 0 where
  pub parser : Parser
  pub packet_data : ByteArray

unfoldable pub parse : CodecType → Stream → Env → List ℕ → Outcome Parsed
parse h264 s env pdata = parser_rtp_h264 s.parser env.can_send_box pdata s.packet_data
parse h265 s env pdata =
    parser_rtp_h265 s.parser env.can_send_box pdata s.packet_data false env.timestamp

-- `pf_callback(packet_data.data(), packet_data.size(), …); packet_data.clear();` if a packet came out
unfoldable pub deliver : Parsed → Outcome (List Output × Stream)
deliver p =
    if p.received
    then (do
      bytes ← access (load p.full_packet.block 0 p.full_packet.data_size)
      cleared ← access (clear p.full_packet)
      done (
        frame bytes p.mark p.timestamp ∷ [],
        record { parser = p.parser; packet_data = cleared },
      ))
    else done ([], record { parser = p.parser; packet_data = p.full_packet })

-- the packet sent on, which must succeed
unfoldable pub forward_packet : Env → List ℕ → Outcome (List Output)
forward_packet env pdata =
    if env.can_send_con then check env.socket_sends >> done (forward pdata ∷ []) else done []

unfoldable pub handle : CodecType → Stream → Env → List ℕ → Outcome (List Output × Stream)
handle codec s env pdata = do
  parsed ← parse codec s env pdata
  out ← deliver parsed
  sent ← forward_packet env pdata
  done (out.0 ++ sent, out.1)

-- The thread's rounds on a row of packets.
unfoldable pub run : CodecType → Stream → Env → List (List ℕ) → Outcome (List Output × Stream)
run codec s env [] = done ([], s)
run codec s env (pdata ∷ packets) = do
  now ← handle codec s env pdata
  later ← run codec now.1 env packets
  done (now.0 ++ later.0, later.1)
