-- ===== src/RtpDataManager/Thread/Depacketizer.antt =====
-- The abstract depacketizer: a stream is open or not, and a packet stands for some bytes.
use vcu.Prelude.{ℕ, List, [], ◌∷◌, ◌++◌, drop, ◌==◌, ◌||◌, not, Bool, true, false, if◌then◌else◌}
use vcu.Prelude.Outcome.{Outcome, done, overrun, access, ◌>>=◌}
use vcu.RtpModel.{RtpHeader, get_rtp_header}
use vcu.RtpDataManager.H264.Depacketize.{payload_bytes as payload_bytes_264}
use vcu.RtpDataManager.H265.Depacketize.{payload_bytes as payload_bytes_265}
use vcu.RtpDataManager.Thread.{CodecType, h264, h265, Env, Output, frame, forward_packet}

-- A stream opens at a sequence parameter set (H.264) or a video parameter set (H.265).
unfoldable pub opens : CodecType → ℕ → Bool
opens h264 key = key == 0x67
opens h265 key = key == 0x40

unfoldable pub payload_bytes : CodecType → ℕ → List ℕ → Outcome (List ℕ)
payload_bytes h264 = payload_bytes_264
payload_bytes h265 = payload_bytes_265

-- the timestamp that goes with a frame: for H.265 only a marked packet sets it
unfoldable pub frame_time : CodecType → RtpHeader → ℕ → ℕ
frame_time h264 header t = header.timestamp
frame_time h265 header t = if header.mark == 0 then t else header.timestamp

-- The frames of a packet whose payload is `payload`, and whether the stream is open afterwards.
unfoldable pub frames : CodecType → Bool → ℕ → RtpHeader → List ℕ → Outcome (List Output × Bool)
frames codec started t header [] = overrun
frames codec started t header (key ∷ rest) =
    if started || opens codec key
    then (do
      bytes ← payload_bytes codec header.mark (key ∷ rest)
      done (frame bytes (not (header.mark == 0)) (frame_time codec header t) ∷ [], true))
    else done ([], false)

-- One packet: its frames if a client wants boxes (the stream is closed otherwise), then the packet
-- itself if a client is connected.
unfoldable pub step : CodecType → Bool → Env → List ℕ → Outcome (List Output × Bool)
step codec started env pdata = do
  header ← access (get_rtp_header pdata)
  out ←
      (if env.can_send_box
        then frames codec started env.timestamp header (drop 12 pdata)
        else done ([], false))
  sent ← forward_packet env pdata
  done (out.0 ++ sent, out.1)
