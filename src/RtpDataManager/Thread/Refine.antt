-- ===== src/RtpDataManager/Thread/Refine.antt =====
-- The thread's body does what the abstract depacketizer does, and its buffer cannot overflow.
use vcu.Prelude.{ℕ, ◌%◌, ◌≤◌, ◌≡◌, refl, ap, ◌∙◌, inl, inr, List, [], ◌∷◌, ◌++◌, some, none}
use vcu.Prelude.{
  arith, length, drop, get_elem?, Option-cases, Bool-cases, Bool, true, false, if◌then◌else◌, ◌==◌,
  ◌||◌, not,
}
use vcu.Prelude.Memory.{IsBytes}
use vcu.Prelude.Outcome.{Outcome, done, aborted, overrun, ◌>>=◌}
use vcu.ByteArray.{ByteArray}
use vcu.ByteArray.Valid.{load_front}
use vcu.ByteArray.Edit.{clear_lem}
use vcu.RtpModel.{RtpHeader, get_rtp_header}
use vcu.RtpDataManager.{Parsed}
use vcu.RtpDataManager.H264.{parser_rtp_h264}
use vcu.RtpDataManager.H264
use vcu.RtpDataManager.H264.Depacketize.{add_packet_264_lem}
use vcu.RtpDataManager.H265.{parser_rtp_h265}
use vcu.RtpDataManager.H265
use vcu.RtpDataManager.H265.Depacketize.{add_packet_265_lem}
use vcu.RtpDataManager.Laws.{Holds, Adds, get_elem?-drop}
use vcu.RtpDataManager.Thread.{
  CodecType, h264, h265, Env, Output, frame, Stream, parse, deliver, forward_packet, handle,
}
use vcu.RtpDataManager.Thread.Depacketizer.{opens, payload_bytes, frame_time, frames, step}

-- The same outputs, the stream open or not alike, and the buffer empty again.
abbrev pub Agrees : Outcome (List Output × Stream) → Outcome (List Output × Bool) → Type 0
Agrees (done (out, s)) (done (out', started)) =
    (out ≡ out') × (s.parser.is_start ≡ started) × Holds [] s.packet_data
Agrees aborted aborted = Unit {0}
Agrees overrun overrun = Unit {0}
Agrees _ _ = ⊥

-- For H.265, the unit's layer id is below 32, which its header's first byte shows.
abbrev pub SingleLayer : CodecType → List ℕ → Type 0
SingleLayer h264 payload = Unit
SingleLayer h265 [] = Unit
SingleLayer h265 (key ∷ _) = key % 2 ≡ 0

deliver_lem :
    (p : Parsed) (bytes : List ℕ)
    → p.received ≡ true
    → Holds bytes p.full_packet
    → (b : ByteArray) × (deliver p
        ≡ done (frame bytes p.mark p.timestamp ∷ [], record { parser = p.parser; packet_data = b }))
      × Holds [] b
unfolding deliver
deliver_lem p bytes received h =
    let (b, cleared, v, nothing, cap) = clear_lem p.full_packet h.valid in
    (
      b,
      rw (
        received,
        load_front p.full_packet.block p.full_packet.data_size (omega (arith, h.valid)),
        cleared,
        h.holds,
      ),
      record { valid = v; large = omega (arith, h.large); holds = nothing },
    )

-- What both do last, whatever the socket answers.
forward_lem :
    (sent : Outcome (List Output)) (out : List Output) (s : Stream) (started : Bool)
    → s.parser.is_start ≡ started
    → Holds [] s.packet_data
    → Agrees (sent >>= λ f. done (out ++ f, s)) (sent >>= λ f. done (out ++ f, started))
forward_lem (done f) out s started e h = (refl, e, h)
forward_lem aborted out s started e h = tt
forward_lem overrun out s started e h = tt

-- The end of a round, from what the parser returned.
abbrev finish : Env → List ℕ → Outcome Parsed → Outcome (List Output × Stream)
finish env pdata parsed = do
  p ← parsed
  out ← deliver p
  sent ← forward_packet env pdata
  done (out.0 ++ sent, out.1)

abbrev finish_spec : Env → List ℕ → Outcome (List Output × Bool) → Outcome (List Output × Bool)
finish_spec env pdata result = do
  out ← result
  sent ← forward_packet env pdata
  done (out.0 ++ sent, out.1)

-- A packet whose bytes were added.
added :
    (env : Env) (pdata : List ℕ) (r : Outcome ByteArray) (q : Outcome (List ℕ))
    (report : ByteArray → Parsed) (mark : Bool) (time : ℕ)
    → Adds r q
    → ((b : ByteArray) → (report b).received ≡ true)
    → ((b : ByteArray) → (report b).full_packet ≡ b)
    → ((b : ByteArray) → (report b).parser.is_start ≡ true)
    → ((b : ByteArray) → (report b).mark ≡ mark)
    → ((b : ByteArray) → (report b).timestamp ≡ time)
    → Agrees
        (finish env pdata (r >>= λ b. done (report b)))
        (finish_spec env pdata (q >>= λ bytes. done (frame bytes mark time ∷ [], true)))
unfolding deliver_lem
added env pdata (done b) (done bytes) report mark time h received full start marked timed =
    let (b', delivered, empty) = deliver_lem (report b) bytes (received b) (rw (full b) h) in
    rw (delivered, marked b, timed b)
      (forward_lem (forward_packet env pdata) (frame bytes mark time ∷ [])
        (record { parser = (report b).parser; packet_data = b' }) true (start b) empty)
added env pdata aborted aborted report mark time h received full start marked timed = tt
added env pdata overrun overrun report mark time h received full start marked timed = tt
added env pdata (done b) aborted report mark time h received full start marked timed = absurd h
added env pdata (done b) overrun report mark time h received full start marked timed = absurd h
added env pdata aborted (done b) report mark time h received full start marked timed = absurd h
added env pdata aborted overrun report mark time h received full start marked timed = absurd h
added env pdata overrun (done b) report mark time h received full start marked timed = absurd h
added env pdata overrun aborted report mark time h received full start marked timed = absurd h

-- A packet that the parser passes over.
passed_over :
    (env : Env) (pdata : List ℕ) (p : Parsed)
    → p.received ≡ false
    → p.parser.is_start ≡ false
    → Holds [] p.full_packet
    → Agrees (finish env pdata (done p)) (finish_spec env pdata (done ([], false)))
unfolding deliver
passed_over env pdata p received closed h = rw received (
    forward_lem (forward_packet env pdata) []
      (record { parser = p.parser; packet_data = p.full_packet }) false closed h)

module _ (env : Env) (pdata : List ℕ) (s : Stream) (header : RtpHeader)
    (empty : Holds [] s.packet_data) (bytes : IsBytes pdata) (small : length pdata ≤ 1500)
    (read : get_rtp_header pdata ≡ some header) (boxes : env.can_send_box ≡ true) where
  first_byte :
      (payload : List ℕ) → drop 12 pdata ≡ payload → get_elem? pdata 12 ≡ get_elem? payload 0
  first_byte payload e = get_elem?-drop 12 0 12 pdata (omega arith) ∙ ap (λ t. get_elem? t 0) e

  wanted :
      (codec : CodecType) (payload : List ℕ)
      → drop 12 pdata ≡ payload
      → SingleLayer codec payload
      → Agrees
          (finish env pdata (parse codec s env pdata))
          (finish_spec env pdata (frames codec s.parser.is_start env.timestamp header payload))
  unfolding parse parser_rtp_h264 parser_rtp_h265 frames opens payload_bytes frame_time
      forward_packet
  wanted h264 [] e layer = rw (read, boxes, first_byte [] e) tt
  wanted h265 [] e layer = rw (read, boxes, first_byte [] e) tt
  wanted h264 (key ∷ rest) e layer = elim (Bool-cases (s.parser.is_start || key == 0x67)) [
    | inr closed ↦
        rw (read, boxes, first_byte (key ∷ rest) e, closed)
          (passed_over env pdata (H264.report_264 header false false s.packet_data) refl refl empty)
    | inl started ↦
        rw (read, boxes, first_byte (key ∷ rest) e, started)
          (added env pdata _ _ (H264.report_264 header true true) (not (header.mark == 0))
            header.timestamp
            (add_packet_264_lem header pdata s.packet_data small empty key rest e bytes) (λ b. refl)
            (λ b. refl) (λ b. refl) (λ b. refl) (λ b. refl))
  ]
  wanted h265 (key ∷ rest) e layer = elim (Bool-cases (s.parser.is_start || key == 0x40)) [
    | inr closed ↦
        rw (read, boxes, first_byte (key ∷ rest) e, closed)
          (passed_over env pdata
            (H265.report_265 header false env.timestamp false false s.packet_data) refl refl empty)
    | inl started ↦
        rw (read, boxes, first_byte (key ∷ rest) e, started)
          (added env pdata _ _ (H265.report_265 header false env.timestamp true true)
            (not (header.mark == 0)) (if header.mark == 0 then env.timestamp else header.timestamp)
            (add_packet_265_lem header pdata s.packet_data small empty key rest e bytes layer)
            (λ b. refl) (λ b. refl) (λ b. refl) (λ b. marked (header.mark == 0)) (λ b. refl))
  ]
    where
      marked : (c : Bool) → (if c then false else true) ≡ not c
      marked true = refl
      marked false = refl

-- A round of the parser thread, started with an empty buffer at least as large as a new one, on a
-- packet of at most 1500 bytes (for H.265, of a layer below 32): it hands on what the abstract
-- depacketizer does, in the same order, opens or closes the stream as it does, fails a check or
-- reads outside the packet exactly when it does, and leaves the buffer empty and as large. So the
-- buffer is never written outside its block.
pub handle_refines :
    (codec : CodecType) (s : Stream) (env : Env) (pdata : List ℕ)
    → Holds [] s.packet_data
    → IsBytes pdata
    → length pdata ≤ 1500
    → SingleLayer codec (drop 12 pdata)
    → Agrees (handle codec s env pdata) (step codec s.parser.is_start env pdata)
unfolding handle step parse parser_rtp_h264 parser_rtp_h265
handle_refines codec s env pdata empty bytes small layer =
    elim (Option-cases (get_rtp_header pdata)) [
      | inl short ↦ unread codec short
      | inr (header, read) ↦ elim (Bool-cases env.can_send_box) [
        | inl boxes ↦
            simp (read, boxes)
              (wanted env pdata s header empty bytes small read boxes codec (drop 12 pdata) refl
                layer)
        | inr none_wanted ↦ unwanted codec header read none_wanted
      ]
    ]
  where
    unread :
        (codec : CodecType)
        → get_rtp_header pdata ≡ none
        → Agrees (handle codec s env pdata) (step codec s.parser.is_start env pdata)
    unread h264 e = rw e tt
    unread h265 e = rw e tt

    unwanted :
        (codec : CodecType) (header : RtpHeader)
        → get_rtp_header pdata ≡ some header
        → env.can_send_box ≡ false
        → Agrees (handle codec s env pdata) (step codec s.parser.is_start env pdata)
    unwanted h264 header e closed =
        simp (e, closed)
          (passed_over env pdata (H264.report_264 header false false s.packet_data) refl refl empty)
    unwanted h265 header e closed =
        simp (e, closed)
          (passed_over env pdata
            (H265.report_265 header false env.timestamp false false s.packet_data) refl refl empty)
