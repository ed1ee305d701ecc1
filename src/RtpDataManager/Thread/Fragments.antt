-- ===== src/RtpDataManager/Thread/Fragments.antt =====
-- A unit that a sender cuts into fragments (RFC 6184, FU-A) comes out of the thread whole.
use vcu.Prelude.{
  ℕ, ◌+◌, ◌*◌, ◌/◌, ◌%◌, ◌^◌, ◌≤◌, ◌<◌, ◌≡◌, refl, sym, ap, subst, ◌∙◌, inl, inr, List, [], ◌∷◌,
  ◌++◌,
}
use vcu.Prelude.{
  arith, length, Bool-cases, Bool, true, if◌then◌else◌, ◌==◌, not, append_assoc, append-nil,
}
use vcu.Prelude.Memory.{IsBytes}
use vcu.Prelude.Outcome.{Outcome, done, aborted, overrun}
use vcu.RtpModel.{put_rtp_header}
use vcu.RtpModel.Header.{get-put_rtp_header, put_rtp_header-IsBytes}
use vcu.RtpDataManager.{start_code}
use vcu.RtpDataManager.H264.Depacketize.{fragment_bytes}
use vcu.RtpDataManager.H264.Depacketize.{payload_bytes as payload_bytes_264}
use vcu.RtpDataManager.Laws.{Holds}
use vcu.RtpDataManager.Thread.{
  h264, Env, Output, frame, forward, Stream, forward_packet, handle, run,
}
use vcu.RtpDataManager.Thread.Depacketizer.{opens, payload_bytes, frame_time, frames, step}
use vcu.RtpDataManager.Thread.Refine.{Agrees, handle_refines}

-- the bytes handed to the decoder
abbrev pub stream_bytes : List Output → List ℕ
stream_bytes [] = []
stream_bytes (frame bytes mark time ∷ out) = bytes ++ stream_bytes out
stream_bytes (forward pdata ∷ out) = stream_bytes out

abbrev pub flat : List (List ℕ) → List ℕ
flat [] = []
flat (c ∷ cs) = c ++ flat cs

-- The RTP packet of a fragment: start and end bits, in front of the unit's type.
abbrev pub fragment : ℕ → ℕ → ℕ → ℕ → ℕ → List ℕ → List ℕ
fragment seq mark time h bits chunk =
    put_rtp_header (seq % 2 ^ 16) mark time ((h / 32 * 32 + 28) ∷ (bits + h % 32) ∷ chunk)

abbrev pub later_fragments : ℕ → ℕ → ℕ → List (List ℕ) → List ℕ → List (List ℕ)
later_fragments seq time h [] last = fragment seq 1 time h 64 last ∷ []
later_fragments seq time h (m ∷ middle) last =
    fragment seq 0 time h 0 m ∷ later_fragments (seq + 1) time h middle last

-- The unit with header byte `h`, cut into a first chunk, some more, and a last one.
abbrev pub fragments : ℕ → ℕ → ℕ → List ℕ → List (List ℕ) → List ℕ → List (List ℕ)
fragments seq time h first middle last =
    fragment seq 0 time h 128 first ∷ later_fragments (seq + 1) time h middle last

-- A chunk of bytes that fits one packet.
abbrev pub IsChunk : List ℕ → Type 0
IsChunk c = IsBytes c × (length c ≤ 1486)

abbrev pub AllChunks : List (List ℕ) → Type 0
AllChunks [] = Unit
AllChunks (c ∷ cs) = IsChunk c × AllChunks cs

-- The thread is between two packets of an open stream.
abbrev pub IsOpen : Stream → Type 0
IsOpen s = (s.parser.is_start ≡ true) × Holds [] s.packet_data

Agrees-done :
    (r : Outcome (List Output × Stream)) (q : Outcome (List Output × Bool)) (out' : List Output)
    (started : Bool)
    → q ≡ done (out', started)
    → Agrees r q
    → (out : List Output) × (s : Stream) × (r ≡ done (out, s))
      × (out ≡ out')
      × (s.parser.is_start ≡ started)
      × Holds [] s.packet_data
Agrees-done (done (out, s)) (done (o, b)) out' started e h =
    (out, s, refl, ground arith, ground arith, h.2)
Agrees-done (done (out, s)) aborted out' started e h = absurd h
Agrees-done (done (out, s)) overrun out' started e h = absurd h
Agrees-done aborted (done q) out' started e h = absurd h
Agrees-done aborted aborted out' started e h = absurd (cc)
Agrees-done aborted overrun out' started e h = absurd h
Agrees-done overrun (done q) out' started e h = absurd h
Agrees-done overrun aborted out' started e h = absurd h
Agrees-done overrun overrun out' started e h = absurd (cc)

stream_bytes-append :
    (out out' : List Output) → stream_bytes (out ++ out') ≡ stream_bytes out ++ stream_bytes out'
stream_bytes-append [] out' = refl
stream_bytes-append (frame bytes mark time ∷ out) out' =
    ap (λ t. bytes ++ t) (stream_bytes-append out out')
    ∙ sym (append_assoc bytes (stream_bytes out) (stream_bytes out'))
stream_bytes-append (forward pdata ∷ out) out' = stream_bytes-append out out'

module _ (env : Env) (boxes : env.can_send_box ≡ true) (sends : env.socket_sends ≡ true) where
  forwards :
      (pdata : List ℕ)
      → (f : List Output) × (forward_packet env pdata ≡ done f) × (stream_bytes f ≡ [])
  unfolding forward_packet
  forwards pdata = elim (Bool-cases env.can_send_con) [
    | inl connected ↦ (forward pdata ∷ [], simp (connected, sends), refl)
    | inr alone ↦ ([], simp alone, refl)
  ]

  -- A packet of an open stream whose payload stands for `bytes`.
  round :
      (s : Stream) (seq mark time key : ℕ) (rest bytes : List ℕ)
      → IsOpen s
      → seq < 2 ^ 16
      → time < 2 ^ 32
      → IsBytes (key ∷ rest)
      → length rest ≤ 1487
      → payload_bytes_264 (if mark == 1 then 1 else 0) (key ∷ rest) ≡ done bytes
      → (out : List Output) × (s' : Stream) × (handle h264 s env
            (put_rtp_header seq mark time (key ∷ rest))
          ≡ done (out, s'))
        × (stream_bytes out ≡ bytes)
        × IsOpen s'
  unfolding put_rtp_header step frames opens payload_bytes frame_time forwards
  round s seq mark time key rest bytes (open_, empty) hs ht hb hl e =
      let pdata = put_rtp_header seq mark time (key ∷ rest) in
      let (f, sent, silent) = forwards pdata in
      let stepped : step h264 s.parser.is_start env pdata
          ≡ done (frame bytes (not ((if mark == 1 then 1 else 0) == 0)) time ∷ f, true) =
        simp (open_, get-put_rtp_header seq mark time (key ∷ rest) hs ht, boxes, e, sent) in
      let agree : Agrees (handle h264 s env pdata) (step h264 s.parser.is_start env pdata) =
        handle_refines h264 s env pdata empty (put_rtp_header-IsBytes seq mark time (key ∷ rest) hb)
          (omega arith) tt in
      let (out, s', ran, same, started, empty') = Agrees-done _ _ _ true stepped agree in
      (out, s', ran, ap stream_bytes same ∙ (rw (silent, append-nil)), (started, empty'))

  -- The rounds on `packets` all succeed, hand `bytes` on and leave the stream open.
  abbrev pub Delivers : Stream → List (List ℕ) → List ℕ → Type 0
  Delivers s packets bytes =
      (out : List Output) × (s' : Stream) × (run h264 s env packets ≡ done (out, s'))
      × (stream_bytes out ≡ bytes)
      × IsOpen s'

  -- The bytes of a round in front of those of the rounds behind it.
  rounds :
      (s : Stream) (pdata : List ℕ) (packets : List (List ℕ)) (now later : List ℕ)
      → (out : List Output) × (s' : Stream) × (handle h264 s env pdata ≡ done (out, s'))
        × (stream_bytes out ≡ now)
        × IsOpen s'
      → ((s' : Stream) → IsOpen s' → Delivers s' packets later)
      → Delivers s (pdata ∷ packets) (now ++ later)
  unfolding run
  rounds s pdata packets now later (out, s1, ran, first, open1) rest =
      let (out2, s2, ran2, second, open2) = rest s1 open1 in
      (out ++ out2, s2, rw (ran, ran2), stream_bytes-append out out2 ∙ rw (first, second), open2)

  later_fragments-Delivers :
      (seq time h : ℕ) (middle : List (List ℕ)) (last : List ℕ) (s : Stream)
      → time < 2 ^ 32
      → h < 256
      → AllChunks middle
      → IsChunk last
      → IsOpen s
      → Delivers s (later_fragments seq time h middle last) (flat middle ++ last)
  unfolding payload_bytes_264 fragment_bytes run
  later_fragments-Delivers seq time h [] last s ht hh hm (hb, hl) open_ =
      subst (Delivers s (later_fragments seq time h [] last)) (append-nil last) (
        rounds s _ [] last []
          (round s (seq % 2 ^ 16) 1 time (h / 32 * 32 + 28) ((64 + h % 32) ∷ last) last open_
            (omega arith) ht (omega arith, (omega arith, hb)) (omega arith) (ground arith))
          (λ s' o. ([], s', refl, refl, o)))
  later_fragments-Delivers seq time h (m ∷ middle) last s ht hh ((hb, hl), hm) hlast open_ =
      subst (Delivers s (later_fragments seq time h (m ∷ middle) last))
        (sym (append_assoc m (flat middle) last))
        (rounds s _ _ m (flat middle ++ last)
          (round s (seq % 2 ^ 16) 0 time (h / 32 * 32 + 28) ((0 + h % 32) ∷ m) m open_ (omega arith)
            ht (omega arith, (omega arith, hb)) (omega arith) (ground arith))
          (λ s' o. later_fragments-Delivers (seq + 1) time h middle last s' ht hh hm hlast o))

  -- A unit with header byte `h`, cut into chunks of at most 1486 bytes and sent as the first, the
  -- middle and the last fragment, comes out of the thread whole. On an open stream every round
  -- succeeds, and the bytes handed to the decoder are, in order, a start code, `h` and the chunks; the
  -- stream stays open. A client that wants boxes is connected, and the socket takes what is forwarded.
  pub fragments_delivered :
      (seq time h : ℕ) (first : List ℕ) (middle : List (List ℕ)) (last : List ℕ) (s : Stream)
      → time < 2 ^ 32
      → h < 256
      → IsChunk first
      → AllChunks middle
      → IsChunk last
      → IsOpen s
      → Delivers s
          (fragments seq time h first middle last)
          (start_code ++ (h ∷ first ++ (flat middle ++ last)))
  unfolding payload_bytes_264 fragment_bytes
  fragments_delivered seq time h first middle last s ht hh (hb, hl) hm hlast open_ =
      rounds s _ _ (start_code ++ (h ∷ first)) (flat middle ++ last)
        (round s (seq % 2 ^ 16) 0 time (h / 32 * 32 + 28) ((128 + h % 32) ∷ first) _ open_
          (omega arith) ht (omega arith, (omega arith, hb)) (omega arith) (ground arith))
        (λ s' o. later_fragments-Delivers (seq + 1) time h middle last s' ht hh hm hlast o)
