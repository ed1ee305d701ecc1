-- ===== src/Rtsp/Reports.antt =====
-- What the receiver of the stream reports to the camera, and what it keeps for that.
use vcu.Prelude.{
  ℕ, ◌+◌, ◌-◌, ◌*◌, ◌/◌, ◌%◌, ◌^◌, ◌≤◌, ◌<◌, ◌≡◌, refl, Option, none, some, List, [], ◌∷◌, bit_or,
}
use vcu.Prelude.{Bool, true, false, ◌==◌, if◌then◌else◌, ltb, take, arith}
use vcu.Prelude.Memory.{load, store}
use vcu.Prelude.Outcome.{Outcome, done, access, ◌>>=◌}
use vcu.Prelude.Bits.{bit_or_disjoint}
use vcu.RtpModel.{be16, be32, be16_bytes, be32_bytes}
use vcu.Rtsp.{Camera, Rtsp}
use vcu.Rtsp.Messages.{get_parameter_msg}

-- The members that the reports use, `setSeq`'s static and `recv_report_thread`'s buffer.
pub record Stats : Type 0 where
  pub version : ℕ
  pub ssrc : ℕ
  pub seq : ℕ
  pub wrap_around_count : ℕ
  pub max : ℕ
  pub lsr : ℕ
  pub sr_time : ℕ
  pub receive_buffer : List ℕ

-- `setSSRC(_SSRC)`
abbrev pub set_ssrc : ℕ → Stats → Stats
set_ssrc n s = if s.ssrc == 0 then record s { ssrc = n } else s

-- `setRtpVersion(_version)`
abbrev pub set_rtp_version : ℕ → Stats → Stats
set_rtp_version n s = if s.version == 0 then record s { version = n } else s

-- `setSeq(seq)`
unfoldable pub set_seq : ℕ → Stats → Stats
set_seq seq s =
    let new = (seq + 65536 * s.wrap_around_count) % 2 ^ 16 in
    let wrap = if seq == 65535 then (s.wrap_around_count + 1) % 2 ^ 16 else s.wrap_around_count in
    let old = if seq == 65535 then 0 else s.max in
    let top = if ltb new old then old else new in
    record s { seq = top; wrap_around_count = wrap; max = top }

-- The first 24 bytes of a report
unfoldable pub report_head : Stats → List ℕ → List ℕ
report_head s rest =
    bit_or (s.version * 2 ^ 6 % 256) 1
    ∷ 201
    ∷ be16_bytes 7 (
        be32_bytes 1 (
          be32_bytes s.ssrc (
            0
            ∷ 0xff
            ∷ 0xff
            ∷ 0xff
            ∷ be16_bytes s.wrap_around_count (be16_bytes s.seq (be32_bytes 80 rest)))))

-- The last 8 bytes, once a report of the camera has been received
unfoldable pub report_tail : Stats → ℕ → List ℕ
report_tail s now =
    be32_bytes s.lsr (be32_bytes ((now + 2 ^ 64 - s.sr_time) % 2 ^ 64 * 65536 % 2 ^ 32) [])

-- What a round of `send_report_thread` sends: a request to the camera, if there is one, and the report;
-- `first` is the thread's first round.
pub record Report : Type 0 where
  pub message : Option (List ℕ)
  pub packet : List ℕ
  pub state : Rtsp

unfoldable pub send_report : Camera → Bool → Stats → ℕ → Rtsp → Outcome Report
send_report camera first s now r =
    if first
    then done (record {
      message = none;
      packet = report_head s (be32_bytes 0 (be32_bytes 0 []));
      state = r;
    })
    else if s.sr_time == 0
    then (do
      asked ← get_parameter_msg camera r
      done (record {
        message = some asked.0;
        packet = report_head s (be32_bytes 0 (be32_bytes 0 []));
        state = asked.1;
      }))
    else done (record { message = none; packet = report_head s (report_tail s now); state = r })

abbrev be32_at : List ℕ → ℕ
be32_at (a ∷ b ∷ c ∷ d ∷ _) = be32 a b c d
be32_at _ = 0

-- A round of `recv_report_thread`; `none` and no bytes are a read that fails.
unfoldable pub recv_report : Stats → Option (List ℕ) → ℕ → Outcome Stats
recv_report s none now = done s
recv_report s (some []) now = done s
recv_report s (some (b ∷ bytes)) now = do
  buffer ← access (store s.receive_buffer 0 (take 100 (b ∷ bytes)))
  middle ← access (load buffer 10 4)
  done (record s { receive_buffer = buffer; lsr = be32_at middle; sr_time = now })

-- The fields of a receiver report with one block, where RFC 3550 has them.
pub record Fields : Type 0 where
  pub version : ℕ
  pub count : ℕ
  pub type : ℕ
  pub words : ℕ
  pub source : ℕ
  pub cycles : ℕ
  pub highest : ℕ
  pub jitter : ℕ
  pub last_report : ℕ
  pub delay : ℕ

unfoldable pub get_fields : List ℕ → Option Fields
get_fields
      (b0 ∷ b1 ∷ b2 ∷ b3 ∷ b4 ∷ b5 ∷ b6 ∷ b7 ∷ b8 ∷ b9 ∷ b10 ∷ b11 ∷ b12 ∷ b13 ∷ b14 ∷ b15 ∷ b16
        ∷ b17 ∷ b18 ∷ b19 ∷ b20 ∷ b21 ∷ b22 ∷ b23 ∷ b24 ∷ b25 ∷ b26 ∷ b27 ∷ b28 ∷ b29 ∷ b30 ∷ b31
        ∷ []) =
    some (record {
      version = b0 / 64;
      count = b0 % 32;
      type = b1;
      words = be16 b2 b3;
      source = be32 b8 b9 b10 b11;
      cycles = be16 b16 b17;
      highest = be16 b18 b19;
      jitter = be32 b20 b21 b22 b23;
      last_report = be32 b24 b25 b26 b27;
      delay = be32 b28 b29 b30 b31;
    })
get_fields _ = none

-- The members are in the range of their types, and the version in its two bits.
pub record IsStats (s : Stats) : Type 0 where
  pub version_range : s.version < 4
  pub ssrc_range : s.ssrc < 2 ^ 32
  pub seq_range : s.seq < 2 ^ 16
  pub wrap_range : s.wrap_around_count < 2 ^ 16
  pub lsr_range : s.lsr < 2 ^ 32

be16_lem : (n : ℕ) → n < 2 ^ 16 → be16 (n / 256 % 256) (n % 256) ≡ n
be16_lem n h = omega arith

be32_lem :
    (n : ℕ)
    → n < 2 ^ 32
    → be32 (n / 2 ^ 16 / 256 % 256) (n / 2 ^ 16 % 256) (n % 2 ^ 16 / 256 % 256) (n % 2 ^ 16 % 256)
      ≡ n
be32_lem n h = omega arith

first_byte : (v : ℕ) → v < 4 → bit_or (v * 2 ^ 6 % 256) 1 ≡ v * 64 + 1
first_byte v h =
    let small : v * 2 ^ 6 % 256 ≡ v * 2 ^ 6 = omega arith in
    rw small (bit_or_disjoint 6 v 1 (omega arith))

-- A whole report is read back, field by field.
pub fields_lem :
    (s : Stats) (lsr dlsr : ℕ)
    → IsStats s
    → lsr < 2 ^ 32
    → dlsr < 2 ^ 32
    → get_fields (report_head s (be32_bytes lsr (be32_bytes dlsr [])))
      ≡ some (record {
        version = s.version;
        count = 1;
        type = 201;
        words = 7;
        source = s.ssrc;
        cycles = s.wrap_around_count;
        highest = s.seq;
        jitter = 80;
        last_report = lsr;
        delay = dlsr;
      })
unfolding get_fields report_head
fields_lem s lsr dlsr v h k =
    let top : (s.version * 64 + 1) / 64 ≡ s.version = omega (arith, v.version_range) in
    let low : (s.version * 64 + 1) % 32 ≡ 1 = omega (arith, v.version_range) in
    rw (
      first_byte s.version v.version_range,
      top,
      low,
      be32_lem s.ssrc v.ssrc_range,
      be16_lem s.wrap_around_count v.wrap_range,
      be16_lem s.seq v.seq_range,
      be32_lem lsr h,
      be32_lem dlsr k,
    )

-- Once a report of the camera has been received, at a time from 1 to now in milliseconds below 2 ^ 64, with
-- the members in the range of their types, a round sends no request, and the report that it sends, read
-- by the layout of RFC 3550, has the stream's source, the wraps counted and the highest number. In the
-- thread's first round its time stamp and delay are 0; in every other they are the camera's time stamp, and
-- the milliseconds since that report times 65536, modulo 2 ^ 32.
pub send_report-fields :
    (camera : Camera) (first : Bool) (s : Stats) (now : ℕ) (r : Rtsp)
    → IsStats s
    → 0 < s.sr_time
    → s.sr_time ≤ now
    → now < 2 ^ 64
    → (report : Report) × (send_report camera first s now r ≡ done report)
      × (report.message ≡ none)
      × (get_fields report.packet
          ≡ some (record {
            version = s.version;
            count = 1;
            type = 201;
            words = 7;
            source = s.ssrc;
            cycles = s.wrap_around_count;
            highest = s.seq;
            jitter = 80;
            last_report = if first then 0 else s.lsr;
            delay = if first then 0 else (now - s.sr_time) * 65536 % 2 ^ 32;
          }))
unfolding send_report report_tail
send_report-fields camera true s now r v some_time order small = (
  record { message = none; packet = report_head s (be32_bytes 0 (be32_bytes 0 [])); state = r },
  refl,
  refl,
  fields_lem s 0 0 v (omega arith) (omega arith),
)
send_report-fields camera false s now r v some_time order small =
    let received : (s.sr_time == 0) ≡ false = ground arith in
    let elapsed : (now + 2 ^ 64 - s.sr_time) % 2 ^ 64 ≡ now - s.sr_time = omega arith in
    let packet = report_head s (report_tail s now) in
    (
      record { message = none; packet = packet; state = r },
      rw received,
      refl,
      rw elapsed
          (fields_lem s s.lsr ((now - s.sr_time) * 65536 % 2 ^ 32) v v.lsr_range (omega arith)),
    )
