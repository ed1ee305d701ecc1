-- ===== src/DataSend/Requests.antt =====
-- What a client may be sent is what it asked for since it connected.
use vcu.Prelude.{ℕ, ◌+◌, ◌*◌, ◌≡◌, refl, ap, ◌∙◌, inl, inr, some, none, Option, List, [], ◌∷◌}
use vcu.Prelude.{Bool, true, false, ◌||◌, ◌==◌, leb, Bool-cases, if◌then◌else◌, arith, length}
use vcu.Prelude.Memory.{load}
use vcu.Packets.{head_at, read_head, type_con, type_box, type_stream_param}
use vcu.DataSend.{DataSend, request, receive_request, requests, request_len, client, connected}

-- Whether a whole request of a type with `p` is read before the client is gone.
abbrev pub asked : (ℕ → Bool) → List (Option (List ℕ)) → Bool
asked p [] = false
asked p (none ∷ reads) = false
asked p (some [] ∷ reads) = false
asked p (some (b ∷ []) ∷ reads) = asked p reads
asked p (some (b ∷ type ∷ bytes) ∷ reads) =
    let rest = asked p reads in
    if length (b ∷ type ∷ bytes) == request_len then p type || rest else rest

abbrev pub is_box : ℕ → Bool
is_box type = type == type_box

abbrev pub is_request : ℕ → Bool
is_request type = (type == type_con) || (type == type_box)

or_assoc : (a b c : Bool) → ((a || b) || c) ≡ (a || (b || c))
or_assoc true b c = refl
or_assoc false b c = refl

or_false : (a : Bool) → a ≡ (a || false)
or_false true = refl
or_false false = refl

or_true : (a : Bool) → true ≡ (a || true)
or_true true = refl
or_true false = refl

-- The two members that say what the client may be sent, after `d'` from `d`.
record IsMore (box con : Bool) (d d' : DataSend) : Type 0 where
  more_box : d'.can_send_box ≡ (d.can_send_box || box)
  more_con : d'.can_send_con ≡ (d.can_send_con || con)

unmoved : (d : DataSend) → IsMore false false d d
unmoved d = record { more_box = or_false d.can_send_box; more_con = or_false d.can_send_con }

request_lem :
    (type time : ℕ) (d : DataSend)
    → IsMore (is_box type) (is_request type) d ((request type time d).1)
unfolding request
request_lem type time d = elim (Bool-cases (type == type_con)) [
  | inl con ↦
      let e : type ≡ type_con = ground arith in
      rw e (record { more_box = or_false d.can_send_box; more_con = or_true d.can_send_con })
  | inr other ↦ elim (Bool-cases (type == type_box)) [
    | inl box ↦
        rw (other, box)
          (record { more_box = or_true d.can_send_box; more_con = or_true d.can_send_con })
    | inr no_box ↦ elim (Bool-cases (type == type_stream_param)) [
      | inl stream ↦ rw (other, no_box, stream) (unmoved d)
      | inr unknown ↦ rw (other, no_box, unknown) (unmoved d)
    ]
  ]
]

read_type :
    (time : ℕ) (d : DataSend) (b type : ℕ) (bytes : List ℕ)
    → (length (b ∷ type ∷ bytes) == request_len) ≡ true
    → receive_request time d (some (b ∷ type ∷ bytes)) ≡ some (request type time d)
unfolding receive_request read_head head_at load
read_type time d b type bytes whole =
    let size : length (b ∷ type ∷ bytes) ≡ request_len = ground arith in
    let fits : leb 18 (length (b ∷ type ∷ bytes)) ≡ true = ground arith in
    let low : type + 0 * 256 ≡ type = omega arith in rw (whole, fits, low)

read_other :
    (time : ℕ) (d : DataSend) (b : ℕ) (bytes : List ℕ)
    → (length (b ∷ bytes) == request_len) ≡ false
    → receive_request time d (some (b ∷ bytes)) ≡ some (none, d)
unfolding receive_request
read_other time d b bytes part = rw part

then-IsMore :
    (box con box' con' : Bool) (d d' d'' : DataSend)
    → IsMore box con d d'
    → IsMore box' con' d' d''
    → IsMore (box || box') (con || con') d d''
then-IsMore box con box' con' d d' d'' one others = record {
  more_box = others.more_box ∙ ap (λ t. t || box') one.more_box ∙ or_assoc d.can_send_box box box';
  more_con = others.more_con ∙ ap (λ t. t || con') one.more_con ∙ or_assoc d.can_send_con con con';
}

requests_step :
    (time : ℕ) (d d' : DataSend) (answer read : Option (List ℕ)) (reads : List (Option (List ℕ)))
    → receive_request time d read ≡ some (answer, d')
    → (requests time d (read ∷ reads)).1 ≡ (requests time d' reads).1
unfolding requests
requests_step time d d' answer read reads e = rw (e, requests)

gone :
    (time : ℕ) (d : DataSend) (read : Option (List ℕ)) (reads : List (Option (List ℕ)))
    → receive_request time d read ≡ none
    → (requests time d (read ∷ reads)).1 ≡ d
unfolding requests
gone time d read reads e = rw (e, requests)

left :
    (time : ℕ) (d : DataSend)
    → (receive_request time d none ≡ none) × (receive_request time d (some []) ≡ none)
unfolding receive_request
left time d = (refl, refl)

nothing_read : (time : ℕ) (d : DataSend) → (requests time d []).1 ≡ d
unfolding requests
nothing_read time d = refl

requests_lem :
    (time : ℕ) (d : DataSend) (reads : List (Option (List ℕ)))
    → IsMore (asked is_box reads) (asked is_request reads) d ((requests time d reads).1)
requests_lem time d [] = rw (nothing_read time d) (unmoved d)
requests_lem time d (none ∷ reads) = rw (gone time d none reads (left time d).0) (unmoved d)
requests_lem time d (some [] ∷ reads) = rw (gone time d (some []) reads (left time d).1) (unmoved d)
requests_lem time d (some (b ∷ []) ∷ reads) =
    rw (requests_step time d d none (some (b ∷ [])) reads (read_other time d b [] refl))
      (requests_lem time d reads)
requests_lem time d (some (b ∷ type ∷ bytes) ∷ reads) =
    let rest = requests_lem time ((request type time d).1) reads in
    let same = requests_lem time d reads in
    elim (Bool-cases (length (b ∷ type ∷ bytes) == request_len)) [
      | inl whole ↦
          rw
            (
              whole,
              requests_step time d ((request type time d).1) ((request type time d).0)
                  (some (b ∷ type ∷ bytes)) reads (read_type time d b type bytes whole),
            )
            (then-IsMore (is_box type) (is_request type) _ _ d ((request type time d).1) _
              (request_lem type time d) rest)
      | inr part ↦
          rw
            (
              part,
              requests_step time d d none (some (b ∷ type ∷ bytes)) reads
                  (read_other time d b (type ∷ bytes) part),
            )
            same
    ]

-- Once a client has connected, it may be sent boxes exactly when one of the whole requests read since
-- asked for them, and results at all exactly when one asked for those or for boxes, whatever an earlier
-- client was allowed.
pub client-asked :
    (time : ℕ) (d : DataSend) (reads : List (Option (List ℕ)))
    → (((client time d reads).1).can_send_box ≡ asked is_box reads)
      × (((client time d reads).1).can_send_con ≡ asked is_request reads)
unfolding connected
client-asked time d reads =
    let more = requests_lem time (connected d) reads in (more.more_box, more.more_con)
