-- ===== src/Rtsp/Digest.antt =====
-- `calResponse`: the answer to the camera's challenge, put together in a buffer of 1024 bytes.
use vcu.Prelude.{
  ℕ, ◌+◌, ◌≤◌, ◌<◌, ◌≡◌, refl, ap, subst, ◌∙◌, inl, inr, Option, none, some, List, [], ◌∷◌, ◌++◌,
  append_assoc, append-nil,
}
use vcu.Prelude.{
  Bool, true, false, Bool-cases, leb, ◌&&◌, if◌then◌else◌, arith, length, take, joined,
  length-append,
}
use vcu.Prelude.Memory.{store, store_lem, store-none, zeros, length-zeros}
use vcu.Prelude.Memory
use vcu.Prelude.Outcome.{Outcome, done, overrun, access, ◌>>=◌}
use native.Mathlib.Decide.{dec_le}
use vcu.Rtsp.{Camera, Rtsp}

-- A buffer and the position behind what is written
abbrev pub Buffer : Type 0
Buffer = List ℕ × ℕ

-- A `memcpy` to the position, which is then moved behind it
unfoldable pub put : Buffer → List ℕ → Option Buffer
put b bytes = Memory.◌>>=◌ (store b.0 b.1 bytes) (λ block. some (block, b.1 + length bytes))

unfoldable pub puts : Buffer → List (List ℕ) → Option Buffer
puts b [] = some b
puts b (bytes ∷ more) = let rest = λ (b' : Buffer). puts b' more in Memory.◌>>=◌ (put b bytes) rest

abbrev pub md5_of : Camera → Buffer → List ℕ
md5_of camera b = camera.md5 (take b.1 b.0)

abbrev pub colon : List ℕ
colon = 58 ∷ []

-- `calResponse(cmd, user, passwd, url)`
unfoldable pub cal_response : Camera → List ℕ → Rtsp → Outcome (List ℕ × Rtsp)
cal_response camera cmd s = do
  one ← access (
      puts (zeros 1024, 0) ((camera.user ++ colon) ∷ (s.facts.realm ++ colon) ∷ camera.passwd ∷ []))
  two ← access (puts (one.0, 0) (cmd ∷ camera.url ∷ []))
  three ← access (
      puts (two.0, 0)
        (md5_of camera one ∷ colon ∷ (s.facts.nonce ++ colon) ∷ md5_of camera two ∷ []))
  done (md5_of camera three, record s { response = md5_of camera three })

-- What a buffer of 1024 bytes has in front of its position.
record Holds (b : Buffer) (bytes : List ℕ) : Type 0 where
  size : length b.0 ≡ 1024
  position : b.1 ≡ length bytes
  front : take b.1 b.0 ≡ bytes

restarted : (b : Buffer) (bytes : List ℕ) → Holds b bytes → Holds (b.0, 0) []
restarted b bytes h = record { size = h.size; position = refl; front = refl }

put_lem :
    (b : Buffer) (bytes more : List ℕ)
    → Holds b bytes
    → length bytes + length more ≤ 1024
    → (b' : Buffer) × (put b more ≡ some b') × Holds b' (bytes ++ more)
unfolding put
put_lem b bytes more h fits =
    let (out, stored, len, all, _) = store_lem b.0 b.1 more (omega (arith, h.size, h.position)) in
    (
      (out, b.1 + length more),
      rw stored,
      record {
        size = omega (arith, h.size);
        position = omega (arith, h.position, length-append bytes more);
        front = all ∙ ap (λ t. t ++ more) h.front;
      },
    )

put-none :
    (b : Buffer) (bytes more : List ℕ)
    → Holds b bytes
    → 1024 < length bytes + length more
    → put b more ≡ none
unfolding put
put-none b bytes more h over = rw (store-none b.0 b.1 more (omega (arith, h.size, h.position)))

puts_lem :
    (b : Buffer) (bytes : List ℕ) (more : List (List ℕ))
    → Holds b bytes
    → length bytes + length (joined more) ≤ 1024
    → (b' : Buffer) × (puts b more ≡ some b') × Holds b' (bytes ++ joined more)
unfolding puts
puts_lem b bytes [] h fits = (b, refl, rw (append-nil bytes) h)
puts_lem b bytes (first ∷ more) h fits =
    let whole = length-append first (joined more) in
    let (b1, one, h1) = put_lem b bytes first h (omega arith) in
    let (b2, others, h2) =
      puts_lem b1 (bytes ++ first) more h1 (omega (arith, length-append bytes first)) in
    (b2, rw (one, others), rw (← append_assoc bytes first (joined more)) h2)

puts-none :
    (b : Buffer) (bytes : List ℕ) (more : List (List ℕ))
    → Holds b bytes
    → 1024 < length bytes + length (joined more)
    → length bytes ≤ 1024
    → puts b more ≡ none
unfolding puts
puts-none b bytes [] h over inside = absurd (omega arith)
puts-none b bytes (first ∷ more) h over inside =
    let whole = length-append first (joined more) in
    elim (dec_le (length bytes + length first) 1024) [
      | no outside ↦ rw (put-none b bytes first h (omega arith))
      | yes within ↦
          let (b1, one, h1) = put_lem b bytes first h within in
          rw (
            one,
            puts-none b1 (bytes ++ first) more h1 (omega (arith, length-append bytes first))
                (omega (arith, length-append bytes first)),
          )
    ]

started : Holds (zeros 1024, 0) []
started = record { size = length-zeros 1024; position = refl; front = refl }

-- The three texts that are digested, and the answer, as RFC 2617 has it.
abbrev pub account : Camera → Rtsp → List ℕ
account camera s = camera.user ++ (colon ++ (s.facts.realm ++ (colon ++ camera.passwd)))

abbrev pub proof_of : Camera → List ℕ → Rtsp → List ℕ
proof_of camera cmd s =
    camera.md5 (account camera s)
    ++ (colon ++ (s.facts.nonce ++ (colon ++ camera.md5 (cmd ++ camera.url))))

abbrev fits : List ℕ → Bool
fits text = leb (length text) 1024

abbrev pub all_fit : Camera → List ℕ → Rtsp → Bool
all_fit camera cmd s =
    fits (account camera s) && (fits (cmd ++ camera.url) && fits (proof_of camera cmd s))

-- A text that fits is written whole; the digest is the text's.
written :
    (camera : Camera) (b : Buffer) (bytes text : List ℕ) (ms : List (List ℕ))
    → Holds b bytes
    → joined ms ≡ text
    → fits text ≡ true
    → (b' : Buffer) × (puts (b.0, 0) ms ≡ some b')
      × Holds b' text
      × (md5_of camera b' ≡ camera.md5 text)
written camera b bytes text ms h same fit =
    let (b', e, h') =
      puts_lem (b.0, 0) [] ms (restarted b bytes h) (ground (arith, ap length same)) in
    let held : Holds b' text = subst (Holds b') same h' in (b', e, held, ap camera.md5 held.front)

not_written :
    (b : Buffer) (bytes text : List ℕ) (ms : List (List ℕ))
    → Holds b bytes
    → joined ms ≡ text
    → fits text ≡ false
    → puts (b.0, 0) ms ≡ none
not_written b bytes text ms h same wide =
    puts-none (b.0, 0) [] ms (restarted b bytes h) (ground (arith, ap length same)) (omega arith)

account_parts :
    (camera : Camera) (s : Rtsp)
    → joined ((camera.user ++ colon) ∷ (s.facts.realm ++ colon) ∷ camera.passwd ∷ [])
      ≡ account camera s
account_parts camera s = rw (
  append_assoc camera.user colon ((s.facts.realm ++ colon) ++ (camera.passwd ++ [])),
  append_assoc s.facts.realm colon (camera.passwd ++ []),
  append-nil camera.passwd,
)

proof_parts :
    (camera : Camera) (cmd : List ℕ) (s : Rtsp)
    → joined (
        camera.md5 (account camera s)
        ∷ colon
        ∷ (s.facts.nonce ++ colon)
        ∷ camera.md5 (cmd ++ camera.url)
        ∷ [])
      ≡ proof_of camera cmd s
proof_parts camera cmd s = rw (
  append_assoc s.facts.nonce colon (camera.md5 (cmd ++ camera.url) ++ []),
  append-nil (camera.md5 (cmd ++ camera.url)),
)

-- `calResponse` answers a challenge by the digest of RFC 2617 of the account, the method and the address,
-- and keeps it, whenever the three texts that it digests fit the buffer; when one of them does not, it
-- writes behind the buffer.
pub cal_response_lem :
    (camera : Camera) (cmd : List ℕ) (s : Rtsp)
    → cal_response camera cmd s ≡ (
        if all_fit camera cmd s
        then done (
          camera.md5 (proof_of camera cmd s),
          record s { response = camera.md5 (proof_of camera cmd s) },
        )
        else overrun)
unfolding cal_response
cal_response_lem camera cmd s =
    let first = (camera.user ++ colon) ∷ (s.facts.realm ++ colon) ∷ camera.passwd ∷ [] in
    let second = cmd ∷ camera.url ∷ [] in
    let third =
      camera.md5 (account camera s)
      ∷ colon
      ∷ (s.facts.nonce ++ colon)
      ∷ camera.md5 (cmd ++ camera.url)
      ∷ [] in
    let uri : joined second ≡ cmd ++ camera.url = rw (append-nil camera.url) in
    let parts = proof_parts camera cmd s in
    let whole = account_parts camera s in
    elim (Bool-cases (fits (account camera s))) [
      | inr wide ↦
          rw (not_written (zeros 1024, 0) [] (account camera s) first started whole wide, wide)
      | inl fit1 ↦
          let (b1, one, h1, d1) =
            written camera (zeros 1024, 0) [] (account camera s) first started whole fit1 in
          elim (Bool-cases (fits (cmd ++ camera.url))) [
            | inr wide ↦
                rw (one, fit1, not_written b1 (account camera s) _ second h1 uri wide, wide)
            | inl fit2 ↦
                let (b2, two, h2, d2) = written camera b1 (account camera s) _ second h1 uri fit2 in
                elim (Bool-cases (fits (proof_of camera cmd s))) [
                  | inr wide ↦ rw (
                    one,
                    fit1,
                    two,
                    fit2,
                    d1,
                    d2,
                    not_written b2 (cmd ++ camera.url) _ third h2 parts wide,
                    wide,
                  )
                  | inl fit3 ↦
                      let (b3, three, h3, d3) =
                        written camera b2 (cmd ++ camera.url) _ third h2 parts fit3 in
                      rw (one, fit1, two, fit2, d1, d2, three, fit3, d3)
                ]
          ]
    ]
