-- ===== src/Rtsp/Numbered.antt =====
-- The messages of a login are numbered one after the other.
use vcu.Prelude.{ℕ, suc, ◌+◌, ◌≡◌, refl, sym, ap, subst, ◌∙◌, List, [], ◌∷◌, ◌++◌}
use vcu.Prelude.{Bool, true, false, not, ◌&&◌, if◌then◌else◌, arith, length, length-append, ltb}
use vcu.Prelude.Outcome.{Outcome, done, aborted, overrun, check, ◌>>=◌, ◌>>◌}
use vcu.Rtsp.{Camera, Facts, Rtsp}
use vcu.Rtsp.Digest.{cal_response, cal_response_lem, all_fit}
use vcu.Rtsp.Parser.{parser}
use vcu.Rtsp.Texts.{
  chars, crlf, user_agent_msg, transport_msg, opt_msg_1, describe_msg_1, setup_msg_1,
}
use vcu.Rtsp.Messages.{author_str, request_str, get_opt_msg, get_describe_msg, get_setup_msg}
use vcu.Rtsp.Login.{Talk, receive_tcp, ask, certify, describe, login}

-- What holds of the result, if there is one.
abbrev Ends : {A : Type 0} → (A → Type 0) → Outcome A → Type 0
Ends P (done a) = P a
Ends P aborted = Unit
Ends P overrun = Unit

then_lem :
    {A B : Type 0} (P : A → Type 0) (Q : B → Type 0) (m : Outcome A) (f : A → Outcome B)
    → Ends P m
    → ((a : A) → P a → Ends Q (f a))
    → Ends Q (m >>= f)
then_lem P Q (done a) f h k = k a h
then_lem P Q aborted f h k = tt
then_lem P Q overrun f h k = tt

check_lem :
    {B : Type 0} (Q : B → Type 0) (b : Bool) (m : Outcome B) → Ends Q m → Ends Q (check b >> m)
check_lem Q true m h = h
check_lem Q false m h = tt

if_lem :
    {A : Type 0} (P : A → Type 0) (b : Bool) (m k : Outcome A)
    → Ends P m
    → Ends P k
    → Ends P (if b then m else k)
if_lem P true m k h h' = h
if_lem P false m k h h' = h'

-- The messages have the numbers from `n` on in their second lines.
abbrev pub IsNumbered : Camera → ℕ → List (List ℕ) → Type 0
IsNumbered camera n [] = Unit
IsNumbered camera n (message ∷ messages) =
    ((line : List ℕ) × (rest : List ℕ) × (message ≡ request_str camera line n rest))
    × IsNumbered camera (suc n) messages

IsNumbered-append :
    (camera : Camera) (n : ℕ) (messages : List (List ℕ)) (line rest : List ℕ)
    → IsNumbered camera n messages
    → IsNumbered camera n (messages ++ (request_str camera line (n + length messages) rest ∷ []))
IsNumbered-append camera n [] line rest h =
    let e : n + 0 ≡ n = omega arith in
    ((line, rest, ap (λ k. request_str camera line k rest) e), tt)
IsNumbered-append camera n (message ∷ messages) line rest h =
    let e : n + suc (length messages) ≡ suc n + length messages = omega arith in
    (
      h.0,
      subst (λ k. IsNumbered camera (suc n) (messages ++ (request_str camera line k rest ∷ [])))
          (sym e) (IsNumbered-append camera (suc n) messages line rest h.1),
    )

-- A talk whose messages are numbered from `n` on, up to the next number.
record IsTalk (camera : Camera) (n : ℕ) (t : Talk) : Type 0 where
  numbered : IsNumbered camera n t.sent
  next : t.state.seq_num ≡ n + length t.sent

-- A request with the next number.
record IsRequest (camera : Camera) (s : Rtsp) (m : List ℕ × Rtsp) : Type 0 where
  line : List ℕ
  rest : List ℕ
  text : m.0 ≡ request_str camera line s.seq_num rest
  counted : (m.1).seq_num ≡ suc s.seq_num

cal_response-seq_num :
    (camera : Camera) (cmd : List ℕ) (s : Rtsp)
    → Ends (λ (r : List ℕ × Rtsp). (r.1).seq_num ≡ s.seq_num) (cal_response camera cmd s)
cal_response-seq_num camera cmd s =
    subst (Ends (λ (r : List ℕ × Rtsp). (r.1).seq_num ≡ s.seq_num))
      (sym (cal_response_lem camera cmd s)) (if_lem _ (all_fit camera cmd s) _ overrun refl tt)

request_str-IsRequest :
    (camera : Camera) (s s' : Rtsp) (line rest : List ℕ)
    → s'.seq_num ≡ suc s.seq_num
    → IsRequest camera s (request_str camera line s.seq_num rest, s')
request_str-IsRequest camera s s' line rest e = record {
  line = line;
  rest = rest;
  text = refl;
  counted = e;
}

-- A request that has the account answers the challenge first.
with_response :
    (camera : Camera) (s : Rtsp) (line : List ℕ) (rest : Rtsp → List ℕ)
    (m : Outcome (List ℕ × Rtsp))
    → Ends (λ (r : List ℕ × Rtsp). (r.1).seq_num ≡ suc s.seq_num) m
    → Ends
        (IsRequest camera s)
        (m >>= λ told. done (request_str camera line s.seq_num (rest told.1), told.1))
with_response camera s line rest (done told) e =
    request_str-IsRequest camera s told.1 line (rest told.1) e
with_response camera s line rest aborted e = tt
with_response camera s line rest overrun e = tt

checked_response :
    (camera : Camera) (s : Rtsp) (line : List ℕ) (rest : Rtsp → List ℕ) (b : Bool)
    (m : Outcome (List ℕ × Rtsp))
    → Ends (λ (r : List ℕ × Rtsp). (r.1).seq_num ≡ suc s.seq_num) m
    → Ends
        (IsRequest camera s)
        (m >>= λ told. check b >> done (request_str camera line s.seq_num (rest told.1), told.1))
checked_response camera s line rest true (done told) e =
    request_str-IsRequest camera s told.1 line (rest told.1) e
checked_response camera s line rest false (done told) e = tt
checked_response camera s line rest b aborted e = tt
checked_response camera s line rest b overrun e = tt

get_opt_msg-IsRequest :
    (camera : Camera) (author : Bool) (s : Rtsp)
    → Ends (IsRequest camera s) (get_opt_msg camera author s)
unfolding get_opt_msg
get_opt_msg-IsRequest camera author s =
    if_lem (IsRequest camera s) author _ _
      (with_response camera s (opt_msg_1 ++ camera.url)
        (λ s'. author_str camera s' ++ (user_agent_msg ++ crlf)) _
        (cal_response-seq_num camera _ _))
      (request_str-IsRequest camera s _ (opt_msg_1 ++ camera.url) (user_agent_msg ++ crlf) refl)

get_describe_msg-IsRequest :
    (camera : Camera) (author : Bool) (s : Rtsp)
    → Ends (IsRequest camera s) (get_describe_msg camera author s)
unfolding get_describe_msg
get_describe_msg-IsRequest camera author s =
    if_lem (IsRequest camera s) author _ _
      (with_response camera s (describe_msg_1 ++ camera.url)
        (λ s'. author_str camera s' ++ (user_agent_msg ++ crlf)) _
        (cal_response-seq_num camera _ _))
      (request_str-IsRequest camera s _ (describe_msg_1 ++ camera.url) (user_agent_msg ++ crlf)
        refl)

get_setup_msg-IsRequest :
    (camera : Camera) (s : Rtsp) → Ends (IsRequest camera s) (get_setup_msg camera s)
unfolding get_setup_msg
get_setup_msg-IsRequest camera s =
    checked_response camera s (setup_msg_1 ++ (camera.url ++ (chars "/" ++ s.facts.track)))
      (λ s'. author_str camera s' ++ (user_agent_msg ++ (transport_msg ++ crlf))) _ _
      (cal_response-seq_num camera _ _)

receive_tcp-seq_num :
    (camera : Camera) (s : Rtsp) (bytes : List ℕ)
    → Ends (λ (s' : Rtsp). s'.seq_num ≡ s.seq_num) (receive_tcp camera s bytes)
unfolding receive_tcp
receive_tcp-seq_num camera s bytes =
    if_lem _ (ltb 2 (length bytes)) _ _ (told s (parser camera s.facts bytes)) refl
  where
    told :
        (s : Rtsp) (m : Outcome Facts)
        → Ends
            (λ (s' : Rtsp). s'.seq_num ≡ s.seq_num)
            (m >>= λ told. done (record s { facts = told }))
    told s (done f) = refl
    told s aborted = tt
    told s overrun = tt

asked :
    (camera : Camera) (n : ℕ) (t : Talk) (m : List ℕ × Rtsp) (b : Bool) (r : Outcome Rtsp)
    → IsTalk camera n t
    → IsRequest camera t.state m
    → Ends (λ (s' : Rtsp). s'.seq_num ≡ (m.1).seq_num) r
    → Ends
        (IsTalk camera n)
        (check b >> (r >>= λ s. done (record { state = s; sent = t.sent ++ (m.0 ∷ []) })))
asked camera n t m false r h q e = tt
asked camera n t m true aborted h q e = tt
asked camera n t m true overrun h q e = tt
asked camera n t m true (done s) h q e = record {
  numbered =
      subst (λ x. IsNumbered camera n (t.sent ++ (x ∷ [])))
        (sym (q.text ∙ ap (λ k. request_str camera q.line k q.rest) h.next))
        (IsNumbered-append camera n t.sent q.line q.rest h.numbered);
  next = omega (arith, e, q.counted, h.next, length-append t.sent (m.0 ∷ []));
}

ask-IsTalk :
    (camera : Camera) (n : ℕ) (t : Talk) (m : List ℕ × Rtsp)
    → IsTalk camera n t
    → IsRequest camera t.state m
    → Ends (IsTalk camera n) (ask camera t.sent m)
unfolding ask
ask-IsTalk camera n t m h r =
    asked camera n t m (camera.send_ok (length t.sent))
      (receive_tcp camera m.1 (camera.answer (length t.sent))) h r
      (receive_tcp-seq_num camera m.1 (camera.answer (length t.sent)))

-- A request made and asked.
made :
    (camera : Camera) (n : ℕ) (t : Talk) (m : Outcome (List ℕ × Rtsp))
    → IsTalk camera n t
    → Ends (IsRequest camera t.state) m
    → Ends (IsTalk camera n) (m >>= ask camera t.sent)
made camera n t m h r =
    then_lem (IsRequest camera t.state) (IsTalk camera n) m (ask camera t.sent) r
      (λ message q. ask-IsTalk camera n t message h q)

certify-IsTalk :
    (camera : Camera) (n : ℕ) (t : Talk)
    → IsTalk camera n t
    → Ends (IsTalk camera n) (certify camera t)
unfolding certify
certify-IsTalk camera n t h =
    if_lem (IsTalk camera n) t.state.facts.need_certify _ _
      (made camera n t _ h (get_opt_msg-IsRequest camera true t.state)) h

describe-IsTalk :
    (camera : Camera) (n : ℕ) (t : Talk)
    → IsTalk camera n t
    → Ends (IsTalk camera n) (describe camera t)
unfolding describe
describe-IsTalk camera n t h =
    then_lem (IsTalk camera n) (IsTalk camera n)
      (get_describe_msg camera t.state.facts.need_certify t.state >>= ask camera t.sent) _
      (made camera n t _ h (get_describe_msg-IsRequest camera _ t.state))
      (λ told h'.
        if_lem (IsTalk camera n) (told.state.facts.need_certify && not t.state.facts.need_certify) _
          _ (made camera n told _ h' (get_describe_msg-IsRequest camera true told.state)) h')

login_ends : (camera : Camera) (s : Rtsp) → Ends (IsTalk camera s.seq_num) (login camera s)
unfolding login
login_ends camera s =
    let n = s.seq_num in
    then_lem (IsTalk camera n) (IsTalk camera n) _ _
      (made camera n (record { state = s; sent = [] }) _
        (record { numbered = tt; next = omega arith }) (get_opt_msg-IsRequest camera false s))
      (λ t1 h1.
        then_lem (IsTalk camera n) (IsTalk camera n) (certify camera t1) _
          (certify-IsTalk camera n t1 h1)
          (λ t2 h2.
            then_lem (IsTalk camera n) (IsTalk camera n) (describe camera t2) _
              (describe-IsTalk camera n t2 h2)
              (λ t3 h3.
                made camera n t3 (get_setup_msg camera t3.state) h3
                  (get_setup_msg-IsRequest camera t3.state))))

-- Whatever the camera answers, when a login ends, every message sent has the `CSeq` line of its place
-- in the conversation as its second line: the first has the number that the login began with, each of
-- the others one more than the message in front of it, and the number kept is the next.
pub login-IsNumbered :
    (camera : Camera) (s : Rtsp) (t : Talk)
    → login camera s ≡ done t
    → IsNumbered camera s.seq_num t.sent × (t.state.seq_num ≡ s.seq_num + length t.sent)
login-IsNumbered camera s t e =
    let h = subst (Ends (IsTalk camera s.seq_num)) e (login_ends camera s) in (h.numbered, h.next)
