-- ===== src/DataControl/Ledger.antt =====
-- Every picture that was put in is in the queue, or left it once, in order.
use vcu.Prelude.{
  ◌-◌, ◌≤◌, ◌≡◌, refl, sym, ap, ◌∙◌, inl, inr, List, [], ◌∷◌, ◌++◌, map, append_assoc, append-nil,
}
use vcu.Prelude.{Bool-cases, ltb, arith, length, length-append}
use vcu.DataControl.{
  RgbData, Gone, freed, handed, Queue, free_front, set_rgb_data, clear_queue, clear_rgb_data,
  get_rgb_data, Call, set_call, get_call, clear_call, call, calls, empty_queue,
}

abbrev pub picture : Gone → RgbData
picture (freed p) = p
picture (handed p) = p

-- The pictures put in, in order.
abbrev pub put : List Call → List RgbData
put [] = []
put (set_call p ∷ cs) = p ∷ put cs
put (get_call ∷ cs) = put cs
put (clear_call ∷ cs) = put cs

-- The pictures that left the queue, and those in it.
abbrev pub ledger : Queue → List RgbData
ledger q = map picture q.gone ++ q.rgb_queue

abbrev Keeps : (Queue → Queue) → List RgbData → Queue → Type 0
Keeps f new q = (ledger (f q) ≡ ledger q ++ new) × (length (f q).rgb_queue ≤ 11)

map-append : (gs hs : List Gone) → map picture (gs ++ hs) ≡ map picture gs ++ map picture hs
map-append [] hs = refl
map-append (g ∷ gs) hs = ap (λ t. picture g ∷ t) (map-append gs hs)

-- A picture that leaves moves from the one list to the other.
move_front :
    (gs : List Gone) (g : Gone) (rest : List RgbData)
    → map picture (gs ++ (g ∷ [])) ++ rest ≡ map picture gs ++ (picture g ∷ rest)
move_front gs g rest =
    ap (λ t. t ++ rest) (map-append gs (g ∷ []))
    ∙ append_assoc (map picture gs) (picture g ∷ []) rest

free_front_lem :
    (rest : List RgbData) (gs : List Gone)
    → let q : Queue = record { rgb_queue = rest; gone = gs } in
      (ledger (free_front q) ≡ ledger q) × (length (free_front q).rgb_queue ≡ length rest - 1)
unfolding free_front
free_front_lem [] gs = (refl, omega arith)
free_front_lem (p ∷ rest) gs = (move_front gs (freed p) rest, omega arith)

set-Keeps : (p : RgbData) (q : Queue) → length q.rgb_queue ≤ 11 → Keeps (set_rgb_data p) (p ∷ []) q
unfolding set_rgb_data
set-Keeps p q h = elim (Bool-cases (ltb 10 (length q.rgb_queue))) [
  | inl full ↦
      let (same, size) = free_front_lem q.rgb_queue q.gone in
      rw full (
        sym (append_assoc _ _ (p ∷ [])) ∙ ap (λ t. t ++ (p ∷ [])) same,
        omega (arith, length-append (free_front q).rgb_queue (p ∷ [])),
      )
  | inr room ↦ rw room (
    sym (append_assoc _ q.rgb_queue (p ∷ [])),
    ground (arith, length-append q.rgb_queue (p ∷ [])),
  )
]

clear_queue_lem :
    (rest : List RgbData) (gs : List Gone)
    → map picture (clear_queue rest gs) ≡ map picture gs ++ rest
unfolding clear_queue
clear_queue_lem [] gs = sym (append-nil _)
clear_queue_lem (p ∷ rest) gs = clear_queue_lem rest _ ∙ move_front gs (freed p) rest

get_lem :
    (rest : List RgbData) (gs : List Gone)
    → length rest ≤ 11
    → Keeps get_rgb_data [] (record { rgb_queue = rest; gone = gs })
unfolding get_rgb_data
get_lem [] gs h = (sym (append-nil _), h)
get_lem (p ∷ rest) gs h = (move_front gs (handed p) rest ∙ sym (append-nil _), omega arith)

get-Keeps : (q : Queue) → length q.rgb_queue ≤ 11 → Keeps get_rgb_data [] q
get-Keeps q h = get_lem q.rgb_queue q.gone h

call-Keeps : (c : Call) (q : Queue) → length q.rgb_queue ≤ 11 → Keeps (call c) (put (c ∷ [])) q
unfolding call clear_rgb_data
call-Keeps (set_call p) q h = set-Keeps p q h
call-Keeps get_call q h = get-Keeps q h
call-Keeps clear_call q h =
    (append-nil _ ∙ clear_queue_lem q.rgb_queue q.gone ∙ sym (append-nil _), omega arith)

put-join : (c : Call) (cs : List Call) → put (c ∷ []) ++ put cs ≡ put (c ∷ cs)
put-join (set_call p) cs = refl
put-join get_call cs = refl
put-join clear_call cs = refl

calls-Keeps : (cs : List Call) (q : Queue) → length q.rgb_queue ≤ 11 → Keeps (calls cs) (put cs) q
unfolding calls
calls-Keeps [] q h = (sym (append-nil _), h)
calls-Keeps (c ∷ cs) q h =
    let (now, small) = call-Keeps c q h in
    let (later, end) = calls-Keeps cs (call c q) small in
    (
      later
          ∙ ap (λ t. t ++ put cs) now
          ∙ append_assoc (ledger q) (put (c ∷ [])) (put cs)
          ∙ ap (λ t. ledger q ++ t) (put-join c cs),
      end,
    )

-- Whatever calls are made, in whatever order, on the queue that is empty at first: the pictures that left it,
-- freed or handed out, followed by those still in it are exactly the pictures put in, each once and in
-- order, and the queue never holds more than 11.
pub calls_lem :
    (cs : List Call)
    → (map picture (calls cs empty_queue).gone ++ (calls cs empty_queue).rgb_queue ≡ put cs)
      × (length (calls cs empty_queue).rgb_queue ≤ 11)
calls_lem cs = calls-Keeps cs empty_queue (omega arith)
