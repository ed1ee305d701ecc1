-- ===== src/FpgaControl/Matched.antt =====
-- Results are matched with their pictures.
use vcu.Prelude.{
  ℕ, suc, ◌+◌, ◌%◌, ◌^◌, ◌≤◌, ◌<◌, ◌≡◌, ◌≢◌, refl, sym, ap, ◌∙◌, Option, none, some, List, [], ◌∷◌,
  ◌++◌, append_assoc, append-nil,
}
use vcu.Prelude.{arith, length, length-append}
use vcu.FpgaControl.{
  Fpga, Step, pushes, writes, pops, gives, Reach, starts, goes_on, slot_of, next_index, init_index,
  pop_input,
}

-- The index `n` behind another
abbrev pub plus : ℕ → ℕ → ℕ
plus i n = (i + n) % 2 ^ 32

module _ {ℓ} {A : Type ℓ} where
  abbrev pub as_list : Option A → List A
  as_list none = []
  as_list (some x) = x ∷ []

  -- Pictures with the slots of an index and those behind it
  abbrev pub slotted : ℕ → ℕ → List A → List (A × ℕ)
  slotted start i [] = []
  slotted start i (x ∷ xs) = (x, slot_of start i) ∷ slotted start (next_index i) xs

  slotted-append :
      (start i : ℕ) (xs : List A) (x : A)
      → i < 2 ^ 32
      → slotted start i (xs ++ (x ∷ []))
        ≡ slotted start i xs ++ ((x, slot_of start (plus i (length xs))) ∷ [])
  slotted-append start i [] x h =
      let e : plus i 0 ≡ i = omega arith in ap (λ k. (x, slot_of start k) ∷ []) (sym e)
  slotted-append start i (y ∷ xs) x h =
      let e : plus (next_index i) (length xs) ≡ plus i (suc (length xs)) = omega arith in
      ap (λ t. (y, slot_of start i) ∷ t)
        (slotted-append start (next_index i) xs x (omega arith)
          ∙ ap (λ k. slotted start (next_index i) xs ++ ((x, slot_of start k) ∷ [])) e)

  -- The pictures written and not popped are `ready`; `begun` is behind them in the queue.
  record IsMatched (start : ℕ) (s : Fpga A) : Type ℓ where
    ready : List A
    same_start : s.start_index ≡ start
    queued : s.que_input ≡ ready ++ as_list s.writing
    counted : s.sem_input ≡ length ready
    permits : s.sem_free + length s.que_input ≡ 2
    small : s.output_index < 2 ^ 32
    index : s.input_index ≡ plus s.output_index (length (as_list s.reading ++ ready))
    matched : s.written ≡ s.given ++ slotted start s.output_index (as_list s.reading ++ ready)

  init-IsMatched : (start : ℕ) → IsMatched start (init_index start)
  init-IsMatched start = record {
    ready = [];
    same_start = refl;
    queued = refl;
    counted = refl;
    permits = refl;
    small = omega arith;
    index = refl;
    matched = refl;
  }

  abbrev head_of : A → List A → A
  head_of x [] = x
  head_of x (y ∷ ys) = y

  abbrev tail_of : List A → List A
  tail_of [] = []
  tail_of (y ∷ ys) = ys

  -- A pop takes the first of the pictures that are ready.
  popped :
      (start : ℕ) (s : Fpga A) (x : A) (others : List A) (inputs : ℕ) (ready : List A)
      → s.start_index ≡ start
      → s.que_input ≡ ready ++ as_list s.writing
      → s.sem_input ≡ length ready
      → s.sem_free + length s.que_input ≡ 2
      → s.output_index < 2 ^ 32
      → s.input_index ≡ plus s.output_index (length ready)
      → s.written ≡ s.given ++ slotted start s.output_index ready
      → s.sem_input ≡ suc inputs
      → s.que_input ≡ x ∷ others
      → IsMatched start (pop_input x others inputs s)
  popped start s x others inputs [] same queued counted permits small index matched waiting front =
      absurd (omega arith)
  popped start s x others inputs (y ∷ r) same queued counted permits small index matched waiting
        front =
      let both : x ∷ others ≡ y ∷ (r ++ as_list s.writing) = sym front ∙ queued in
      record {
        ready = r;
        same_start = same;
        queued = ap tail_of both;
        counted = omega arith;
        permits = omega (arith, ap length front);
        small = small;
        index = index;
        matched =
            matched
            ∙ ap (λ z. s.given ++ slotted start s.output_index (z ∷ r)) (sym (ap (head_of x) both));
      }

  step-IsMatched : (start : ℕ) (s s' : Fpga A) → IsMatched start s → Step s s' → IsMatched start s'
  step-IsMatched start _ _ m (pushes s x permits free idle) = record {
    ready = m.ready;
    same_start = m.same_start;
    queued = ap (λ q. q ++ (x ∷ [])) (m.queued ∙ rw (idle, append-nil m.ready) refl);
    counted = m.counted;
    permits = omega (arith, m.permits, free, length-append s.que_input (x ∷ []));
    small = m.small;
    index = m.index;
    matched = m.matched;
  }
  step-IsMatched start _ _ m (writes s x busy) =
      let front = as_list s.reading ++ m.ready in
      let same : as_list s.reading ++ (m.ready ++ (x ∷ [])) ≡ front ++ (x ∷ []) =
        sym (append_assoc (as_list s.reading) m.ready (x ∷ [])) in
      let size : length (front ++ (x ∷ [])) ≡ length front + 1 = length-append front (x ∷ []) in
      record {
        ready = m.ready ++ (x ∷ []);
        same_start = m.same_start;
        queued = m.queued ∙ rw busy refl ∙ sym (append-nil (m.ready ++ (x ∷ [])));
        counted = omega (arith, m.counted, length-append m.ready (x ∷ []));
        permits = m.permits;
        small = m.small;
        index = rw same (omega (arith, m.index, size, m.small));
        matched =
            rw (same, m.same_start, m.index)
              (ap (λ w. w ++ ((x, slot_of start (plus s.output_index (length front))) ∷ []))
                  m.matched
                ∙ append_assoc s.given (slotted start s.output_index front) _
                ∙ ap (λ t. s.given ++ t)
                    (sym (slotted-append start s.output_index front x m.small)));
      }
  step-IsMatched start _ _ m (pops s x others inputs some_input idle front) =
      popped start s x others inputs m.ready m.same_start m.queued m.counted m.permits m.small
        (rw idle at m.index) (rw idle at m.matched) some_input front
  step-IsMatched start _ _ m (gives s x busy) = record {
    ready = m.ready;
    same_start = m.same_start;
    queued = m.queued;
    counted = m.counted;
    permits = m.permits;
    small = omega arith;
    index = (let i = rw busy at m.index in omega (arith, i, m.small));
    matched =
        (rw busy at m.matched)
        ∙ rw m.same_start (sym (append_assoc s.given ((x, slot_of start s.output_index) ∷ []) _));
  }

  Reach-IsMatched : (start : ℕ) (s : Fpga A) → Reach start s → IsMatched start s
  Reach-IsMatched start _ starts = init-IsMatched start
  Reach-IsMatched start _ (goes_on {s = s} {s' = s'} r step) =
      step-IsMatched start s s' (Reach-IsMatched start s r) step

  at_most_one : (o : Option A) → length (as_list o) ≤ 1
  at_most_one none = omega arith
  at_most_one (some x) = omega arith

  -- In whatever order the steps of `input` and of `output_thread` fall: the callback has got the
  -- results of the pictures in the order in which they were written, each from the slot with the number
  -- of the one to which its picture was written; the pictures written and not given yet are at most
  -- three with the one being written, fewer than the eight slots, and slots of fewer than eight
  -- indexes in a row differ; and the queue is never empty when `sem_input` lets the thread pop it.
  pub results-matched :
      (start : ℕ) (s : Fpga A) (i j : ℕ)
      → start < 2 ^ 32
      → i < j
      → j < 8
      → Reach start s
      → (pending : List A) × (s.written ≡ s.given ++ slotted start s.output_index pending)
        × (length pending + length (as_list s.writing) ≤ 3)
        × (slot_of start (plus s.output_index i) ≢ slot_of start (plus s.output_index j))
        × (s.sem_input ≤ length s.que_input)
  results-matched start s i j h k l r =
      let m = Reach-IsMatched start s r in
      let all = ap length m.queued in
      let sum = length-append m.ready (as_list s.writing) in
      (
        as_list s.reading ++ m.ready,
        m.matched,
        omega (
          arith,
          all,
          sum,
          m.permits,
          at_most_one s.reading,
          length-append (as_list s.reading) m.ready,
        ),
        (λ e. absurd (omega arith)),
        omega (arith, all, sum, m.counted),
      )
