-- ===== src/Packets/Chunks.antt =====
-- The bytes of the packets' contents, put together again.
use vcu.Prelude.{
  ℕ, zero, suc, ◌+◌, ◌-◌, ◌*◌, ◌/◌, ◌%◌, ◌≤◌, ◌<◌, ◌≡◌, refl, sym, ap, ◌∙◌, inl, inr, some, List,
  [], ◌∷◌, ◌++◌,
}
use vcu.Prelude.{
  Bool-cases, ◌==◌, arith, length, take, drop, joined, take_enough, drop_enough, drop-drop,
  length-take, take-append-drop,
}
use vcu.Prelude.Memory.{load_lem, drop-take, take-take}
use vcu.Packets.{packet_num, chunk}
use native.Mathlib.Nat.{div-add-mod', suc-mul, mul-le-mul_right, mod-lt}

abbrev pub part : ℕ → ℕ → List ℕ → List ℕ
part per i bytes = take per (drop (i * per) bytes)

abbrev pub parts : ℕ → ℕ → ℕ → List ℕ → List (List ℕ)
parts per zero i bytes = []
parts per (suc m) i bytes = part per i bytes ∷ parts per m (suc i) bytes

even_split :
    (q per len : ℕ)
    → q * per ≡ len
    → 0 < per
    → 0 < len
    → (0 < q) × ((q - 1) * per < len) × (len ≤ q * per)
even_split zero per len e p l = absurd (omega arith)
even_split (suc q) per len e p l =
    let less : suc q - 1 ≡ q = omega arith in
    rw less (omega arith, omega (arith, suc-mul q per), omega arith)

odd_split :
    (q r per len : ℕ)
    → q * per + r ≡ len
    → 0 < r
    → r < per
    → (0 < q + 1) × ((q + 1 - 1) * per < len) × (len ≤ (q + 1) * per)
odd_split q r per len e p l =
    let less : q + 1 - 1 ≡ q = omega arith in
    let more : q + 1 ≡ suc q = omega arith in
    rw (less, more) (omega arith, omega arith, omega (arith, suc-mul q per))

-- The last packet starts inside the bytes, and the packets hold them all.
pub packet_num_lem :
    (len per : ℕ)
    → 0 < per
    → 0 < len
    → (0 < packet_num len per)
      × ((packet_num len per - 1) * per < len)
      × (len ≤ packet_num len per * per)
unfolding packet_num
packet_num_lem len per p l = elim (Bool-cases (len % per == 0)) [
  | inl even ↦
      let none_left : len % per ≡ 0 = ground arith in
      rw even (even_split (len / per) per len (omega (arith, div-add-mod' len per)) p l)
  | inr odd ↦
      let some_left : 0 < len % per = ground arith in
      rw odd
        (odd_split (len / per) (len % per) per len (div-add-mod' len per) some_left (mod-lt len p))
]

pub times_lt : (i n per : ℕ) → i < n → i * per + per ≤ n * per
times_lt i n per h = omega (arith, suc-mul i per, mul-le-mul_right per h)

last_times : (n per : ℕ) → 0 < n → n * per ≡ (n - 1) * per + per
last_times zero per h = absurd (omega arith)
last_times (suc n) per h = let e : suc n - 1 ≡ n = omega arith in rw e (suc-mul n per)

-- Packet `i` takes part `i` of the bytes.
pub chunk_lem :
    (src : List ℕ) (len per i : ℕ)
    → 0 < per
    → 0 < len
    → len ≤ length src
    → i < packet_num len per
    → chunk src len per (packet_num len per) i ≡ some (part per i (take len src))
unfolding chunk
chunk_lem src len per i p l h k =
    let n = packet_num len per in
    let (some_packet, starts, ends) = packet_num_lem len per p l in
    elim (Bool-cases (i == n - 1)) [
      | inl last ↦
          let at_end : i ≡ n - 1 = ground arith in
          let last_len = len - (n - 1) * per in
          let from : len - last_len ≡ (n - 1) * per = omega arith in
          let one_more : n * per ≡ (n - 1) * per + per = last_times n per some_packet in
          rw (last, at_end, from)
            (load_lem src _ _ (omega arith)
              ∙ ap some (
                  sym (
                    ap (take per) (drop-take ((n - 1) * per) len last_len src (omega arith))
                    ∙ take_enough per (take last_len (drop ((n - 1) * per) src))
                        (omega (arith, length-take last_len (drop ((n - 1) * per) src))))))
      | inr inner ↦
          let before : i < n - 1 = ground arith in
          let whole = times_lt i (n - 1) per before in
          rw inner (
            load_lem src _ _ (omega arith)
            ∙ ap some (
                sym (
                  ap (take per) (drop-take (i * per) len (len - i * per) src (omega arith))
                  ∙ take-take per (len - i * per) (drop (i * per) src) (omega arith))))
    ]

-- The parts from `i` on are the bytes from there on, when they reach their end.
pub joined-parts :
    (per m i : ℕ) (bytes : List ℕ)
    → length bytes ≤ (i + m) * per
    → joined (parts per m i bytes) ≡ drop (i * per) bytes
joined-parts per zero i bytes h =
    let e : i + 0 ≡ i = omega arith in sym (drop_enough (i * per) bytes (rw e at h))
joined-parts per (suc m) i bytes h =
    let e : i + suc m ≡ suc i + m = omega arith in
    let next : suc i * per ≡ i * per + per = suc-mul i per in
    ap (λ t. part per i bytes ++ t)
      (joined-parts per m (suc i) bytes (rw e at h) ∙ rw next (sym (drop-drop (i * per) per bytes)))
    ∙ take-append-drop per (drop (i * per) bytes)

take-drop_more {ℓ} :
    {A : Type ℓ} (p q : ℕ) (xs : List A) → take p xs ++ take q (drop p xs) ≡ take (p + q) xs
take-drop_more zero q xs = let e : 0 + q ≡ q = omega arith in rw e refl
take-drop_more (suc p) zero [] = let e : suc p + 0 ≡ suc p = omega arith in rw e refl
take-drop_more (suc p) (suc q) [] =
    let e : suc p + suc q ≡ suc (p + suc q) = omega arith in rw e refl
take-drop_more (suc p) q (x ∷ xs) =
    let e : suc p + q ≡ suc (p + q) = omega arith in rw e (ap (λ t. x ∷ t) (take-drop_more p q xs))

-- A part and `k` parts' bytes behind it are the bytes of one part more.
pub part_more :
    (per i k : ℕ) (bytes : List ℕ)
    → part per i bytes ++ take (k * per) (drop (suc i * per) bytes)
      ≡ take (suc k * per) (drop (i * per) bytes)
part_more per i k bytes =
    let next : suc i * per ≡ i * per + per = suc-mul i per in
    let more : suc k * per ≡ per + k * per = omega (arith, suc-mul k per) in
    rw (next, ← drop-drop (i * per) per bytes, more)
      (take-drop_more per (k * per) (drop (i * per) bytes))
