-- ===== src/RtpDataManager/Reorder/Lag.antt =====
-- The two threads around the buffer, in any interleaving.
use vcu.Prelude.{ℕ, ◌+◌, ◌-◌, ◌≤◌, ◌<◌, ◌≡◌, ◌∙◌, List, Option, some, none}
use vcu.Prelude.{
  ◌%◌, subst, ap, inl, inr, Option-cases, get_or, arith, length, length-set, length-replicate,
  false,
}
use vcu.Prelude.Outcome.{done, overrun}
use vcu.RtpDataManager.Reorder.{
  Buffer, empty_buffer, buffer_size, RtpPacket, no_packet, file, receive, take_packet, packet_seq,
}

-- The buffer, and the parser thread's `index`: its rounds so far.
pub record Threads : Type 0 where
  pub buffer : Buffer
  pub parsed : ℕ

abbrev pub start : Threads
start = record { buffer = empty_buffer; parsed = 0 }

-- A round of one of the threads; the parser's waits for a post.
pub data Step : Threads → Threads → Type 0 where
  received :
      (t : Threads) (pdata : Option (List ℕ)) (b : Buffer)
      → receive t.buffer pdata ≡ done b
      → Step t (record t { buffer = b })
  taken :
      (t : Threads)
      → 0 < t.buffer.posts
      → Step t (record { buffer = (take_packet t.buffer t.parsed).1; parsed = t.parsed + 1 })

pub data Reach : Threads → Type 0 where
  here : Reach start
  next : {t u : Threads} → Reach t → Step t u → Reach u

pub record IsPaced (t : Threads) : Type 0 where
  pub slots : length t.buffer.vec_rtp ≡ buffer_size
  pub paced : t.buffer.posts + t.parsed ≡ t.buffer.index - 30

file-IsPaced :
    (b : Buffer) (parsed seq : ℕ) (pdata : List ℕ)
    → IsPaced (record { buffer = b; parsed = parsed })
    → IsPaced (record { buffer = file b seq pdata; parsed = parsed })
unfolding file
file-IsPaced b parsed seq pdata h = record {
  slots = length-set b.vec_rtp _ _ ∙ h.slots;
  paced = ground arith;
}

done-injective {ℓ} : {A : Type ℓ} (a b : A) → done a ≡ done b → a ≡ b
done-injective a b e = ap (λ r. elim r [ done x ↦ x | _ ↦ a ]) e

receive-IsPaced :
    (b b' : Buffer) (parsed : ℕ) (pdata : Option (List ℕ))
    → receive b pdata ≡ done b'
    → IsPaced (record { buffer = b; parsed = parsed })
    → IsPaced (record { buffer = b'; parsed = parsed })
unfolding receive
receive-IsPaced b b' parsed none e h =
    subst (λ c. IsPaced (record { buffer = c; parsed = parsed })) (done-injective b b' e) h
receive-IsPaced b b' parsed (some pdata) e h = elim (Option-cases (packet_seq pdata)) [
  | inl short ↦ let e' : overrun ≡ done b' = rw short at e in cc
  | inr (seq, found) ↦
      subst (λ c. IsPaced (record { buffer = c; parsed = parsed }))
        (done-injective (file b seq pdata) b' (rw found at e)) (file-IsPaced b parsed seq pdata h)
]

take-IsPaced :
    (t : Threads)
    → 0 < t.buffer.posts
    → IsPaced t
    → IsPaced (record { buffer = (take_packet t.buffer t.parsed).1; parsed = t.parsed + 1 })
unfolding take_packet
take-IsPaced t h p = record {
  slots = ground (arith, length-set t.buffer.vec_rtp (t.parsed % buffer_size) emptied);
  paced = ground arith;
}
  where
    emptied : RtpPacket
    emptied = record (get_or t.buffer.vec_rtp (t.parsed % buffer_size) no_packet) {
      is_valid = false;
    }

-- In every state that the two threads reach, however their rounds interleave, the slots are as many
-- as at the start, and the rounds that the parser has made or has been let to make are as many as
-- the packets received behind the thirtieth.
pub Reach-IsPaced : (t : Threads) → Reach t → IsPaced t
unfolding empty_buffer
Reach-IsPaced _ here = start-IsPaced
  where
    start-IsPaced : IsPaced start
    start-IsPaced = record { slots = length-replicate buffer_size no_packet; paced = omega arith }
Reach-IsPaced _ (next r (received t pdata b e)) =
    receive-IsPaced t.buffer b t.parsed pdata e (Reach-IsPaced t r)
Reach-IsPaced _ (next r (taken t h)) = take-IsPaced t h (Reach-IsPaced t r)

-- In every state that the two threads reach, however their rounds interleave, the parser goes on to
-- its next index `i` only if at least `i + 31` packets have been received.
pub taken_late : (t : Threads) → Reach t → 0 < t.buffer.posts → t.parsed + 31 ≤ t.buffer.index
taken_late t r h = omega (arith, (Reach-IsPaced t r).paced)
