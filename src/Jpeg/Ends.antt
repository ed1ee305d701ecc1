-- ===== src/Jpeg/Ends.antt =====
-- The end of the data, and the start of the data behind the tables.
use vcu.Prelude.{
  ℕ, zero, suc, ◌+◌, ◌-◌, ◌*◌, ◌/◌, ◌%◌, ◌^◌, ◌≤◌, ◌<◌, ◌≡◌, refl, sym, ap, ◌∙◌, false, some, List,
  [], ◌∷◌, ◌++◌, append_assoc, arith, length, length-append, length-replicate, get_elem?, drop,
  replicate, ltb, ◌==◌,
}
use vcu.Prelude.Memory.{load, store, load-append}
use vcu.Prelude.Outcome.{done}
use vcu.RtpModel.{be16_bytes}
use vcu.Jpeg.{
  parsed, ends, le_bytes, get_data_length, copy_every, byte_before, last_end, get_file_end2,
  missing, whole_blocks, data_start,
}
use vcu.Jpeg.Markers.{
  at_append, Room, tables, grow_huff, grow_head, get_data_length_lem, store_more, parts, picked,
  Even, copy_every_lem,
}
use vcu.Jpeg.Rounds.{length-picked}

-- No byte is 0xD9.
abbrev pub NoEnd : List ℕ → Type 0
NoEnd [] = Unit
NoEnd (b ∷ bs) = ((b == 0xD9) ≡ false) × NoEnd bs

NoEnd-get_elem? :
    (tail : List ℕ) (k : ℕ)
    → NoEnd tail
    → k < length tail
    → (b : ℕ) × (get_elem? tail k ≡ some b) × ((b == 0xD9) ≡ false)
NoEnd-get_elem? [] k h below = absurd (omega arith)
NoEnd-get_elem? (b ∷ tail) zero h below = (b, refl, h.0)
NoEnd-get_elem? (b ∷ tail) (suc k) h below = NoEnd-get_elem? tail k h.1 (omega arith)

-- From behind the end marker, or from a place in what follows it, the loop finds it.
last_end_lem :
    (front tail : List ℕ) (k p : ℕ)
    → NoEnd tail
    → k ≤ length tail
    → p ≡ length front + 2 + k
    → last_end (front ++ (0xFF ∷ 0xD9 ∷ tail)) p ≡ done (length front + 1)
unfolding last_end byte_before
last_end_lem front tail k zero none_left below e = absurd (omega arith)
last_end_lem front tail zero (suc zero) none_left below e = absurd (omega arith)
last_end_lem front tail zero (suc (suc p)) none_left below e =
    let ys = 0xFF ∷ 0xD9 ∷ tail in
    let last = at_append front ys (suc p) 1 (omega arith) in
    let before = at_append front ys p 0 (omega arith) in
    let end : suc p ≡ length front + 1 = omega arith in rw (last, before) (ap done end)
last_end_lem front tail (suc k) (suc p) none_left below e =
    let (b, found, no_end) = NoEnd-get_elem? tail k none_left (omega arith) in
    let here = at_append front (0xFF ∷ 0xD9 ∷ tail) p (suc (suc k)) (omega arith) ∙ found in
    rw (here, no_end) (last_end_lem front tail k p none_left (omega arith) (omega arith))

-- With the start of the data at `pos`, in front of the end marker: the size up to the end of the marker.
get_file_end2_lem :
    (front bytes tail : List ℕ)
    → NoEnd tail
    → let file = front ++ (bytes ++ (0xFF ∷ 0xD9 ∷ tail)) in
      get_file_end2 file (length front) (length file - 1) ≡ done (length bytes + 2)
unfolding get_file_end2
get_file_end2_lem front bytes tail none_left =
    let file = front ++ (bytes ++ (0xFF ∷ 0xD9 ∷ tail)) in
    let before = front ++ bytes in
    let regroup : file ≡ before ++ (0xFF ∷ 0xD9 ∷ tail) = sym (append_assoc front bytes _) in
    let size : length before ≡ length front + length bytes = length-append front bytes in
    let whole : length file - 1 + 1 ≡ length before + 2 + length tail =
      omega (arith, ap length regroup, length-append before (0xFF ∷ 0xD9 ∷ tail)) in
    let found : last_end file (length file - 1 + 1) ≡ done (length before + 1) =
      (λ k. last_end (regroup k) (whole k))
      ∙ last_end_lem before tail (length tail) _ none_left (omega arith) refl in
    let inside : ltb (length before + 1 + 1) (length front) ≡ false = ground (arith, size) in
    let end : length before + 1 + 1 - length front ≡ length bytes + 2 = omega (arith, size) in
    rw (found, inside, end) refl

missing-le : (n : ℕ) → missing n ≤ 16
missing-le n = ground arith

length-parts : (cs : List (List ℕ × ℕ)) → Even 1 cs → length (parts cs) ≡ 2 * length cs
length-parts [] h = omega arith
length-parts ((p, x) ∷ cs) (size, even) =
    omega (arith, size, length-append p (x ∷ parts cs), length-parts cs even)

-- The segment at the start of the data, behind its marker
abbrev pub start_bytes : List (List ℕ × ℕ) → List ℕ → List ℕ
start_bytes cs rest = be16_bytes (6 + 2 * length cs) (length cs ∷ (parts cs ++ rest))

abbrev pub filled : Room → List (List ℕ × ℕ) → Room
filled r cs = grow_huff (replicate (missing (length r.huff)) 0xFF) (grow_head (picked cs) r)

-- What is copied to the head of the tables: the even places of the start's parts
data_start-copied :
    (front bytes rest : List ℕ) (cs : List (List ℕ × ℕ)) (r : Room)
    → Even 1 cs
    → length cs ≤ length r.head_free
    → copy_every 2
        (front ++ (start_bytes cs rest ++ bytes))
        (length cs)
        (length front + 2)
        (length r.head)
        (r.head ++ r.head_free)
      ≡ done ((filled r cs).head ++ (filled r cs).head_free)
data_start-copied front bytes rest cs r even room =
    let n = 6 + 2 * length cs in
    let lead = n / 256 % 256 ∷ n % 256 ∷ length cs ∷ [] in
    let i = length front in
    let parted : front ++ (start_bytes cs rest ++ bytes)
        ≡ (front ++ lead) ++ (parts cs ++ (rest ++ bytes)) =
      ap (λ l. front ++ (n / 256 % 256 ∷ n % 256 ∷ length cs ∷ l))
        (append_assoc (parts cs) rest bytes)
      ∙ sym (append_assoc front lead (parts cs ++ (rest ++ bytes))) in
    ap (λ l. copy_every 2 l (length cs) (i + 2) (length r.head) (r.head ++ r.head_free)) parted
    ∙ copy_every_lem 1 (i + 2) (length r.head) cs (front ++ lead) (rest ++ bytes) r.head r.head_free
        even (omega (arith, length-append front lead)) refl room
    ∙ ap (λ m. done ((r.head ++ picked cs) ++ drop m r.head_free)) (sym (length-picked cs))

-- The data from place `i` on: its size, and what is loaded
data_start-loaded :
    (passed bytes tail file : List ℕ) (i : ℕ)
    → NoEnd tail
    → file ≡ passed ++ (bytes ++ (0xFF ∷ 0xD9 ∷ tail))
    → i ≡ length passed
    → (get_file_end2 file i (length file - 1) ≡ done (length bytes + 2))
      × (load file i (length bytes + 2) ≡ some (bytes ++ (0xFF ∷ 0xD9 ∷ [])))
data_start-loaded passed bytes tail file i none_left behind at =
    let found = bytes ++ (0xFF ∷ 0xD9 ∷ []) in
    let whole = behind ∙ ap (λ l. passed ++ l) (sym (append_assoc bytes (0xFF ∷ 0xD9 ∷ []) tail)) in
    (
      (λ k. get_file_end2 (behind k) (at k) (length (behind k) - 1))
          ∙ get_file_end2_lem passed bytes tail none_left,
      (λ k. load (whole k) (at k) (length bytes + 2))
          ∙ load-append passed found tail (length passed) (length bytes + 2) refl
              (sym (length-append bytes (0xFF ∷ 0xD9 ∷ []))),
    )

pub data_start_lem :
    (front bytes tail rest : List ℕ) (cs : List (List ℕ × ℕ)) (r : Room) (head : List ℕ)
    → Even 1 cs
    → length rest ≡ 3
    → length cs < 2 ^ 14
    → NoEnd tail
    → length cs ≤ length r.head_free
    → missing (length r.huff) ≤ length r.huff_free
    → length r.huff + 16 < 2 ^ 16
    → let r' = filled r cs in
      let out = whole_blocks (bytes ++ (0xFF ∷ 0xD9 ∷ [])) in
      store (r'.head ++ r'.head_free) 20 (le_bytes 3 (length out / 16)) ≡ some head
      → data_start
          (front ++ (start_bytes cs rest ++ (bytes ++ (0xFF ∷ 0xD9 ∷ tail))))
          (tables (length front) r)
        ≡ done (
            ends (
              parsed
                (record (tables (length front + length (start_bytes cs rest)) r') { head = head })
                (some out)))
unfolding data_start
data_start_lem front bytes tail rest cs r head even three few none_left room pad small stored =
    let n = 6 + 2 * length cs in
    let sos = start_bytes cs rest in
    let data_bytes = bytes ++ (0xFF ∷ 0xD9 ∷ tail) in
    let file = front ++ (sos ++ data_bytes) in
    let i = length front in
    let len : get_data_length file i ≡ done n =
      get_data_length_lem file i (n / 256 % 256) (n % 256)
        (at_append front (sos ++ data_bytes) i 0 (omega arith))
        (at_append front (sos ++ data_bytes) (i + 1) 1 refl)
      ∙ ap done (omega arith) in
    let count = at_append front (sos ++ data_bytes) (i + 2) 2 refl in
    let copied = data_start-copied front data_bytes rest cs r even room in
    let fill : List ℕ = replicate (missing (length r.huff)) 0xFF in
    let fill_size : length fill ≡ missing (length r.huff) =
      length-replicate {A = ℕ} (missing (length r.huff)) 0xFF in
    let filled_up = store_more r.huff r.huff_free fill (omega (arith, pad, fill_size)) in
    let passed = front ++ sos in
    let at : i + n ≡ length passed = omega (
      arith,
      three,
      length-append front sos,
      length-append (parts cs) rest,
      length-parts cs even,
    ) in
    let (sized, loaded) =
      data_start-loaded passed bytes tail file (i + n) none_left
        (sym (append_assoc front sos data_bytes)) at in
    let end_head : length r.head + length cs ≡ length (r.head ++ picked cs) =
      omega (arith, length-append r.head (picked cs), length-picked cs) in
    let end_huff : length r.huff + missing (length r.huff) ≡ length (r.huff ++ fill) =
      omega (arith, length-append r.huff fill, fill_size) in
    let few_huff : length (r.huff ++ fill) % 2 ^ 16 ≡ length (r.huff ++ fill) =
      omega (arith, end_huff, small, missing-le (length r.huff)) in
    let end : i + n ≡ i + length sos = omega (arith, at, length-append front sos) in
    rw (count, copied, len, filled_up, sized, loaded, stored, end_head, end_huff, few_huff, end)
      refl
