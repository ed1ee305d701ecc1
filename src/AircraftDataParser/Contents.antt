-- ===== src/AircraftDataParser/Contents.antt =====
-- The bytes that the parser reads in its block, as bytes of what the array holds.
use vcu.Prelude.{ℕ, zero, suc, ◌+◌, ◌-◌, ◌≤◌, ◌<◌, ◌≡◌, refl, sym, ap, ◌∙◌, some}
use vcu.Prelude.{List, [], ◌∷◌}
use vcu.Prelude.{arith, length, take, drop, get_elem?, get_or}
use vcu.Prelude.Memory.{load, load_lem, take-take, drop-take}
use vcu.Prelude.Outcome.{done}
use vcu.ByteArray.{ByteArray, contents}
use vcu.ByteArray.Valid.{IsValid, length-contents}
use vcu.AircraftDataParser.{start_pos, msgid_at}
use vcu.AircraftDataParser.Packets.{packet_at, payload}

pub start_pos_lem :
    (cs : List ℕ) (i : ℕ) → start_pos cs ≡ some i → (i < length cs) × (get_or cs i 0 ≡ 0xfd)
unfolding start_pos
start_pos_lem [] i h = ground arith
start_pos_lem (c ∷ cs) zero h = ground arith
start_pos_lem (c ∷ cs) (suc i) h = ground (arith, start_pos_lem cs i)

pub get_elem?-contents :
    (xs : List ℕ) (n i : ℕ) → i < n → n ≤ length xs → get_elem? xs i ≡ some (get_or (take n xs) i 0)
get_elem?-contents xs zero i h k = absurd (omega arith)
get_elem?-contents [] (suc n) i h k = absurd (omega arith)
get_elem?-contents (x ∷ xs) (suc n) zero h k = refl
get_elem?-contents (x ∷ xs) (suc n) (suc i) h k =
    get_elem?-contents xs n i (omega arith) (omega arith)

pub get_elem?-some : (xs : List ℕ) (i : ℕ) → i < length xs → (c : ℕ) × (get_elem? xs i ≡ some c)
get_elem?-some [] i h = absurd (omega arith)
get_elem?-some (x ∷ xs) zero h = (x, refl)
get_elem?-some (x ∷ xs) (suc i) h = get_elem?-some xs i (omega arith)

pub stx_byte :
    (b : ByteArray) (i : ℕ)
    → IsValid b
    → start_pos (contents b) ≡ some i
    → get_elem? b.block i ≡ some 0xfd
stx_byte b i v h =
    let (inside, stx) = start_pos_lem (contents b) i h in
    get_elem?-contents b.block b.data_size i (omega (arith, length-contents b v)) (omega arith)
    ∙ ap some stx

pub msgid_at_lem :
    (b : ByteArray) (i : ℕ)
    → IsValid b
    → i + 9 < b.data_size
    → msgid_at b.block i ≡ done ((packet_at (contents b) i).type)
unfolding msgid_at
msgid_at_lem b i v h =
    let byte = λ (k : ℕ) (below : k < b.data_size).
      get_elem?-contents b.block b.data_size k below (omega arith) in
    rw (byte (i + 7) (omega arith), byte (i + 8) (omega arith), byte (i + 9) (omega arith))

pub payload_lem :
    (b : ByteArray) (i : ℕ)
    → IsValid b
    → i + 38 ≤ b.data_size
    → load b.block (i + 10) 28 ≡ some (payload (contents b) (packet_at (contents b) i))
payload_lem b i v h =
    load_lem b.block (i + 10) 28 (omega arith)
    ∙ ap some (
        sym (
          ap (take 28)
            (drop-take (i + 10) b.data_size (b.data_size - (i + 10)) b.block (omega arith))
          ∙ take-take 28 (b.data_size - (i + 10)) (drop (i + 10) b.block) (omega arith)))
