-- ===== src/RtpDataManager/Laws.antt =====
-- The full packet's buffer between two packets, and what the parsers add to it.
use vcu.Prelude.{ℕ, zero, suc, ◌+◌, ◌-◌, ◌≤◌, ◌<◌, ◌≡◌, refl, ap, ◌∙◌, inl, List, [], ◌∷◌, ◌++◌}
use vcu.Prelude.{get_elem?, arith, length, take, drop, some, length-drop}
use vcu.Prelude.Outcome.{Outcome, done, aborted, overrun}
use vcu.ByteArray.{ByteArray, contents, append_char}
use vcu.ByteArray.Valid.{IsValid, length-contents}
use vcu.ByteArray.Append.{append_lem, append_char_lem}
use vcu.RtpDataManager.{append_start_code, append_from, start_code}

pub take_all {ℓ} : {A : Type ℓ} (xs : List A) (n : ℕ) → n ≡ length xs → take n xs ≡ xs
take_all [] zero h = refl
take_all [] (suc n) h = absurd (omega arith)
take_all (x ∷ xs) zero h = absurd (omega arith)
take_all (x ∷ xs) (suc n) h = ap (λ t. x ∷ t) (take_all xs n (omega arith))

-- A buffer that holds `bytes` and is at least as large as a new one.
pub record Holds (bytes : List ℕ) (b : ByteArray) : Type 0 where
  pub valid : IsValid b
  pub large : 1024 ≤ b.capacity
  pub holds : contents b ≡ bytes

pub data_size-Holds : (bytes : List ℕ) (b : ByteArray) → Holds bytes b → b.data_size ≡ length bytes
data_size-Holds bytes b h = omega (arith, length-contents b h.valid, ap length h.holds)

pub append_start_code_lem :
    (b : ByteArray)
    → Holds [] b
    → (b' : ByteArray) × (append_start_code b ≡ done b') × Holds start_code b'
append_start_code_lem b h =
    let size = data_size-Holds [] b h in
    let (b', e, v, grown, same) =
      append_lem b start_code 4 h.valid (omega arith) (inl (omega (arith, h.large))) in
    (
      b',
      rw e,
      record {
        valid = v;
        large = omega (arith, h.large);
        holds = same ∙ ap (λ t. t ++ start_code) h.holds;
      },
    )

-- Up to 2047 bytes in all fit a buffer that is as large as a new one.
pub append_from_lem :
    (k : ℕ) (pdata bytes : List ℕ) (b : ByteArray)
    → Holds bytes b
    → length bytes + (length pdata - k) < 2048
    → (b' : ByteArray) × (append_from k pdata b ≡ done b') × Holds (bytes ++ drop k pdata) b'
append_from_lem k pdata bytes b h small =
    let size = data_size-Holds bytes b h in
    let n = length pdata - k in
    let all : n ≡ length (drop k pdata) = omega (arith, length-drop k pdata) in
    let (b', e, v, grown, same) =
      append_lem b (drop k pdata) n h.valid (omega arith) (inl (omega (arith, h.large))) in
    (
      b',
      rw e,
      record {
        valid = v;
        large = omega (arith, h.large);
        holds = same ∙ rw (h.holds, take_all (drop k pdata) n all);
      },
    )

pub append_char-Holds :
    (c : ℕ) (bytes : List ℕ) (b : ByteArray)
    → Holds bytes b
    → (b' : ByteArray) × (append_char b c ≡ some b') × Holds (bytes ++ (c ∷ [])) b'
append_char-Holds c bytes b h =
    let (b', e, v, grown, same) = append_char_lem b c h.valid in
    (b', e, record { valid = v; large = omega (arith, h.large); holds = same ∙ rw h.holds })

-- A run of the code that ends as the abstract one does, with the abstract one's bytes.
abbrev pub Adds : Outcome ByteArray → Outcome (List ℕ) → Type 0
Adds (done b) (done bytes) = Holds bytes b
Adds aborted aborted = Unit {0}
Adds overrun overrun = Unit {0}
Adds _ _ = ⊥

pub drop-drop {ℓ} :
    {A : Type ℓ} (m n k : ℕ) (xs : List A) → m + n ≡ k → drop n (drop m xs) ≡ drop k xs
drop-drop zero n k xs h = let e : n ≡ k = omega arith in rw e
drop-drop (suc m) n zero xs h = absurd (omega arith)
drop-drop (suc m) zero (suc k) [] h = refl
drop-drop (suc m) (suc n) (suc k) [] h = refl
drop-drop (suc m) n (suc k) (x ∷ xs) h = drop-drop m n k xs (omega arith)

pub get_elem?-drop {ℓ} :
    {A : Type ℓ} (m n k : ℕ) (xs : List A) → m + n ≡ k → get_elem? xs k ≡ get_elem? (drop m xs) n
get_elem?-drop zero n k xs h = let e : n ≡ k = omega arith in rw e
get_elem?-drop (suc m) n zero xs h = absurd (omega arith)
get_elem?-drop (suc m) n (suc k) [] h = refl
get_elem?-drop (suc m) n (suc k) (x ∷ xs) h = get_elem?-drop m n k xs (omega arith)
