-- ===== src/Rtsp/Parsed.antt =====
-- A quoted value of the challenge is found again.
use vcu.Prelude.{
  ℕ, ◌+◌, ◌-◌, ◌%◌, ◌^◌, ◌<◌, ◌≡◌, refl, sym, ap, ◌∙◌, none, some, List, [], ◌∷◌, ◌++◌,
}
use vcu.Prelude.{true, leb, arith, length, drop, length-append, drop-drop}
use vcu.Prelude.Memory.{take-append-length, drop-append-length}
use vcu.Prelude.Outcome.{done}
use vcu.Common.{substr}
use vcu.Rtsp.{Facts}
use vcu.Rtsp.Texts.{find_str}
use vcu.Rtsp.Parser.{quoted, realm_key, nonce_key, challenge_piece}

abbrev pub quote : ℕ
quote = 34

-- `before key="value"`
abbrev pub pair : List ℕ → List ℕ → List ℕ → List ℕ
pair before key value = before ++ (key ++ (value ++ (quote ∷ [])))

quoted_lem :
    (before key value : List ℕ)
    → length (pair before key value) < 2 ^ 64
    → quoted key (length before) (pair before key value) ≡ some value
unfolding quoted substr
quoted_lem before key value small =
    let n = length before in
    let k = length key in
    let whole : length (pair before key value) ≡ n + (k + (length value + 1)) = omega (
      arith,
      length-append before (key ++ (value ++ (quote ∷ []))),
      length-append key (value ++ (quote ∷ [])),
      length-append value (quote ∷ []),
    ) in
    let inside : leb (n + k) (length (pair before key value)) ≡ true = ground arith in
    let size : (length (pair before key value) + 2 ^ 64 - n - 1 - k) % 2 ^ 64 ≡ length value =
      omega arith in
    let behind : drop (n + k) (pair before key value) ≡ value ++ (quote ∷ []) =
      sym (drop-drop n k (pair before key value))
      ∙ ap (drop k) (drop-append-length n before (key ++ (value ++ (quote ∷ []))) refl)
      ∙ drop-append-length k key (value ++ (quote ∷ [])) refl in
    rw (inside, size, behind) (ap some (take-append-length (length value) value (quote ∷ []) refl))

realm_piece :
    (f : Facts) (str : List ℕ) (i : ℕ) (value : List ℕ)
    → find_str realm_key str ≡ some i
    → quoted realm_key i str ≡ some value
    → challenge_piece f str ≡ done (record f { realm = value })
unfolding challenge_piece
realm_piece f str i value found cut = rw (challenge_piece, found, cut)

nonce_piece :
    (f : Facts) (str : List ℕ) (i : ℕ) (value : List ℕ)
    → find_str realm_key str ≡ none
    → find_str nonce_key str ≡ some i
    → quoted nonce_key i str ≡ some value
    → challenge_piece f str ≡ done (record f { nonce = value })
unfolding challenge_piece
nonce_piece f str i value no_realm found cut = rw (challenge_piece, no_realm, found, cut)

-- A piece of the challenge that ends in `realm="…"`, or that has no realm and ends in `nonce="…"`, tells
-- the quoted value as it was written, when its key does not stand further in front.
pub challenge_piece-pair :
    (f : Facts) (before value : List ℕ)
    → length (pair before realm_key value) < 2 ^ 64
    → find_str realm_key (pair before realm_key value) ≡ some (length before)
    → find_str realm_key (pair before nonce_key value) ≡ none
    → find_str nonce_key (pair before nonce_key value) ≡ some (length before)
    → (challenge_piece f (pair before realm_key value) ≡ done (record f { realm = value }))
      × (challenge_piece f (pair before nonce_key value) ≡ done (record f { nonce = value }))
challenge_piece-pair f before value small realm no_realm nonce =
    let same_size : length (pair before nonce_key value) ≡ length (pair before realm_key value) =
      omega (
        arith,
        length-append before (nonce_key ++ (value ++ (quote ∷ []))),
        length-append before (realm_key ++ (value ++ (quote ∷ []))),
      ) in
    (
      realm_piece f (pair before realm_key value) (length before) value realm
          (quoted_lem before realm_key value small),
      nonce_piece f (pair before nonce_key value) (length before) value no_realm nonce
          (quoted_lem before nonce_key value (omega arith)),
    )
