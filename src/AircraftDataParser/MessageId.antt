-- ===== src/AircraftDataParser/MessageId.antt =====
-- `getMsgid` against the message id that the three bytes, low first, stand for.
use vcu.Prelude.{ℕ, ◌+◌, ◌*◌, ◌%◌, ◌^◌, ◌<◌, ◌≡◌, ◌↔◌, arith, bit_or, ap, ◌∙◌}
use vcu.Prelude.Bits.{bit_or_disjoint}
use vcu.AircraftDataParser.{get_msgid}

-- What `getMsgid` computes: the high byte is moved by 24 places.
get_msgid_lem :
    (low middle high : ℕ)
    → low < 256
    → middle < 256
    → high < 256
    → get_msgid low middle high ≡ high * 2 ^ 24 + middle * 256 + low
unfolding get_msgid
get_msgid_lem low middle high l m h =
    let top : high * 2 ^ 16 % 2 ^ 32 ≡ (high * 2 ^ 8) * 2 ^ 8 = omega arith in
    let two : bit_or (high * 2 ^ 16 % 2 ^ 32) middle ≡ high * 2 ^ 16 + middle =
      ap (λ t. bit_or t middle) top
      ∙ bit_or_disjoint 8 (high * 2 ^ 8) middle (omega arith)
      ∙ omega arith in
    let shifted : bit_or (high * 2 ^ 16 % 2 ^ 32) middle * 2 ^ 8 % 2 ^ 32
        ≡ (high * 2 ^ 16 + middle) * 2 ^ 8 =
      omega arith in
    ap (λ t. bit_or t low) shifted
    ∙ bit_or_disjoint 8 (high * 2 ^ 16 + middle) low (omega arith)
    ∙ omega arith

-- On three bytes, `getMsgid` gives the number they stand for, low byte first, exactly when the high
-- byte is 0.
pub get_msgid_iff :
    (low middle high : ℕ)
    → low < 256
    → middle < 256
    → high < 256
    → (get_msgid low middle high ≡ low + middle * 256 + high * 65536) ↔ (high ≡ 0)
get_msgid_iff low middle high l m h =
    let e = get_msgid_lem low middle high l m h in (λ p. omega arith, λ p. omega arith)
