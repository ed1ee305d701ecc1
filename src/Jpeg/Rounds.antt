-- ===== src/Jpeg/Rounds.antt =====
-- The frame, and the rounds of the loop over bytes and markers.
use vcu.Prelude.{
  ℕ, zero, suc, ◌+◌, ◌≤◌, ◌≡◌, refl, sym, ap, ◌∙◌, false, List, [], ◌∷◌, ◌++◌, append_assoc, arith,
  length, length-append, length-drop, drop, ◌==◌,
}
use vcu.Prelude.Outcome.{done}
use vcu.Jpeg.{goes_on, copy_every, img_info, scan, turn, marker}
use vcu.Jpeg.Markers.{
  at_append, Room, tables, grow_head, get_data_length_lem, store_more, parts, picked, Even,
  copy_every_lem,
}

pub length-picked : (cs : List (List ℕ × ℕ)) → length (picked cs) ≡ length cs
length-picked [] = refl
length-picked ((front, x) ∷ cs) = ap suc (length-picked cs)

-- What the frame adds to the head: the size of the picture, and the table of each component.
abbrev pub with_frame : List (List ℕ × ℕ) → Room → Room
with_frame cs r = grow_head (picked cs) (grow_head (0 ∷ 2 ∷ 0x80 ∷ 2 ∷ []) r)

abbrev pub frame_bytes : ℕ → ℕ → ℕ → List (List ℕ × ℕ) → List ℕ
frame_bytes hi lo precision cs = hi ∷ lo ∷ precision ∷ 2 ∷ 0 ∷ 2 ∷ 0x80 ∷ length cs ∷ parts cs

pub img_info_lem :
    (front post : List ℕ) (hi lo precision : ℕ) (cs : List (List ℕ × ℕ)) (r : Room)
    → Even 2 cs
    → 4 + length cs ≤ length r.head_free
    → img_info (front ++ (frame_bytes hi lo precision cs ++ post)) (tables (length front) r)
      ≡ done (goes_on (tables (length front) (with_frame cs r)))
unfolding img_info
img_info_lem front post hi lo precision cs r even fits =
    let ys = frame_bytes hi lo precision cs ++ post in
    let file = front ++ ys in
    let i = length front in
    let at = λ (k j : ℕ) (e : j ≡ length front + k). at_append front ys j k e in
    let len = get_data_length_lem file i hi lo (at 0 i (omega arith)) (at 1 (i + 1) refl) in
    let height =
      get_data_length_lem file (i + 3) 2 0 (at 3 (i + 3) refl) (at 4 (i + 3 + 1) (omega arith)) in
    let width =
      get_data_length_lem file (i + 5) 2 0x80 (at 5 (i + 5) refl)
        (at 6 (i + 5 + 1) (omega arith)) in
    let sized = r.head ++ (0 ∷ 2 ∷ 0x80 ∷ 2 ∷ []) in
    let free = drop 4 r.head_free in
    let copied =
      copy_every_lem 2 (i + 7) (length r.head + 4) cs
        (front ++ (hi ∷ lo ∷ precision ∷ 2 ∷ 0 ∷ 2 ∷ 0x80 ∷ length cs ∷ [])) post sized free even
        (omega
          (arith, length-append front (hi ∷ lo ∷ precision ∷ 2 ∷ 0 ∷ 2 ∷ 0x80 ∷ length cs ∷ [])))
        (sym (length-append r.head (0 ∷ 2 ∷ 0x80 ∷ 2 ∷ [])))
        (omega (arith, length-drop 4 r.head_free)) in
    let regroup : file
        ≡ (front ++ (hi ∷ lo ∷ precision ∷ 2 ∷ 0 ∷ 2 ∷ 0x80 ∷ length cs ∷ []))
          ++ (parts cs ++ post) =
      sym (append_assoc front _ (parts cs ++ post)) in
    let count = at 7 (i + 7) refl in
    let stored = store_more r.head r.head_free (0 ∷ 2 ∷ 0x80 ∷ 2 ∷ []) (omega arith) in
    let end : length r.head + 4 + length cs ≡ length (sized ++ picked cs) = omega (
      arith,
      length-append r.head (0 ∷ 2 ∷ 0x80 ∷ 2 ∷ []),
      length-append sized (picked cs),
      length-picked cs,
    ) in
    let copied' : copy_every 3 file (length cs) (i + 7) (length r.head + 4) (sized ++ free)
        ≡ done ((sized ++ picked cs) ++ drop (length (picked cs)) free) =
      ap (λ l. copy_every 3 l (length cs) (i + 7) (length r.head + 4) (sized ++ free)) regroup
      ∙ copied
      ∙ ap (λ n. done ((sized ++ picked cs) ++ drop n free)) (sym (length-picked cs)) in
    rw (len, height, width, stored, count, copied', end) refl

-- No byte is 0xFF.
abbrev pub IsPlain : List ℕ → Type 0
IsPlain [] = Unit
IsPlain (b ∷ bs) = ((b == 0xFF) ≡ false) × IsPlain bs

-- Such bytes are passed over, one in a round.
scan_plain :
    (bs front post : List ℕ) (m n : ℕ) (r : Room)
    → IsPlain bs
    → m ≡ length bs + n
    → scan m (front ++ (bs ++ post)) (tables (length front) r)
      ≡ scan n (front ++ (bs ++ post)) (tables (length front + length bs) r)
unfolding scan turn
scan_plain [] front post m n r plain e =
    let e' : m ≡ n = omega arith in
    let e'' : length front + length {A = ℕ} [] ≡ length front = omega arith in rw (e', e'') refl
scan_plain (b ∷ bs) front post zero n r plain e = absurd (omega arith)
scan_plain (b ∷ bs) front post (suc m) n r (no_mark, plain) e =
    let file = front ++ ((b ∷ bs) ++ post) in
    let found = at_append front ((b ∷ bs) ++ post) (length front) 0 (omega arith) in
    let regroup : file ≡ (front ++ (b ∷ [])) ++ (bs ++ post) =
      sym (append_assoc front (b ∷ []) (bs ++ post)) in
    let longer : length front + 1 ≡ length (front ++ (b ∷ [])) =
      sym (length-append front (b ∷ [])) in
    let end : length (front ++ (b ∷ [])) + length bs ≡ length front + length (b ∷ bs) =
      omega (arith, longer) in
    rw (found, no_mark)
      ((λ k. scan m (regroup k) (tables (longer k) r))
        ∙ scan_plain bs (front ++ (b ∷ [])) post m n r plain (omega arith)
        ∙ (λ k. scan n (sym regroup k) (tables (end k) r)))

-- A marker, the bytes that its handler steps over, and plain bytes.
pub after_marker :
    (front skipped plain post : List ℕ) (key m n : ℕ) (r r' : Room)
    → marker
        (front ++ (0xFF ∷ key ∷ (skipped ++ (plain ++ post))))
        key
        (tables (length front + 2) r)
      ≡ done (goes_on (tables (length front + 2 + length skipped) r'))
    → IsPlain plain
    → m ≡ suc (length plain + n)
    → scan m (front ++ (0xFF ∷ key ∷ (skipped ++ (plain ++ post)))) (tables (length front) r)
      ≡ scan n
          (front ++ (0xFF ∷ key ∷ (skipped ++ (plain ++ post))))
          (tables (length front + 2 + length skipped + length plain) r')
unfolding scan turn
after_marker front skipped plain post key zero n r r' handled is_plain e = absurd (omega arith)
after_marker front skipped plain post key (suc m) n r r' handled is_plain e =
    let ys = 0xFF ∷ key ∷ (skipped ++ (plain ++ post)) in
    let mark = at_append front ys (length front) 0 (omega arith) in
    let kind = at_append front ys (length front + 1) 1 refl in
    let passed = front ++ (0xFF ∷ key ∷ skipped) in
    let regroup : front ++ ys ≡ passed ++ (plain ++ post) =
      sym (append_assoc front (0xFF ∷ key ∷ skipped) (plain ++ post)) in
    let at : length front + 2 + length skipped ≡ length passed =
      omega (arith, length-append front (0xFF ∷ key ∷ skipped)) in
    rw (mark, kind, handled)
      ((λ k. scan m (regroup k) (tables (at k) r'))
        ∙ scan_plain plain passed post m n r' is_plain (omega arith)
        ∙ (λ k. scan n (sym regroup k) (tables (sym at k + length plain) r')))
