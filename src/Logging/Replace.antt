-- ===== src/Logging/Replace.antt =====
-- `src_and_replace` with a needle of one byte, against a single pass over the text.
use iomessage.Prelude.{
  ℕ, zero, suc, ◌+◌, ◌*◌, ◌%◌, ◌^◌, ◌≤◌, ◌<◌, ◌≡◌, refl, sym, ap, ◌∙◌, arith, inl, inr, some, [],
  ◌∷◌, ◌++◌, length, drop, Bytes, tabulate, length-append, drop_all, length-tabulate, append_assoc,
}
use native.Mathlib.Nat.{mul-suc, mul-zero}
use iomessage.Text.{sub_size, copy_str, get_substr}
use iomessage.Text.Copy.{IsText, copy_str_stops, get_substr_fits}
use iomessage.Request.Types.Names.{text_of-text}
use iomessage.RecvBuf.Block.{IsText-append}
use iomessage.Logging.{strstr, count_loop, copy_part, replace_loop, final_size, src_and_replace}
use iomessage.Logging.Parts.{
  replace, strstr-cases, drop-at, at_place-at, copy_part-holds, IsText-parts,
}

-- One round that finds the needle.
loop_round :
    (fuel d : ℕ) (substr past front rest mid back rest' : Bytes) (size used start : ℕ)
    → used ≡ length front
    → start ≡ length past
    → strstr (mid ++ (d ∷ back)) (d ∷ []) ≡ some (length mid)
    → start + length mid < 2 ^ 63
    → IsText mid
    → length mid < size
    → length mid < length rest
    → IsText ((front ++ mid) ++ substr)
    → copy_part substr (mid ++ (d ∷ back)) size (front ++ rest) used (length mid)
      ≡ ((front ++ mid) ++ substr) ++ (0 ∷ rest')
    → replace_loop
        (suc fuel)
        (d ∷ [])
        substr
        (past ++ (mid ++ (d ∷ back)))
        size
        (front ++ rest)
        used
        start
        start
      ≡ replace_loop fuel
          (d ∷ [])
          substr
          (past ++ (mid ++ (d ∷ back)))
          size
          (((front ++ mid) ++ substr) ++ (0 ∷ rest'))
          (length ((front ++ mid) ++ substr))
          (suc (start + length mid))
          (suc (start + length mid))
unfolding replace_loop
loop_round fuel d substr past front rest mid back rest' size used start eu et found short tm fits
      room tf part =
    let here : drop start (past ++ (mid ++ (d ∷ back))) ≡ mid ++ (d ∷ back) =
      drop-at past (mid ++ (d ∷ back)) start et in
    let n : sub_size (start + length mid) start ≡ length mid = omega (arith, short) in
    let copied : (get_substr (drop used (front ++ rest)) (mid ++ (d ∷ back)) (length mid) size).1
        ≡ length mid =
      rw (drop-at front rest used eu)
        (ap (λ t. t.1) (get_substr_fits rest mid (d ∷ back) size tm fits room)) in
    let next : start + length mid + 1 ≡ suc (start + length mid) = omega arith in
    ground
      (arith, here, found, n, part, copied, next, text_of-text ((front ++ mid) ++ substr) rest' tf)

-- The block holds what is done, and as many bytes as what is to come and its terminator need.
loop-replaces :
    (fuel d : ℕ) (substr past src front rest : Bytes) (size used start : ℕ)
    → IsText front
    → IsText src
    → IsText substr
    → used ≡ length front
    → start ≡ length past
    → size ≡ length front + length rest
    → length rest ≡ suc (length (replace d substr src))
    → length past + length src < 2 ^ 63
    → size < 2 ^ 64
    → length src < fuel
    → replace_loop fuel (d ∷ []) substr (past ++ src) size (front ++ rest) used start start
      ≡ front ++ (replace d substr src ++ (0 ∷ []))
unfolding replace_loop
loop-replaces zero d substr past src front rest size used start tf ts tt eu et es er short small
      enough =
    absurd (omega arith)
loop-replaces (suc fuel) d substr past src front rest size used start tf ts tx eu et es er short
      small enough =
    let here : drop start (past ++ src) ≡ src = drop-at past src start et in
    elim (strstr-cases d substr src) [
      | inl (none_found, same) ↦
          let n : length (replace d substr src) ≡ length src = ap length same in
          let end : drop (suc (length src)) rest ≡ [] =
            drop_all (suc (length src)) rest (omega (arith, er, n)) in
          ground (
            arith,
            here,
            none_found,
            same,
            at_place-at front rest used (λ b. (copy_str b src size).0) eu,
            copy_str_stops rest src size (omega (arith, es, er, n)) (omega (arith, er, n)) small,
            end,
          )
      | inr (mid, back, cut, found, same) ↦
          let (tm, tb) = IsText-parts mid (d ∷ back) (rw cut at ts) in
          let n : length src ≡ length mid + suc (length back) =
            ap length cut ∙ length-append mid (d ∷ back) in
          let m : length (replace d substr src)
              ≡ length mid + (length substr + length (replace d substr back)) =
            ap length same
            ∙ length-append mid (substr ++ replace d substr back)
            ∙ ap (λ k. length mid + k) (length-append substr (replace d substr back)) in
          let (rest', part, total) =
            copy_part-holds substr front rest mid (d ∷ back) size used tf tm tx eu es
              (omega (arith, er, m)) small in
          let done_text : Bytes = (front ++ mid) ++ substr in
          let tf' : IsText done_text =
            IsText-append (front ++ mid) substr (IsText-append front mid tf tm) tx in
          let past' : Bytes = past ++ (mid ++ (d ∷ [])) in
          let p : length past' ≡ suc (start + length mid) =
            omega (arith, et, length-append past (mid ++ (d ∷ [])), length-append mid (d ∷ [])) in
          let q : length done_text ≡ length front + length mid + length substr =
            omega (arith, length-append (front ++ mid) substr, length-append front mid) in
          let round =
            loop_round fuel d substr past front rest mid back rest' size used start eu et
              (rw cut at found) (omega (arith, et, short, n)) tm (omega (arith, es, er, m))
              (omega (arith, er, m)) tf' part in
          let again =
            loop-replaces fuel d substr past' back done_text (0 ∷ rest') size (length done_text)
              (suc (start + length mid)) tf' tb.1 tx refl (sym p) (omega (arith, es, total))
              (omega (arith, es, er, m, total, q)) (omega (arith, p, et, short, n)) small
              (omega (arith, enough, n)) in
          let whole : past ++ (mid ++ (d ∷ back)) ≡ past' ++ back =
            ap (λ t. past ++ t) (sym (append_assoc mid (d ∷ []) back))
            ∙ sym (append_assoc past (mid ++ (d ∷ [])) back) in
          ap
            (λ t.
              replace_loop (suc fuel) (d ∷ []) substr (past ++ t) size (front ++ rest) used start
                start)
            cut
          ∙ round
          ∙ ap
              (λ t.
                replace_loop fuel (d ∷ []) substr t size (done_text ++ (0 ∷ rest'))
                  (length done_text) (suc (start + length mid)) (suc (start + length mid)))
              whole
          ∙ again
          ∙ ground (
            arith,
            same,
            append_assoc (front ++ mid) substr (replace d substr back ++ (0 ∷ [])),
            append_assoc front mid (substr ++ (replace d substr back ++ (0 ∷ []))),
            append_assoc mid (substr ++ replace d substr back) (0 ∷ []),
            append_assoc substr (replace d substr back) (0 ∷ []),
          )
    ]

-- The size that is counted is the result's.
length-replace :
    (fuel d : ℕ) (substr src : Bytes)
    → length src < fuel
    → (length (replace d substr src) + count_loop fuel (d ∷ []) src
        ≡ length src + length substr * count_loop fuel (d ∷ []) src)
      × (count_loop fuel (d ∷ []) src ≤ length src)
unfolding count_loop
length-replace zero d substr src enough = absurd (omega arith)
length-replace (suc fuel) d substr src enough = elim (strstr-cases d substr src) [
  | inl (e, same) ↦
      let c : count_loop (suc fuel) (d ∷ []) src ≡ 0 = rw (e, count_loop) refl in
      rw (c, same) (omega (arith, mul-zero (length substr)), omega arith)
  | inr (mid, back, cut, e, same) ↦
      let n : ℕ = count_loop fuel (d ∷ []) back in
      let l : length src ≡ length mid + suc (length back) =
        ap length cut ∙ length-append mid (d ∷ back) in
      let m : length (replace d substr src)
          ≡ length mid + (length substr + length (replace d substr back)) =
        ap length same
        ∙ length-append mid (substr ++ replace d substr back)
        ∙ ap (λ k. length mid + k) (length-append substr (replace d substr back)) in
      let dropped : drop (suc (length mid)) src ≡ back =
        ap (drop (suc (length mid))) (cut ∙ sym (append_assoc mid (d ∷ []) back))
        ∙ drop-at (mid ++ (d ∷ [])) back (suc (length mid))
            (omega (arith, length-append mid (d ∷ []))) in
      let c : count_loop (suc fuel) (d ∷ []) src ≡ suc n =
        rw (e, count_loop) (ap (λ t. suc (count_loop fuel (d ∷ []) t)) dropped) in
      let (again, few) = length-replace fuel d substr back (omega (arith, enough, l)) in
      rw c (omega (arith, again, l, m, mul-suc (length substr) n), omega (arith, few, l))
]

-- For texts without a NUL and a needle of one byte `d`, where `malloc` gives a block and the text and
-- the result are shorter than 2 ^ 31 bytes, the block is what a single pass over the text makes of it, each `d` replaced by
-- the substitute, and a NUL, whatever the block held: its size is the counted one, and no byte is left over.
pub src_and_replace-replace :
    (f : ℕ → ℕ) (d : ℕ) (substr src : Bytes)
    → IsText substr
    → IsText src
    → length src < 2 ^ 31
    → length (replace d substr src) < 2 ^ 31
    → src_and_replace (some f) (d ∷ []) substr src ≡ some (replace d substr src ++ (0 ∷ []))
unfolding src_and_replace
src_and_replace-replace f d substr src tx ts short small =
    let (l, few) = length-replace (suc (length src)) d substr src (omega arith) in
    let n : ℕ = count_loop (suc (length src)) (d ∷ []) src in
    let size : (final_size (d ∷ []) substr src n + 1) % 2 ^ 64
        ≡ suc (length (replace d substr src)) =
      omega (arith, l, few, short, small) in
    let block : Bytes = tabulate (suc (length (replace d substr src))) f in
    let room : length block ≡ suc (length (replace d substr src)) =
      length-tabulate (suc (length (replace d substr src))) f in
    rw size (
      ap some (
        loop-replaces (suc (length src)) d substr [] src [] block
          (suc (length (replace d substr src))) 0 0 tt ts tx refl refl (omega (arith, room)) room
          (omega (arith, short)) (omega (arith, small)) (omega arith)))
