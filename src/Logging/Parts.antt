-- ===== src/Logging/Parts.antt =====
-- One search and one copy of `src_and_replace`, and the single pass over the text it is set against.
use iomessage.Prelude.{
  ℕ, suc, ◌+◌, ◌-◌, ◌^◌, ◌<◌, ◌≡◌, ◌⊎◌, refl, sym, ap, ap₂, ◌∙◌, arith, Bool-cases, inl, inr, none,
  some, [], ◌∷◌, ◌++◌, ◌==◌, if◌then◌else◌, length, take, drop, Bytes, length-append, length-drop,
  append_assoc, take-append, drop-append,
}
use iomessage.Text.{sub_size, copy_str, get_substr}
use iomessage.Text.Copy.{IsText, copy_str_stops, get_substr_fits}
use iomessage.Request.Types.{text_of}
use iomessage.Request.Types.Names.{text_of-text}
use iomessage.RecvBuf.Block.{IsText-append}
use iomessage.Logging.{strstr, at_place, copy_part}

-- The text with each `d` replaced, in one pass.
abbrev pub replace : ℕ → Bytes → Bytes → Bytes
replace d substr [] = []
replace d substr (c ∷ cs) =
    if c == d then substr ++ replace d substr cs else c ∷ replace d substr cs

-- How the search for the next `d` cuts the text.
pub strstr-cases :
    (d : ℕ) (substr s : Bytes)
    → ((strstr s (d ∷ []) ≡ none) × (replace d substr s ≡ s))
      ⊎ ((mid : Bytes) × (back : Bytes) × (s ≡ mid ++ (d ∷ back))
          × (strstr s (d ∷ []) ≡ some (length mid))
          × (replace d substr s ≡ mid ++ (substr ++ replace d substr back)))
unfolding strstr
strstr-cases d substr [] = inl (refl, refl)
strstr-cases d substr (c ∷ cs) = elim (Bool-cases (c == d)) [
  | inl hit ↦ inr ([], cs, ground (arith, hit), ground (arith, hit), ground (arith, hit))
  | inr miss ↦ elim (strstr-cases d substr cs) [
    | inl (e, same) ↦ inl (ground (arith, miss, e), ground (arith, miss, same))
    | inr (mid, back, cut, e, same) ↦
        inr
          (c ∷ mid, back, ground (arith, cut), ground (arith, miss, e), ground (arith, miss, same))
  ]
]

take-at : (xs ys : Bytes) (n : ℕ) → n ≡ length xs → take n (xs ++ ys) ≡ xs
take-at xs ys n e = rw e (take-append xs ys)

pub drop-at : (xs ys : Bytes) (n : ℕ) → n ≡ length xs → drop n (xs ++ ys) ≡ ys
drop-at xs ys n e = rw e (drop-append xs ys)

pub at_place-at :
    (xs ys : Bytes) (n : ℕ) (f : Bytes → Bytes)
    → n ≡ length xs
    → at_place (xs ++ ys) n f ≡ xs ++ f ys
at_place-at xs ys n f e = ap₂ (λ a b. a ++ f b) (take-at xs ys n e) (drop-at xs ys n e)

-- A part of the source, without the needle, and the substitute behind what the block holds.
pub copy_part-holds :
    (substr front rest mid back : Bytes) (size used : ℕ)
    → IsText front
    → IsText mid
    → IsText substr
    → used ≡ length front
    → size ≡ length front + length rest
    → length mid + length substr < length rest
    → size < 2 ^ 64
    → (rest' : Bytes) × (copy_part substr (mid ++ back) size (front ++ rest) used (length mid)
        ≡ ((front ++ mid) ++ substr) ++ (0 ∷ rest'))
      × (length front + length rest ≡ length ((front ++ mid) ++ substr) + suc (length rest'))
copy_part-holds substr front rest mid back size used tf tm ts eu es fits small =
    let r1 : Bytes = drop (suc (length mid)) rest in
    let e1 : at_place (front ++ rest) used (λ b. (get_substr b (mid ++ back) (length mid) size).0)
        ≡ (front ++ mid) ++ (0 ∷ r1) =
      at_place-at front rest used (λ b. (get_substr b (mid ++ back) (length mid) size).0) eu
      ∙ ap (λ t. front ++ t.0)
          (get_substr_fits rest mid back size tm (omega (arith, es, fits)) (omega (arith, fits)))
      ∙ sym (append_assoc front mid (0 ∷ r1)) in
    let e2 : text_of ((front ++ mid) ++ (0 ∷ r1)) ≡ front ++ mid =
      text_of-text (front ++ mid) r1 (IsText-append front mid tf tm) in
    let l = length-append front mid in
    let l1 : length r1 ≡ length rest - suc (length mid) = length-drop (suc (length mid)) rest in
    let len : sub_size size (length (front ++ mid)) ≡ suc (length r1) =
      omega (arith, es, small, l, l1, fits) in
    (
      drop (length substr) r1,
      rw (e1, e2)
          (at_place-at (front ++ mid) (0 ∷ r1) (length (front ++ mid))
              (λ b. (copy_str b substr (sub_size size (length (front ++ mid)))).0) refl
            ∙ ap (λ t. (front ++ mid) ++ t)
                (copy_str_stops (0 ∷ r1) substr (sub_size size (length (front ++ mid)))
                  (omega (arith, len, l1, fits)) (omega (arith, l1, fits))
                  (omega (arith, len, l1, es, small)))
            ∙ sym (append_assoc (front ++ mid) substr (0 ∷ drop (length substr) r1))),
      omega
          (arith, l, l1, length-append (front ++ mid) substr, length-drop (length substr) r1, fits),
    )

pub IsText-parts : (s t : Bytes) → IsText (s ++ t) → IsText s × IsText t
IsText-parts [] t h = (tt, h)
IsText-parts (c ∷ s) t h = let (hs, ht) = IsText-parts s t h.1 in ((h.0, hs), ht)
