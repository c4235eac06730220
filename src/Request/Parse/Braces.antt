-- ===== src/Request/Parse/Braces.antt =====
-- The text of a whole request, and what `escaped_strchr` finds in it.
use iomessage.Prelude.{
  ℕ, suc, ◌+◌, ◌-◌, ◌≡◌, ◌≢◌, refl, ap, ◌∙◌, true, false, some, List, [], ◌∷◌, ◌++◌, arith, ◌==◌,
  append_assoc, length, All, Bytes, length-append, get_or-append,
}
use iomessage.Text.{shift, byte_at, escaped_strchr, is_special}
use iomessage.Text.Copy.{IsText}
use iomessage.Text.Find.{find_unescaped, escaped_strchr-find}
use iomessage.Text.Escape.{escape}
use iomessage.Text.Frame.{last_byte, find-escape_over}
use iomessage.Request.Params.Pairs.{
  print_pairs, IsPair, differs, last_of, find-print_pairs, last_of-pairs, All-append, escape-IsText,
  print_pairs-IsText,
}
use iomessage.Request.Parse.Section.{braced}

-- `[{type}{name:value,...}{payload}]`, the special bytes of all texts escaped
abbrev pub print_req : Bytes → List (Bytes × Bytes) → Bytes → Bytes
print_req type ps payload =
    braced (b'[' ∷ []) (escape type)
      (braced [] (print_pairs ps) (braced [] (escape payload) (b']' ∷ [])))

pub closing_special : is_special b'}' ≡ true
unfolding is_special
closing_special = refl

-- A body over which the search for a closing brace passes, up to a place that a backslash `before`
-- could hide.
abbrev pub Passes : Bytes → Type 0
Passes body =
    (before : ℕ) × (before ≢ b'\\')
    × ((t : Bytes)
        → find_unescaped b'{' (body ++ t) b'}' ≡ shift (length body) (find_unescaped before t b'}'))

pub escape-Passes : (s : Bytes) → last_byte b'{' s ≢ b'\\' → Passes (escape s)
escape-Passes s h = (
  last_byte b'{' s,
  h,
  λ t. find-escape_over b'{' b'}' s t closing_special (differs b'}' b'\\' refl),
)

pub print_pairs-Passes : (ps : List (Bytes × Bytes)) → All IsPair ps → Passes (print_pairs ps)
print_pairs-Passes ps good = (
  last_of b'{' ps,
  last_of-pairs b'{' ps (differs b'{' b'\\' refl) good,
  λ t. find-print_pairs b'{' b'}' ps t closing_special refl refl refl,
)

found_at : (prev d : ℕ) (t : Bytes) → prev ≢ b'\\' → find_unescaped prev (d ∷ t) d ≡ some 0
unfolding find_unescaped
found_at prev d t h = ground (arith, h)

passed_by :
    (prev c d : ℕ) (t : Bytes)
    → (c == d) ≡ false
    → find_unescaped prev (c ∷ t) d ≡ shift 1 (find_unescaped c t d)
unfolding find_unescaped
passed_by prev c d t h = rw h refl

module _ (front : ℕ) (body rest : Bytes) where
  closes_find : Passes body → find_unescaped b'{' (body ++ (b'}' ∷ rest)) b'}' ≡ some (length body)
  closes_find (before, h, over) =
      over (b'}' ∷ rest)
      ∙ ap (shift (length body)) (found_at before b'}' rest h)
      ∙ ap some (omega arith)

  pub opens :
      front ≢ b'\\'
      → escaped_strchr (record { before = front; text = braced [] body rest }) b'{' ≡ some 0
  opens h = escaped_strchr-find _ b'{' ∙ found_at front b'{' (body ++ (b'}' ∷ rest)) h

  pub closes :
      Passes body
      → escaped_strchr (record { before = front; text = braced [] body rest }) b'}'
        ≡ some (suc (length body))
  closes h =
      escaped_strchr-find _ b'}'
      ∙ passed_by front b'{' b'}' (body ++ (b'}' ∷ rest)) refl
      ∙ ap (shift 1) (closes_find h)
      ∙ ap some (omega arith)

  pub opens_first :
      escaped_strchr (record { before = front; text = braced (b'[' ∷ []) body rest }) b'{' ≡ some 1
  opens_first =
      escaped_strchr-find _ b'{'
      ∙ passed_by front b'[' b'{' (b'{' ∷ (body ++ (b'}' ∷ rest))) refl
      ∙ ap (shift 1) (found_at b'[' b'{' (body ++ (b'}' ∷ rest)) (differs b'[' b'\\' refl))
      ∙ ap some (omega arith)

  pub closes_first :
      Passes body
      → escaped_strchr (record { before = front; text = braced (b'[' ∷ []) body rest }) b'}'
        ≡ some (suc (suc (length body)))
  closes_first h =
      escaped_strchr-find _ b'}'
      ∙ passed_by front b'[' b'}' (b'{' ∷ (body ++ (b'}' ∷ rest))) refl
      ∙ ap (shift 1)
          (passed_by b'[' b'{' b'}' (body ++ (b'}' ∷ rest)) refl ∙ ap (shift 1) (closes_find h))
      ∙ ap some (omega arith)

length-braced :
    (pre body rest : Bytes)
    → length (braced pre body rest) ≡ length pre + length body + length rest + 2
length-braced pre body rest =
    omega
      (arith, length-append pre (b'{' ∷ (body ++ (b'}' ∷ rest))), length-append body (b'}' ∷ rest))

-- The lengths of the parts.
pub length-print_req :
    (type : Bytes) (ps : List (Bytes × Bytes)) (payload : Bytes)
    → length (print_req type ps payload)
      ≡ length (escape type) + length (print_pairs ps) + length (escape payload) + 8
length-print_req type ps payload =
    let third = length-braced [] (escape payload) (b']' ∷ []) in
    let second = length-braced [] (print_pairs ps) (braced [] (escape payload) (b']' ∷ [])) in
    let first =
      length-braced (b'[' ∷ []) (escape type)
        (braced [] (print_pairs ps) (braced [] (escape payload) (b']' ∷ []))) in
    omega (arith, first, second, third)

last_at : (s : Bytes) (c : ℕ) → byte_at (s ++ (c ∷ [])) (length (s ++ (c ∷ [])) - 1) ≡ c
last_at s c = get_or-append s c [] _ 0 (omega (arith, length-append s (c ∷ [])))

ends_at : (raw s : Bytes) (c : ℕ) → raw ≡ s ++ (c ∷ []) → byte_at raw (length raw - 1) ≡ c
ends_at raw s c e = rw e (last_at s c)

braced-snoc :
    (pre body rest : Bytes) (c : ℕ)
    → braced pre body (rest ++ (c ∷ [])) ≡ braced pre body rest ++ (c ∷ [])
braced-snoc pre body rest c = ground (
  arith,
  append_assoc pre (b'{' ∷ (body ++ (b'}' ∷ rest))) (c ∷ []),
  append_assoc body (b'}' ∷ rest) (c ∷ []),
)

-- The last byte is the closing bracket.
pub print_req_last :
    (type : Bytes) (ps : List (Bytes × Bytes)) (payload : Bytes)
    → byte_at (print_req type ps payload) (length (print_req type ps payload) - 1) ≡ b']'
print_req_last type ps payload =
    let shape : print_req type ps payload
        ≡ braced (b'[' ∷ []) (escape type)
            (braced [] (print_pairs ps) (braced [] (escape payload) []))
          ++ (b']' ∷ []) =
      ap (λ t. braced (b'[' ∷ []) (escape type) (braced [] (print_pairs ps) t))
        (braced-snoc [] (escape payload) [] b']')
      ∙ ap (braced (b'[' ∷ []) (escape type))
          (braced-snoc [] (print_pairs ps) (braced [] (escape payload) []) b']')
      ∙ braced-snoc (b'[' ∷ []) (escape type)
          (braced [] (print_pairs ps) (braced [] (escape payload) [])) b']' in
    ends_at (print_req type ps payload)
      (braced (b'[' ∷ []) (escape type)
        (braced [] (print_pairs ps) (braced [] (escape payload) [])))
      b']' shape

braced-IsText : (body rest : Bytes) → IsText body → IsText rest → IsText (braced [] body rest)
braced-IsText body rest h k = (omega arith, All-append body (b'}' ∷ rest) h (omega arith, k))

pub print_req-IsText :
    (type : Bytes) (ps : List (Bytes × Bytes)) (payload : Bytes)
    → IsText type
    → IsText payload
    → All IsPair ps
    → IsText (print_req type ps payload)
print_req-IsText type ps payload h k good = (
  omega arith,
  braced-IsText (escape type) _ (escape-IsText type h) (
      braced-IsText (print_pairs ps) _ (print_pairs-IsText ps good)
        (braced-IsText (escape payload) _ (escape-IsText payload k) (omega arith, tt))),
)
