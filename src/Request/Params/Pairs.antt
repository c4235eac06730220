-- ===== src/Request/Params/Pairs.antt =====
-- `format_params` on a text of escaped names and values.
use iomessage.Prelude.{
  ℕ, suc, ◌+◌, ◌<◌, ◌≡◌, ◌≢◌, refl, ap, ◌∙◌, true, false, none, some, List, [], ◌∷◌, ◌++◌, arith,
  append_assoc, append-nil, ◌==◌, length, All, Bytes, Bool-cases, inl, inr, length-append,
}
use iomessage.Text.{shift, escaped_strchr, is_special}
use iomessage.Text.Copy.{IsText}
use iomessage.Text.Find.{find_unescaped, escaped_strchr-find}
use iomessage.Text.Escape.{escape}
use iomessage.Text.Frame.{
  last_byte, shift_zero, shift-shift, find-escape_over, escaped_strchr-escape,
}
use iomessage.Request.Params.{Param}

-- A name and a value, and how they are written.
abbrev pub print_pair : Bytes × Bytes → Bytes
print_pair (name, value) = escape name ++ (b':' ∷ escape value)

abbrev pub print_pairs : List (Bytes × Bytes) → Bytes
print_pairs [] = []
print_pairs (p ∷ []) = print_pair p
print_pairs (p ∷ q ∷ ps) = print_pair p ++ (b',' ∷ print_pairs (q ∷ ps))

-- There is a name, and neither text ends in a backslash, which would hide the delimiter behind it.
abbrev pub IsPair : Bytes × Bytes → Type 0
IsPair (name, value) =
    IsText name
    × IsText value
    × (0 < length name)
    × (last_byte b',' name ≢ b'\\')
    × (last_byte b':' value ≢ b'\\')

abbrev pub param_of : Bytes × Bytes → Param
param_of (name, value) = record { name = escape name; value = escape value }

abbrev pub params_of : List (Bytes × Bytes) → List Param
params_of [] = []
params_of (p ∷ ps) = param_of p ∷ params_of ps

pub escape-IsText : (s : Bytes) → IsText s → IsText (escape s)
escape-IsText [] h = tt
escape-IsText (c ∷ cs) h = elim (Bool-cases (is_special c)) [
  | inl special ↦ rw special (omega arith, (h.0, escape-IsText cs h.1))
  | inr plain ↦ rw plain (h.0, escape-IsText cs h.1)
]

-- Nothing but a colon is found inside a pair.
pub find-print_pair :
    (prev d : ℕ) (p : Bytes × Bytes) (t : Bytes)
    → is_special d ≡ true
    → d ≢ b'\\'
    → d ≢ b':'
    → find_unescaped prev (print_pair p ++ t) d
      ≡ shift (length (print_pair p)) (find_unescaped (last_byte b':' p.1) t d)
unfolding find_unescaped
find-print_pair prev d (n, v) t special slash colon = ground (
  arith,
  append_assoc (escape n) (b':' ∷ escape v) t,
  find-escape_over prev d n (b':' ∷ (escape v ++ t)) special slash,
  find-escape_over b':' d v t special slash,
  length-append (escape n) (b':' ∷ escape v),
  shift-shift 1 (length (escape v)) (find_unescaped (last_byte b':' v) t d),
  shift-shift (length (escape n)) (1 + length (escape v)) (find_unescaped (last_byte b':' v) t d),
)

comma_special : is_special b',' ≡ true
unfolding is_special
comma_special = refl

colon_special : is_special b':' ≡ true
unfolding is_special
colon_special = refl

pub differs : (a b : ℕ) → (a == b) ≡ false → a ≢ b
differs a b h e = ground (arith, h, e)

find_hit : (prev d : ℕ) (t : Bytes) → prev ≢ b'\\' → find_unescaped prev (d ∷ t) d ≡ some 0
unfolding find_unescaped
find_hit prev d t h = ground (arith, h)

find_nil : (prev d : ℕ) → find_unescaped prev [] d ≡ none
unfolding find_unescaped
find_nil prev d = refl

-- The comma behind a pair, and the colon inside it, are the ones that are found.
pub comma_behind :
    (front : ℕ) (p : Bytes × Bytes) (t : Bytes)
    → IsPair p
    → escaped_strchr (record { before = front; text = print_pair p ++ (b',' ∷ t) }) b','
      ≡ some (length (print_pair p))
comma_behind front p t h =
    let found =
      find-print_pair front b',' p (b',' ∷ t) comma_special (differs b',' b'\\' refl)
        (differs b',' b':' refl) in
    let hit = find_hit (last_byte b':' p.1) b',' t h.4 in
    escaped_strchr-find _ b','
    ∙ found
    ∙ ap (shift (length (print_pair p))) hit
    ∙ ap some (omega arith)

pub comma_none :
    (front : ℕ) (p : Bytes × Bytes)
    → escaped_strchr (record { before = front; text = print_pair p }) b',' ≡ none
comma_none front p =
    let found =
      find-print_pair front b',' p [] comma_special (differs b',' b'\\' refl)
        (differs b',' b':' refl) in
    rw (← append-nil (print_pair p)) (
      escaped_strchr-find _ b','
      ∙ found
      ∙ ap (shift (length (print_pair p))) (find_nil (last_byte b':' p.1) b','))

last_byte_any : (a b : ℕ) (s : Bytes) → 0 < length s → last_byte a s ≡ last_byte b s
last_byte_any a b [] h = absurd (omega (arith, h))
last_byte_any a b (c ∷ cs) h = refl

pub colon_inside :
    (front : ℕ) (p : Bytes × Bytes)
    → IsPair p
    → escaped_strchr (record { before = front; text = print_pair p }) b':'
      ≡ some (length (escape p.0))
colon_inside front p h =
    let last : last_byte front p.0 ≢ b'\\' = λ e. h.3 (last_byte_any b',' front p.0 h.2 ∙ e) in
    escaped_strchr-escape front b':' p.0 (escape p.1) colon_special (differs b':' b'\\' refl) last

pub escape_some : (s : Bytes) → 0 < length s → (d : ℕ) × (length (escape s) ≡ suc d)
escape_some [] h = absurd (omega (arith, h))
escape_some (c ∷ cs) h = elim (Bool-cases (is_special c)) [
  | inl special ↦ (suc (length (escape cs)), rw special refl)
  | inr plain ↦ (length (escape cs), rw plain refl)
]

pub All-append : (s t : Bytes) → IsText s → IsText t → IsText (s ++ t)
All-append [] t h k = k
All-append (c ∷ cs) t h k = (h.0, All-append cs t h.1 k)

print_pair-IsText : (p : Bytes × Bytes) → IsPair p → IsText (print_pair p)
print_pair-IsText p h =
    All-append (escape p.0) (b':' ∷ escape p.1) (escape-IsText p.0 h.0)
      (omega arith, escape-IsText p.1 h.1)

pub print_pairs-IsText : (ps : List (Bytes × Bytes)) → All IsPair ps → IsText (print_pairs ps)
print_pairs-IsText [] h = tt
print_pairs-IsText (p ∷ []) h = print_pair-IsText p h.0
print_pairs-IsText (p ∷ q ∷ ps) h =
    All-append (print_pair p) (b',' ∷ print_pairs (q ∷ ps)) (print_pair-IsText p h.0)
      (omega arith, print_pairs-IsText (q ∷ ps) h.1)

-- Nothing but a colon or a comma is found inside the pairs; where there are none, nothing stands
-- between the places before and behind.
pub last_of : ℕ → List (Bytes × Bytes) → ℕ
last_of front [] = front
last_of front (p ∷ ps) = last_of (last_byte b':' p.1) ps

pub find-print_pairs :
    (prev d : ℕ) (ps : List (Bytes × Bytes)) (t : Bytes)
    → is_special d ≡ true
    → (d == b'\\') ≡ false
    → (d == b':') ≡ false
    → (d == b',') ≡ false
    → find_unescaped prev (print_pairs ps ++ t) d
      ≡ shift (length (print_pairs ps)) (find_unescaped (last_of prev ps) t d)
unfolding last_of find_unescaped
find-print_pairs prev d [] t special slash colon comma =
    ground (arith, shift_zero (find_unescaped prev t d))
find-print_pairs prev d (p ∷ []) t special slash colon comma =
    find-print_pair prev d p t special (differs d b'\\' slash) (differs d b':' colon)
find-print_pairs prev d (p ∷ q ∷ ps) t special slash colon comma = ground (
  arith,
  append_assoc (print_pair p) (b',' ∷ print_pairs (q ∷ ps)) t,
  find-print_pair prev d p (b',' ∷ (print_pairs (q ∷ ps) ++ t)) special (differs d b'\\' slash)
      (differs d b':' colon),
  find-print_pairs b',' d (q ∷ ps) t special slash colon comma,
  length-append (print_pair p) (b',' ∷ print_pairs (q ∷ ps)),
  shift-shift 1 (length (print_pairs (q ∷ ps))) (find_unescaped (last_of b',' (q ∷ ps)) t d),
  shift-shift (length (print_pair p)) (1 + length (print_pairs (q ∷ ps)))
      (find_unescaped (last_of b',' (q ∷ ps)) t d),
)

pub last_of-pairs :
    (front : ℕ) (ps : List (Bytes × Bytes))
    → front ≢ b'\\'
    → All IsPair ps
    → last_of front ps ≢ b'\\'
unfolding last_of
last_of-pairs front [] h good = h
last_of-pairs front (p ∷ ps) h good = last_of-pairs (last_byte b':' p.1) ps good.0.4 good.1
