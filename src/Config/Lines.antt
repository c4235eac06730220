-- ===== src/Config/Lines.antt =====
-- `init_properties_by_file` on a file of comments, malformed lines and settings.
use iomessage.Prelude.{
  ℕ, zero, suc, ◌≤◌, ◌≡◌, ◌≢◌, refl, sym, ap, arith, false, Bool-cases, inl, inr, Option, none,
  some, List, [], ◌∷◌, ◌++◌, if◌then◌else◌, All, Bytes, length, take, drop, set, length-set,
  length-append, length-drop, length-take,
}
use iomessage.Text.{copy_str, strchr}
use iomessage.Text.Copy.{IsText, copy_str_lem}
use iomessage.Request.Types.{same_text, text_of}
use iomessage.Request.Types.Names.{same_text→eq}
use iomessage.Config.{Property, property_list_def, get_line, set_val}

-- The value of a property, by one pass over the list.
abbrev pub value_of : Bytes → List Property → Option Bytes
value_of name [] = none
value_of name (p ∷ ps) = if same_text name p.name then some (text_of p.val) else value_of name ps

abbrev pub names : List Property → List Bytes
names [] = []
names (p ∷ ps) = p.name ∷ names ps

-- The list with one property set, by one pass over it.
abbrev pub set_name : Bytes → Bytes → List Property → List Property
set_name name value [] = []
set_name name value (p ∷ ps) =
    if same_text name p.name then set_val value p ∷ ps else p ∷ set_name name value ps

-- The program's list: the names are those of the defaults, and each array has its 100 bytes.
abbrev pub IsList : List Property → Type 0
IsList ps = (names ps ≡ names property_list_def) × All (λ p. length p.val ≡ 100) ps

pub data Line : Type 0 where
  comment : Bytes → Line
  malformed : Bytes → Line
  setting : Bytes → Bytes → Line

abbrev pub print_line : Line → Bytes
print_line (comment text) = b'#' ∷ text
print_line (malformed text) = text
print_line (setting name value) = name ++ (b'=' ∷ value)

abbrev pub print_lines : List Line → Bytes
print_lines [] = []
print_lines (l ∷ ls) = print_line l ++ (b'\n' ∷ print_lines ls)

abbrev NotComment : Bytes → Type 0
NotComment [] = Unit
NotComment (c ∷ cs) = c ≢ b'#'

abbrev pub Lacks : ℕ → Bytes → Type 0
Lacks ch s = All (λ c. c ≢ ch) s

abbrev pub IsLine : Line → Type 0
IsLine (comment text) = Lacks b'\n' text
IsLine (malformed text) = Lacks b'\n' text × Lacks b'=' text
IsLine (setting name value) =
    (IsText name × Lacks b'\n' name × Lacks b'=' name × NotComment name)
    × (IsText value × Lacks b'\n' value)

-- What a line makes of the value of the property with a name: `none` is a name that no property has.
abbrev pub set_value : Bytes → Line → Option Bytes → Option Bytes
set_value name l none = none
set_value name (comment text) (some old) = some old
set_value name (malformed text) (some old) = some old
set_value name (setting other value) (some old) =
    some (if same_text name other then take 99 value else old)

abbrev pub value_after : Bytes → List Line → Option Bytes → Option Bytes
value_after name [] v = v
value_after name (l ∷ ls) v = value_after name ls (set_value name l v)

pub get_line-append :
    (line rest : Bytes) → Lacks b'\n' line → get_line (line ++ (b'\n' ∷ rest)) ≡ (line, some rest)
unfolding get_line
get_line-append [] rest h = refl
get_line-append (c ∷ line) rest h = ground (arith, get_line-append line rest h.1, h.0)

pub strchr-append :
    (name value : Bytes)
    → Lacks b'=' name
    → strchr (name ++ (b'=' ∷ value)) b'=' ≡ some (length name)
unfolding strchr
strchr-append [] value h = refl
strchr-append (c ∷ name) value h = ground (arith, strchr-append name value h.1, h.0)

pub strchr-Lacks : (s : Bytes) → Lacks b'=' s → strchr (text_of s) b'=' ≡ none
unfolding strchr
strchr-Lacks [] h = refl
strchr-Lacks (c ∷ s) h = ground (arith, strchr-Lacks s h.1, h.0)

pub text_of-set :
    (t rest : Bytes) (i : ℕ) → IsText t → length t ≤ i → text_of (set (t ++ (0 ∷ rest)) i 0) ≡ t
text_of-set [] rest zero h k = refl
text_of-set [] rest (suc i) h k = refl
text_of-set (c ∷ t) rest zero h k = absurd (omega arith)
text_of-set (c ∷ t) rest (suc i) h k = ground (arith, h.0, text_of-set t rest i h.1 (omega arith))

pub IsText-take : (n : ℕ) (s : Bytes) → IsText s → IsText (take n s)
IsText-take zero s h = tt
IsText-take (suc n) [] h = tt
IsText-take (suc n) (c ∷ s) h = (h.0, IsText-take n s h.1)

length-filled :
    (value dst : Bytes)
    → length dst ≡ 100
    → length (take 99 value ++ (0 ∷ drop (suc (length (take 99 value))) dst)) ≡ 100
length-filled value dst h = omega (
  arith,
  h,
  length-append (take 99 value) (0 ∷ drop (suc (length (take 99 value))) dst),
  length-drop (suc (length (take 99 value))) dst,
  length-take 99 value,
)

module _ (p : Property) (value : Bytes) (h : length p.val ≡ 100) where
  set_val_text : IsText value → text_of (set_val value p).val ≡ take 99 value
  set_val_text t =
      rw (copy_str_lem p.val value 100 (omega arith) (omega (arith, h)) (omega arith)) (
        text_of-set (take 99 value) _ 99 (IsText-take 99 value t)
          (omega (arith, length-take 99 value)))

  length-set_val : length (set_val value p).val ≡ 100
  length-set_val = rw (length-set (copy_str p.val value 100).0 99 0) (
      rw (copy_str_lem p.val value 100 (omega arith) (omega (arith, h)) (omega arith))
        (length-filled value p.val h))

kept :
    (other name value : Bytes) (v : Option Bytes)
    → same_text other name ≡ false
    → v ≡ set_value other (setting name value) v
kept other name value none h = refl
kept other name value (some old) h = rw h refl

pub names-set_name :
    (name value : Bytes) (ps : List Property) → names (set_name name value ps) ≡ names ps
names-set_name name value [] = refl
names-set_name name value (p ∷ ps) = elim (Bool-cases (same_text name p.name)) [
  | inl hit ↦ rw hit refl
  | inr miss ↦ rw miss (ap (λ t. p.name ∷ t) (names-set_name name value ps))
]

pub set_name-lengths :
    (name value : Bytes) (ps : List Property)
    → All (λ p. length p.val ≡ 100) ps
    → All (λ p. length p.val ≡ 100) (set_name name value ps)
set_name-lengths name value [] h = tt
set_name-lengths name value (p ∷ ps) h = elim (Bool-cases (same_text name p.name)) [
  | inl hit ↦ rw hit (length-set_val p value h.0, h.1)
  | inr miss ↦ rw miss (h.0, set_name-lengths name value ps h.1)
]

pub value_of-set_name :
    (other name value : Bytes) (ps : List Property)
    → All (λ p. length p.val ≡ 100) ps
    → IsText value
    → value_of other (set_name name value ps)
      ≡ set_value other (setting name value) (value_of other ps)
value_of-set_name other name value [] h t = refl
value_of-set_name other name value (p ∷ ps) h t = elim (Bool-cases (same_text name p.name)) [
  | inl hit ↦
      let e = same_text→eq name p.name hit in
      rw hit (elim (Bool-cases (same_text other p.name)) [
        | inl here ↦ ground (arith, e, here, set_val_text p value h.0 t)
        | inr past ↦ rw past (kept other name value (value_of other ps) (ground (arith, e, past)))
      ])
  | inr miss ↦ rw miss (elim (Bool-cases (same_text other p.name)) [
    | inl here ↦ rw here (elim (Bool-cases (same_text other name)) [
      | inl same ↦ absurd (ground (arith, miss, here, sym (same_text→eq other name same)))
      | inr apart ↦ rw apart refl
    ])
    | inr past ↦ rw past (value_of-set_name other name value ps h.1 t)
  ])
]
