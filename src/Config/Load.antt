-- ===== src/Config/Load.antt =====
-- `init_properties_by_file`: the whole loop, and what the getters find afterwards.
use iomessage.Prelude.{
  ℕ, zero, suc, ◌<◌, ◌≡◌, refl, sym, ap, ◌∙◌, arith, Bool, true, Option, none, some, List, [], ◌∷◌,
  ◌++◌, All, Bytes, length, drop, length-append, take-append,
}
use iomessage.Text.{strchr}
use iomessage.Request.Types.{text_of}
use iomessage.Request.Params.Pairs.{differs}
use iomessage.RecvBuf.Block.{IsText-append, text_of_text}
use iomessage.Config.{
  Property, property_list_def, search_property, property_val, val_at, set_at, apply_setting,
  apply_line, Loaded, loaded, lines_loop, init_properties_by_file, get_property_by_name,
}
use iomessage.Config.Lines.{
  value_of, names, set_name, IsList, Line, comment, malformed, setting, print_line, print_lines,
  Lacks, IsLine, set_value, value_after, get_line-append, strchr-append, strchr-Lacks,
  names-set_name, set_name-lengths, value_of-set_name,
}

search-names :
    (name : Bytes) (ps qs : List Property)
    → names ps ≡ names qs
    → search_property name ps ≡ search_property name qs
unfolding search_property
search-names name [] [] e = refl
search-names name [] (q ∷ qs) e = cc
search-names name (p ∷ ps) [] e = cc
search-names name (p ∷ ps) (q ∷ qs) e = ground (arith, e, search-names name ps qs)

search-value :
    (name : Bytes) (ps : List Property)
    → elim (search_property name ps) [ none ↦ none | some i ↦ val_at ps i ] ≡ value_of name ps
unfolding search_property
search-value name [] = refl
search-value name (p ∷ ps) = ground (arith, search-value name ps)

search-set :
    (name value : Bytes) (ps : List Property)
    → elim (search_property name ps) [ none ↦ ps | some i ↦ set_at ps i value ]
      ≡ set_name name value ps
unfolding search_property
search-set name value [] = refl
search-set name value (p ∷ ps) = ground (arith, search-set name value ps)

property_val-value :
    (ps : List Property) (name : Bytes) → IsList ps → property_val ps name ≡ value_of name ps
unfolding property_val get_property_by_name
property_val-value ps name h =
    ground (arith, search-names name ps property_list_def h.0, search-value name ps)

set_name-IsList :
    (name value : Bytes) (ps : List Property) → IsList ps → IsList (set_name name value ps)
set_name-IsList name value ps h =
    (names-set_name name value ps ∙ h.0, set_name-lengths name value ps h.1)

-- The list after a line, as one pass.
abbrev after_line : List Property → Line → List Property
after_line ps (comment text) = ps
after_line ps (malformed text) = ps
after_line ps (setting name value) = set_name name value ps

drop-suc {ℓ} : {A : Type ℓ} (xs ys : List A) (y : A) → drop (suc (length xs)) (xs ++ (y ∷ ys)) ≡ ys
drop-suc [] ys y = refl
drop-suc (x ∷ xs) ys y = drop-suc xs ys y

module _ (ps : List Property) (name value : Bytes) (h : IsLine (setting name value)) where
  setting-text : text_of (name ++ (b'=' ∷ value)) ≡ name ++ (b'=' ∷ value)
  setting-text =
      text_of_text (name ++ (b'=' ∷ value))
        (IsText-append name (b'=' ∷ value) h.0.0 (omega arith, h.1.0))

  apply_setting-set :
      apply_setting ps
        (text_of (name ++ (b'=' ∷ value)))
        (strchr (text_of (name ++ (b'=' ∷ value))) b'=')
      ≡ set_name name value ps
  apply_setting-set = rw setting-text (
      rw (strchr-append name value h.0.2) (
        rw (apply_setting, take-append name (b'=' ∷ value))
          (ap (λ v. elim (search_property name ps) [ none ↦ ps | some i ↦ set_at ps i v ])
              (drop-suc name value b'=')
            ∙ search-set name value ps)))

apply_line-setting :
    (ps : List Property) (name value : Bytes)
    → IsLine (setting name value)
    → apply_line ps (name ++ (b'=' ∷ value)) ≡ set_name name value ps
unfolding apply_line
apply_line-setting ps [] value h = apply_setting-set ps [] value h
apply_line-setting ps (c ∷ name) value h =
    ground (arith, apply_setting-set ps (c ∷ name) value h, h.0.3)

apply_line-after :
    (ps : List Property) (l : Line) → IsLine l → apply_line ps (print_line l) ≡ after_line ps l
unfolding apply_line
apply_line-after ps (comment text) h = refl
apply_line-after ps (malformed []) h = refl
apply_line-after ps (malformed (c ∷ text)) h = ground (arith, strchr-Lacks (c ∷ text) h.1)
apply_line-after ps (setting name value) h = apply_line-setting ps name value h

Lacks-append : (ch : ℕ) (s t : Bytes) → Lacks ch s → Lacks ch t → Lacks ch (s ++ t)
Lacks-append ch [] t h k = k
Lacks-append ch (c ∷ s) t h k = (h.0, Lacks-append ch s t h.1 k)

print_line-Lacks : (l : Line) → IsLine l → Lacks b'\n' (print_line l)
print_line-Lacks (comment text) h = (differs b'#' b'\n' refl, h)
print_line-Lacks (malformed text) h = h.0
print_line-Lacks (setting name value) h =
    Lacks-append b'\n' name (b'=' ∷ value) h.0.1 (differs b'=' b'\n' refl, h.1.1)

skipped :
    (v : Option Bytes) (name text : Bytes)
    → (set_value name (comment text) v ≡ v) × (set_value name (malformed text) v ≡ v)
skipped none name text = (refl, refl)
skipped (some old) name text = (refl, refl)

value_of-after :
    (name : Bytes) (ps : List Property) (l : Line)
    → IsLine l
    → IsList ps
    → value_of name (after_line ps l) ≡ set_value name l (value_of name ps)
value_of-after name ps (comment text) h k = sym (skipped (value_of name ps) name text).0
value_of-after name ps (malformed text) h k = sym (skipped (value_of name ps) name text).1
value_of-after name ps (setting other value) h k = value_of-set_name name other value ps k.1 h.1.0

after_line-IsList : (ps : List Property) (l : Line) → IsList ps → IsList (after_line ps l)
after_line-IsList ps (comment text) h = h
after_line-IsList ps (malformed text) h = h
after_line-IsList ps (setting name value) h = set_name-IsList name value ps h

-- What the loop must end with from a list on: the list is still a list of the program's properties,
-- and each name has the value that the lines make of the one it had.
abbrev Sets : List Property → List Line → Loaded → Type 0
Sets ps ls r =
    (qs : List Property) × (r ≡ loaded qs)
    × IsList qs
    × ((name : Bytes) → value_of name qs ≡ value_after name ls (value_of name ps))

lines_loop-line :
    (fuel : ℕ) (gives : ℕ → Bool) (ps : List Property) (line rest : Bytes)
    → gives fuel ≡ true
    → Lacks b'\n' line
    → lines_loop (suc fuel) gives ps (some (line ++ (b'\n' ∷ rest)))
      ≡ lines_loop fuel gives (apply_line ps line) (some rest)
unfolding lines_loop
lines_loop-line fuel gives ps line rest g h = ground (arith, g, get_line-append line rest h)

lines_loop-Sets :
    (fuel : ℕ) (gives : ℕ → Bool) (ps : List Property) (ls : List Line)
    → ((i : ℕ) → gives i ≡ true)
    → All IsLine ls
    → IsList ps
    → length ls < fuel
    → Sets ps ls (lines_loop fuel gives ps (some (print_lines ls)))
unfolding lines_loop
lines_loop-Sets zero gives ps ls g h k lt = absurd (omega arith)
lines_loop-Sets (suc fuel) gives ps [] g h k lt =
    rw (g fuel, lines_loop) (ps, refl, k, λ name. refl)
lines_loop-Sets (suc fuel) gives ps (l ∷ ls) g h k lt =
    let (qs, ends, list, all) =
      lines_loop-Sets fuel gives (after_line ps l) ls g h.1 (after_line-IsList ps l k)
        (omega arith) in
    (
      qs,
      lines_loop-line fuel gives ps (print_line l) (print_lines ls) (g fuel)
            (print_line-Lacks l h.0)
          ∙ ap (λ qs. lines_loop fuel gives qs (some (print_lines ls))) (apply_line-after ps l h.0)
          ∙ ends,
      list,
      λ name. all name ∙ ap (value_after name ls) (value_of-after name ps l h.0 k),
    )

enough : (ls : List Line) → length ls < suc (length (print_lines ls))
enough [] = omega arith
enough (l ∷ ls) = omega (arith, length-append (print_line l) (b'\n' ∷ print_lines ls), enough ls)

-- What `init_properties_by_file` must return and leave: the list of the program's properties, in which
-- `get_property_by_name` finds for each name the value that the lines make of its default.
abbrev pub IsConfigured : List Line → ℕ × Loaded → Type 0
IsConfigured ls r =
    (r.0 ≡ 0)
    × ((ps : List Property) × (r.1 ≡ loaded ps)
        × ((name : Bytes)
            → property_val ps name ≡ value_after name ls (property_val property_list_def name)))

defaults-IsList : IsList property_list_def
defaults-IsList = (refl, (refl, (refl, (refl, (refl, (refl, (refl, (refl, tt))))))))

-- If the file is made of comments, lines without a `=`, and settings whose value has no NUL, and there is
-- memory for each line, then `init_properties_by_file` returns 0, and afterwards the value of each name
-- is that of its last setting in the file, cut to 99 bytes, or the default, if the file does not set it.
-- A name that no property has stays without a value, whatever the file sets.
pub init_properties_by_file-IsConfigured :
    (gives : ℕ → Bool) (ls : List Line)
    → ((i : ℕ) → gives i ≡ true)
    → All IsLine ls
    → IsConfigured ls (init_properties_by_file gives (some (print_lines ls)))
unfolding init_properties_by_file
init_properties_by_file-IsConfigured gives ls g h =
    let (ps, ends, list, all) =
      lines_loop-Sets (suc (length (print_lines ls))) gives property_list_def ls g h defaults-IsList
        (enough ls) in
    (
      refl,
      (
        ps,
        ends,
        λ name.
            property_val-value ps name list
            ∙ (all name
                ∙ ap (value_after name ls)
                    (sym (property_val-value property_list_def name defaults-IsList))),
      ),
    )
