-- ===== src/Arena/Extends.antt =====
-- What an allocation leaves as it was: the pages, and what lies on them.
use iomessage.Prelude.{
  ℕ, zero, suc, ◌≤◌, ◌≡◌, refl, ◌∙◌, some, List, [], ◌∷◌, ◌++◌, arith, get_elem?, set,
}
use iomessage.Arena.{Page, Arena}
use iomessage.Arena.Valid.{get_elem?-append}

-- Every page stays where it is and keeps what lies on it.
abbrev pub Extends : Arena → Arena → Type 0
Extends a b =
    (j : ℕ) (p : Page)
    → get_elem? a.pages j ≡ some p
    → (q : Page) × (get_elem? b.pages j ≡ some q)
      × (q.region ≡ p.region)
      × (p.free_mem ≤ q.free_mem)

pub Extends-refl : (a : Arena) → Extends a a
Extends-refl a j p at = (p, at, refl, omega arith)

pub Extends-trans : (a b c : Arena) → Extends a b → Extends b c → Extends a c
Extends-trans a b c h k j p at =
    let (q, at', r, f) = h j p at in
    let (u, at'', r', f') = k j q at' in (u, at'', r' ∙ r, omega (arith, f, f'))

pub Extends-append : (a b : Arena) (ps : List Page) → b.pages ≡ a.pages ++ ps → Extends a b
Extends-append a b ps e j p at = (p, rw e (get_elem?-append a.pages ps j at), refl, omega arith)

pub Extends_set :
    (ps : List Page) (i : ℕ) (p q : Page)
    → get_elem? ps i ≡ some p
    → q.region ≡ p.region
    → p.free_mem ≤ q.free_mem
    → (j : ℕ) (o : Page) → get_elem? ps j ≡ some o
    → (u : Page) × (get_elem? (set ps i q) j ≡ some u)
      × (u.region ≡ o.region)
      × (o.free_mem ≤ u.free_mem)
Extends_set [] i p q at r f j o e = cc
Extends_set (x ∷ ps) zero p q at r f zero o e = (q, refl, ground arith, ground arith)
Extends_set (x ∷ ps) zero p q at r f (suc j) o e = (o, e, refl, omega arith)
Extends_set (x ∷ ps) (suc i) p q at r f zero o e = (o, e, refl, omega arith)
Extends_set (x ∷ ps) (suc i) p q at r f (suc j) o e = Extends_set ps i p q at r f j o e

pub get_elem?-set :
    (ps : List Page) (i : ℕ) (p q : Page)
    → get_elem? ps i ≡ some p
    → get_elem? (set ps i q) i ≡ some q
get_elem?-set [] i p q e = cc
get_elem?-set (x ∷ ps) zero p q e = refl
get_elem?-set (x ∷ ps) (suc i) p q e = get_elem?-set ps i p q e
