-- ===== src/Arena/Valid.antt =====
-- Well-formed pages and arenas, and what the operations on pages make of them.
use iomessage.Prelude.{
  ℕ, zero, suc, ◌+◌, ◌≤◌, ◌<◌, ◌^◌, ◌%◌, ◌≡◌, refl, false, none, some, List, [], ◌∷◌, ◌++◌, arith,
  length, get_elem?, set, take, All, ltb,
}
use mathlib.Core.Path.{subst}
use iomessage.Arena.{Page, Arena, add_size, calculate_align_offset, used_size, bump}
use iomessage.Arena.Align.{calculate_align_offset_lem}

pub record IsPage (p : Page) : Type 0 where
  pub size_le : p.size ≤ p.capacity
  pub filled : p.free_mem ≡ p.region + p.size
  pub in_space : p.region + p.capacity < 2 ^ 63

-- Every page is in order, and the head's `prev_region` points to the page that ends the chain.
pub record IsArena (a : Arena) : Type 0 where
  pub pages_valid : All IsPage a.pages
  pub last_ends : a.last + 1 ≡ length a.pages

pub All-append {ℓ} :
    {A : Type 0} (P : A → Type ℓ) (xs ys : List A) → All P xs → All P ys → All P (xs ++ ys)
All-append P [] ys h k = k
All-append P (x ∷ xs) ys h k = (h.0, All-append P xs ys h.1 k)

pub All-set {ℓ} :
    {A : Type 0} (P : A → Type ℓ) (xs : List A) (i : ℕ) (v : A)
    → All P xs
    → P v
    → All P (set xs i v)
All-set P [] i v h k = tt
All-set P (x ∷ xs) zero v h k = (k, h.1)
All-set P (x ∷ xs) (suc i) v h k = (h.0, All-set P xs i v h.1 k)

pub All-take {ℓ} :
    {A : Type 0} (P : A → Type ℓ) (n : ℕ) (xs : List A) → All P xs → All P (take n xs)
All-take P zero xs h = tt
All-take P (suc n) [] h = tt
All-take P (suc n) (x ∷ xs) h = (h.0, All-take P n xs h.1)

pub All_elem {ℓ} :
    {A : Type 0} (P : A → Type ℓ) (xs : List A) {x : A} (i : ℕ)
    → All P xs
    → get_elem? xs i ≡ some x
    → P x
All_elem P [] {x} i h e = cc
All_elem P (y ∷ xs) {x} zero h e = let same : y ≡ x = cc in subst P same h.0
All_elem P (y ∷ xs) {x} (suc i) h e = All_elem P xs i h.1 e

pub get_elem?-none : {A : Type 0} (xs : List A) (i : ℕ) → get_elem? xs i ≡ none → length xs ≤ i
get_elem?-none [] i e = omega arith
get_elem?-none (x ∷ xs) zero e = cc
get_elem?-none (x ∷ xs) (suc i) e = omega (arith, get_elem?-none xs i e)

pub get_elem?-past : {A : Type 0} (xs : List A) (i : ℕ) → length xs ≤ i → get_elem? xs i ≡ none
get_elem?-past [] i h = refl
get_elem?-past (x ∷ xs) zero h = absurd (omega arith)
get_elem?-past (x ∷ xs) (suc i) h = get_elem?-past xs i (omega arith)

pub get_elem?-some :
    {A : Type 0} (xs : List A) {x : A} (i : ℕ) → get_elem? xs i ≡ some x → i < length xs
get_elem?-some [] i e = cc
get_elem?-some (y ∷ xs) zero e = omega arith
get_elem?-some (y ∷ xs) (suc i) e = omega (arith, get_elem?-some xs i e)

pub get_elem?-last :
    {A : Type 0} (xs : List A) (x : A) → get_elem? (xs ++ (x ∷ [])) (length xs) ≡ some x
get_elem?-last [] x = refl
get_elem?-last (y ∷ xs) x = get_elem?-last xs x

pub get_elem?-append :
    {A : Type 0} (xs ys : List A) {x : A} (i : ℕ)
    → get_elem? xs i ≡ some x
    → get_elem? (xs ++ ys) i ≡ some x
get_elem?-append [] ys i e = cc
get_elem?-append (y ∷ xs) ys zero e = e
get_elem?-append (y ∷ xs) ys (suc i) e = get_elem?-append xs ys i e

-- What the block of a page takes, for sizes that do not wrap.
module _ (align sz : ℕ) (pos : 0 < align) (small : sz + align < 2 ^ 62) where
  pub used_size_lem :
      (p : Page)
      → IsPage p
      → (used_size align sz p ≡ sz + calculate_align_offset p.free_mem align)
        × (calculate_align_offset p.free_mem align < align)
        × ((p.free_mem + calculate_align_offset p.free_mem align) % align ≡ 0)
  used_size_lem p v =
      let off = calculate_align_offset_lem p.free_mem align pos (omega arith) in
      (omega (arith, off.0), off.0, off.1)

  pub bump-IsPage :
      (p : Page)
      → IsPage p
      → ltb p.capacity (add_size p.size (used_size align sz p)) ≡ false
      → IsPage (bump (used_size align sz p) p)
  bump-IsPage p v fits = let u = used_size_lem p v in ground (arith, u)
