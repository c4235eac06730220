-- ===== src/Memory.antt =====
-- The C heap as the program sees it: `malloc`, `realloc`, `free`, and failed asserts.
-- What an allocation answers is up to the C library: it is a parameter of the state, for each call
-- by its number and the size that it asks for. `none` is NULL.
pub mod Runs
use iomessage.Prelude.{
  ℕ, zero, suc, ◌+◌, ◌<◌, ◌^◌, ◌≡◌, Option, none, some, List, [], ◌∷◌, ◌==◌, if◌then◌else◌, Bytes,
  tabulate,
}

-- `live` are the blocks that are allocated and not freed, `garbage` what fresh memory holds.
pub record Os : Type 0 where
  pub answers : ℕ → ℕ → Option ℕ
  pub calls : ℕ
  pub live : List ℕ
  pub garbage : ℕ → ℕ

-- A call returns, or stops the program by a failed assert. `runs_out` is the model's fuel.
pub data Outcome {ℓ} (A : Type ℓ) : Type ℓ where
  done : A → Os → Outcome A
  aborts : Outcome A
  runs_out : Outcome A

abbrev pub M : Type 0 → Type 0
M A = Os → Outcome A

abbrev pub pure : {A : Type 0} → A → M A
pure a os = done a os

infixl 5 ◌>>=◌ ◌>>◌
abbrev pub ◌>>=◌ : {A B : Type 0} → M A → (A → M B) → M B
◌>>=◌ m f os = elim (m os) [ done a os' ↦ f a os' | aborts ↦ aborts | runs_out ↦ runs_out ]

abbrev pub ◌>>◌ : {B : Type 0} → M (Unit {0}) → M B → M B
m >> k = m >>= λ _. k

abbrev pub remove : ℕ → List ℕ → List ℕ
remove a [] = []
remove a (b ∷ bs) = if b == a then bs else b ∷ remove a bs

abbrev add_block : Option ℕ → List ℕ → List ℕ
add_block none live = live
add_block (some a) live = a ∷ live

abbrev pub malloc : ℕ → M (Option ℕ)
malloc n os =
    let a = os.answers os.calls n in
    done a (record os { calls = os.calls + 1; live = add_block a os.live })

abbrev pub free : ℕ → M (Unit {0})
free a os = done tt (record os { live = remove a os.live })

abbrev moved : ℕ → Option ℕ → List ℕ → List ℕ
moved old none live = live
moved old (some a) live = a ∷ remove old live

abbrev pub realloc : ℕ → ℕ → M (Option ℕ)
realloc old n os =
    let a = os.answers os.calls n in
    done a (record os { calls = os.calls + 1; live = moved old a os.live })

-- The bytes of a block that nothing has been written to.
abbrev pub fresh_bytes : ℕ → ℕ → Os → Bytes
fresh_bytes a n os = tabulate n (λ i. os.garbage (a + i))

-- What the C library promises of the sizes that a program asks for: a block lies in user space, the
-- lower half of the addresses. That an allocation fails is not promised, nor that it does not.
abbrev pub IsHonest : (ℕ → ℕ → Option ℕ) → Type 0
IsHonest answers = (i n a : ℕ) → n < 2 ^ 62 → answers i n ≡ some a → a + n < 2 ^ 63
