-- ===== src/Queue/Refine.antt =====
-- The ring of `shared_queue_t` is a queue: first in, first out.
use iomessage.Prelude.{
  ℕ, ◌+◌, ◌-◌, ◌≤◌, ◌<◌, ◌≡◌, ◌⊎◌, ◌≢◌, Option, none, some, List, [], ◌∷◌, ◌++◌, arith, length,
  get_or, set, ◌==◌, if◌then◌else◌, get_or-set_self, get_or-set_ne, length-append,
}
use iomessage.Queue.{SharedQueue, with_pushed, without_head, push_back_el, pop_el}
use iomessage.Queue.Valid.{IsValid, with_pushed-IsValid, without_head-IsValid}

abbrev pub step : ℕ → ℕ → ℕ
step cap p = if p + 1 == cap then 0 else p + 1

-- `d` steps round the ring lead from `p` to `i`.
abbrev Ahead : ℕ → ℕ → ℕ → ℕ → Type 0
Ahead cap p d i = (p < cap) × (i < cap) × (d < cap) × ((i ≡ p + d) ⊎ (i + cap ≡ p + d))

module _ {A : Type 0} (cap : ℕ) where
  -- The cells from `p` on, going round at `cap`, hold these elements in order.
  abbrev pub Holds : List (Option A) → ℕ → List A → Type 0
  Holds cells p [] = Unit
  Holds cells p (x ∷ xs) = (get_or cells p none ≡ some x) × Holds cells (step cap p) xs

  -- A write behind the elements changes none of them.
  Holds-set :
      (cells : List (Option A)) (p d i : ℕ) (v : Option A) (xs : List A)
      → Ahead cap p d i
      → length xs ≤ d
      → Holds cells p xs
      → Holds (set cells i v) p xs
  Holds-set cells p d i v [] a h o = tt
  Holds-set cells p d i v (x ∷ xs) a h o =
      let other : i ≢ p = ground arith in
      (
        rw (get_or-set_ne cells v none other) o.0,
        Holds-set cells (step cap p) (d - 1) i v xs (ground arith) (omega arith) o.1,
      )

  -- A write just behind the elements adds one.
  Holds-snoc :
      (cells : List (Option A)) (p i : ℕ) (x : A) (xs : List A)
      → Ahead cap p (length xs) i
      → length cells ≡ cap
      → Holds cells p xs
      → Holds (set cells i (some x)) p (xs ++ (x ∷ []))
  Holds-snoc cells p i x [] a len o =
      let e : p ≡ i = ground arith in
      (rw e (get_or-set_self cells i (some x) none (omega arith)), tt)
  Holds-snoc cells p i x (y ∷ xs) a len o =
      let other : i ≢ p = ground arith in
      (
        rw (get_or-set_ne cells (some x) none other) o.0,
        Holds-snoc cells (step cap p) i x xs (ground arith) len o.1,
      )

module _ {A : Type 0} where
  -- The valid ring `q` holds the elements `xs`, oldest first.
  pub record Represents (q : SharedQueue A) (xs : List A) : Type 0 where
    pub valid : IsValid q
    pub elements : Holds q.capacity q.queue q.head xs
    pub count : q.size ≡ length xs

  -- `push_back_el` puts the element behind the others, if there is room, and fails its assert if not.
  pub push_back_el_refines :
      (el : A) (q : SharedQueue A) (xs : List A)
      → Represents q xs
      → (q.size < q.capacity
          → (push_back_el el q ≡ some (with_pushed el q))
            × Represents (with_pushed el q) (xs ++ (el ∷ [])))
        × (q.capacity ≤ q.size → push_back_el el q ≡ none)
  unfolding push_back_el
  push_back_el_refines el q xs r = (
    λ h. (
      ground arith,
      record {
        valid = with_pushed-IsValid el q v h;
        elements =
            Holds-snoc q.capacity q.queue q.head q.tail el xs (ground arith) v.cells r.elements;
        count = omega (arith, r.count, length-append xs (el ∷ []));
      },
    ),
    λ h. ground arith,
  )
    where
      v : IsValid q
      v = r.valid

  -- `pop_el` takes the oldest element.
  pub pop_el_refines :
      (q : SharedQueue A) (x : A) (xs : List A)
      → Represents q (x ∷ xs)
      → (pop_el q ≡ some (some x, without_head q)) × Represents (without_head q) xs
  unfolding pop_el
  pop_el_refines q x xs r = (
    ground (arith, r),
    record {
      valid = without_head-IsValid q v (omega (arith, r.count));
      elements =
          Holds-set q.capacity q.queue (step q.capacity q.head) (q.capacity - 1) q.head none xs
            (ground arith) (omega (arith, r.count, v)) r.elements.1;
      count = omega (arith, r.count);
    },
  )
    where
      v : IsValid q
      v = r.valid
