-- ===== src/CommList/Free.antt =====
-- The list of communicators: which cell is free, what is removed, and what a connection changes.
use iomessage.Prelude.{
  ℕ, zero, suc, ◌+◌, ◌<◌, ◌≡◌, ◌≢◌, ◌⊎◌, refl, ap, ◌∙◌, Bool, true, false, Option, none, some, [],
  ◌∷◌, arith, if◌then◌else◌, get_elem?, set, All, Bool-cases, inl, inr, ℕ_discrete,
}
use iomessage.CommList.{
  Communicator, CommArray, is_comm_list_full, free_from, search_free, remove_stale_communicators,
  Verdict, refused, failed, served, accept_step,
}

-- A cell is in use, and every cell in front of the place is.
abbrev pub IsUsed : Option Communicator → Type 0
IsUsed c = c ≢ none

abbrev pub IsFirstFree : CommArray → ℕ → Type 0
IsFirstFree cs i =
    (get_elem? cs i ≡ some none)
    × ((j : ℕ) → j < i → (c : Communicator) × (get_elem? cs j ≡ some (some c)))

IsFirstFree-cons :
    (c : Communicator) (cs : CommArray) (i : ℕ)
    → IsFirstFree cs i
    → IsFirstFree (some c ∷ cs) (suc i)
IsFirstFree-cons c cs i (here, before) =
    (here, elim [ zero ↦ λ h. (c, refl) | suc j ↦ λ h. before j (omega (arith, h)) ])

free_from_lem :
    (n : ℕ) (cs : CommArray)
    → (All IsUsed cs × (free_from n cs ≡ none) × (is_comm_list_full cs ≡ true))
      ⊎ ((i : ℕ) × IsFirstFree cs i
          × (free_from n cs ≡ some (n + i))
          × (is_comm_list_full cs ≡ false))
unfolding is_comm_list_full
free_from_lem n [] = inl (tt, refl, refl)
free_from_lem n (none ∷ cs) =
    inr (0, (refl, λ j h. absurd (omega (arith, h))), ap some (omega arith), refl)
free_from_lem n (some c ∷ cs) = elim (free_from_lem (n + 1) cs) [
  | inl (used, e, f) ↦ inl ((λ e. cc, used), e, f)
  | inr (i, first, e, f) ↦ inr (suc i, IsFirstFree-cons c cs i first, e ∙ ap some (omega arith), f)
]

-- Either all cells are in use, `is_comm_list_full` says so and `search_free` answers -1, or
-- `is_comm_list_full` denies it and `search_free` answers the first free cell.
pub search_free_lem :
    (cs : CommArray)
    → (All IsUsed cs × (search_free cs ≡ none) × (is_comm_list_full cs ≡ true))
      ⊎ ((i : ℕ) × IsFirstFree cs i × (search_free cs ≡ some i) × (is_comm_list_full cs ≡ false))
unfolding search_free
search_free_lem cs = elim (free_from_lem 0 cs) [
  | inl h ↦ inl h
  | inr (i, first, e, f) ↦ inr (i, first, e ∙ ap some (omega arith), f)
]

-- What is left in a cell once those that have exited are removed.
abbrev pub left_of : Option Communicator → Option Communicator
left_of none = none
left_of (some c) = if c.exited then none else some c

-- `remove_stale_communicators` leaves in each cell just the communicator that has not exited, and
-- destroys only communicators that have.
pub remove_stale_communicators_lem :
    (cs : CommArray)
    → All (λ c. c.exited ≡ true) (remove_stale_communicators cs).1
      × ((i : ℕ) (c : Option Communicator)
          → get_elem? cs i ≡ some c
          → get_elem? (remove_stale_communicators cs).0 i ≡ some (left_of c))
unfolding remove_stale_communicators
remove_stale_communicators_lem [] = (tt, λ i c e. cc)
remove_stale_communicators_lem (none ∷ cs) =
    let (gone, cells) = remove_stale_communicators_lem cs in
    (gone, elim [ zero ↦ λ c e. ground (arith, e) | suc i ↦ λ c e. cells i c e ])
remove_stale_communicators_lem (some d ∷ cs) =
    let (gone, cells) = remove_stale_communicators_lem cs in
    elim (Bool-cases d.exited) [
      | inl x ↦
          rw x
            ((refl, gone), elim [ zero ↦ λ c e. ground (arith, e, x) | suc i ↦ λ c e. cells i c e ])
      | inr x ↦
          rw x (gone, elim [ zero ↦ λ c e. ground (arith, e, x) | suc i ↦ λ c e. cells i c e ])
    ]

get_elem?-set :
    (cs : CommArray) (i : ℕ) (v w : Option Communicator)
    → get_elem? cs i ≡ some v
    → get_elem? (set cs i w) i ≡ some w
get_elem?-set [] i v w e = cc
get_elem?-set (c ∷ cs) zero v w e = refl
get_elem?-set (c ∷ cs) (suc i) v w e = get_elem?-set cs i v w e

set_other :
    (cs : CommArray) (i j : ℕ) (w : Option Communicator)
    → i ≢ j
    → get_elem? (set cs i w) j ≡ get_elem? cs j
set_other [] i j w h = refl
set_other (c ∷ cs) zero zero w h = absurd (h refl)
set_other (c ∷ cs) zero (suc j) w h = refl
set_other (c ∷ cs) (suc i) zero w h = refl
set_other (c ∷ cs) (suc i) (suc j) w h = set_other cs i j w (λ e. h (ap suc e))

-- What a cell holds runs.
abbrev pub IsRunning : Option Communicator → Type 0
IsRunning none = ⊥
IsRunning (some c) = c.exited ≡ false

left-IsRunning : (c : Option Communicator) → IsUsed (left_of c) → IsRunning c
left-IsRunning none h = absurd (h refl)
left-IsRunning (some c) h = elim (Bool-cases c.exited) [
  | inl gone ↦ absurd (h (rw gone refl))
  | inr on ↦ on
]

All-cell :
    (cs : CommArray) (i : ℕ) (c : Option Communicator)
    → All IsUsed cs
    → get_elem? cs i ≡ some c
    → IsUsed c
All-cell [] i c h e = absurd (cc)
All-cell (d ∷ cs) zero c h e = λ none_there. h.0 (cc)
All-cell (d ∷ cs) (suc i) c h e = All-cell cs i c h.1 e

-- Where every cell is in use once those that exited are removed, a communicator runs in each.
all-IsRunning :
    (cs : CommArray)
    → All IsUsed (remove_stale_communicators cs).0
    → (i : ℕ) (c : Option Communicator) → get_elem? cs i ≡ some c
    → IsRunning c
all-IsRunning cs used i c at = left-IsRunning c (
    All-cell (remove_stale_communicators cs).0 i (left_of c) used
      ((remove_stale_communicators_lem cs).1 i c at))

-- A communicator that has exited is no longer there once the stale ones are removed.
exited-gone :
    (cs : CommArray) (i : ℕ) (c : Communicator)
    → get_elem? cs i ≡ some (some c)
    → c.exited ≡ true
    → get_elem? (remove_stale_communicators cs).0 i ≡ some none
exited-gone cs i c at gone =
    let e : left_of (some c) ≡ none = rw gone refl in
    (remove_stale_communicators_lem cs).1 i (some c) at ∙ ap some e

-- A communicator runs in this cell.
abbrev pub RunsAt : CommArray → ℕ → Communicator → Type 0
RunsAt cs i c = (get_elem? cs i ≡ some (some c)) × (c.exited ≡ false)

-- What must have happened to a connection: it is refused only where a communicator runs in every cell,
-- and served in a cell in which nothing runs.
abbrev pub IsJust : Bool → CommArray → Verdict → CommArray → Type 0
IsJust can_create cs refused cs' =
    (i : ℕ) (c : Option Communicator) → get_elem? cs i ≡ some c → IsRunning c
IsJust can_create cs failed cs' = can_create ≡ false
IsJust can_create cs (served i) cs' =
    ((c : Communicator) → ¬ RunsAt cs i c)
    × (get_elem? cs' i ≡ some (some (record { communicator_id = i; exited = false })))

kept_running :
    (cs : CommArray) (i : ℕ) (c : Communicator)
    → RunsAt cs i c
    → get_elem? (remove_stale_communicators cs).0 i ≡ some (some c)
kept_running cs i c (at, on) =
    let e : left_of (some c) ≡ some c = rw on refl in
    (remove_stale_communicators_lem cs).1 i (some c) at ∙ ap some e

-- Whatever becomes of a connection, no cell holds a communicator that has exited.
abbrev pub IsSwept : CommArray → CommArray → Type 0
IsSwept cs cs' =
    (i : ℕ) (c : Communicator)
    → get_elem? cs i ≡ some (some c)
    → c.exited ≡ true
    → get_elem? cs' i ≢ some (some c)

swept_set :
    (cs : CommArray) (i j : ℕ) (c d : Communicator)
    → get_elem? cs i ≡ some none
    → get_elem? cs j ≡ some none
    → c.exited ≡ true
    → d.exited ≡ false
    → get_elem? (set cs i (some d)) j ≢ some (some c)
swept_set cs i j c d free there gone fresh = elim (ℕ_discrete i j) [
  | yes same ↦ λ e. let put = get_elem?-set cs i none (some d) free in cc
  | no apart ↦ λ e. let other = set_other cs i j (some d) apart in cc
]

-- A new connection is refused only if a communicator runs in every cell, and is served with the index
-- of a cell in which no communicator runs, which then holds the new one; it fails only if no thread can
-- be made. In each case a running communicator keeps its cell, and one that has exited is removed.
pub accept_step-IsJust :
    (can_create : Bool) (cs : CommArray)
    → IsJust can_create cs (accept_step can_create cs).0 (accept_step can_create cs).1
      × ((i : ℕ) (c : Communicator)
          → RunsAt cs i c
          → get_elem? (accept_step can_create cs).1 i ≡ some (some c))
      × IsSwept cs (accept_step can_create cs).1
unfolding accept_step
accept_step-IsJust can_create cs =
    let fresh : CommArray = (remove_stale_communicators cs).0 in
    let swept : IsSwept cs fresh = λ i c at gone e. let out = exited-gone cs i c at gone in cc in
    elim (search_free_lem fresh) [
      | inl (used, e, f) ↦ rw f (all-IsRunning cs used, λ i c h. kept_running cs i c h, swept)
      | inr (i, (here, before), e, f) ↦
          rw (f, e)
            (elim (Bool-cases can_create) [
              | inl can ↦ rw can (
                (λ c h. let k = kept_running cs i c h in cc, get_elem?-set fresh i none _ here),
                λ j c h.
                    let k = kept_running cs j c h in
                    let apart : i ≢ j = λ same. cc in set_other fresh i j _ apart ∙ k,
                λ j c at gone. swept_set fresh i j c _ here (exited-gone cs j c at gone) gone refl,
              )
              | inr cannot ↦ rw cannot (refl, λ j c h. kept_running cs j c h, swept)
            ])
    ]
