-- ===== src/Arena/Calls.antt =====
-- The arena's calls as their callers need them.
use Prim.Native.Nat.{bit_and}
use iomessage.Prelude.{
  ℕ, ◌+◌, ◌<◌, ◌^◌, ◌≡◌, refl, ◌∙◌, Option, none, some, List, [], ◌∷◌, arith, length,
}
use iomessage.Memory.{Os, Outcome, done, aborts, runs_out, IsHonest, remove}
use iomessage.Memory.Runs.{Runs, Failed, Later}
use iomessage.Arena.{
  Page, Arena, sub_size, create_arena, arena_alloc, arena_destroy, arena_reset, free_pages,
}
use iomessage.Arena.Valid.{IsArena}
use iomessage.Arena.Loop.{Ends, arena_alloc-Ends}
use iomessage.Arena.Chain.{IsCreated, create_arena-IsCreated}

free_pages_runs :
    (ps : List Page) (os : Os)
    → Runs (free_pages ps os) (λ r os'. (os'.answers ≡ os.answers) × (os'.calls ≡ os.calls))
free_pages_runs [] os = (tt, os, refl, (refl, refl))
free_pages_runs (p ∷ ps) os =
    free_pages_runs ps (record os { live = remove p.address (remove p.region os.live) })

first_page : (ps : List Page) → 0 < length ps → (p : Page) × (qs : List Page) × (ps ≡ p ∷ qs)
first_page [] h = absurd (omega (arith, h))
first_page (p ∷ ps) h = (p, ps, refl)

-- An arena in order has a page, so that it can be destroyed.
pub arena_destroy_runs :
    (a : Arena) (os : Os)
    → IsArena a
    → Runs (arena_destroy a os) (λ r os'. (os'.answers ≡ os.answers) × (os'.calls ≡ os.calls))
unfolding arena_destroy arena_reset
arena_destroy_runs a os v =
    let (p, ps, e) = first_page a.pages (omega (arith, v.last_ends)) in
    let (_, mid, run, same) = free_pages_runs ps os in
    let (_, end, run', same') =
      free_pages_runs ((record p { free_mem = p.region; size = 0 }) ∷ []) mid in
    (tt, end, ground (arith, e, run, run'), (same'.0 ∙ same.0, same'.1 ∙ same.1))

-- What holds of the compiler's alignment and of the blocks that the C library hands out.
pub record IsSetup (max_align : ℕ) (answers : ℕ → ℕ → Option ℕ) : Type 0 where
  pub positive : 0 < max_align
  pub small : max_align < 2 ^ 60
  pub power : bit_and max_align (sub_size max_align 1) ≡ 0
  pub honest : IsHonest answers

-- NULL, with an allocation of this call that failed, or an arena in order.
abbrev pub IsNew : (ℕ → ℕ → Option ℕ) → ℕ → Option Arena → Os → Type 0
IsNew answers from none os' = Failed answers from os'.calls × Later answers from os'
IsNew answers from (some a) os' = IsArena a × Later answers from os'

-- NULL, with an allocation of this call that failed, or a block; in both cases an arena in order.
abbrev pub IsBlock : (ℕ → ℕ → Option ℕ) → ℕ → Option ℕ → Arena → Os → Type 0
IsBlock answers from none b os' = Failed answers from os'.calls × IsArena b × Later answers from os'
IsBlock answers from (some p) b os' = IsArena b × Later answers from os'

module _ (max_align : ℕ) (answers : ℕ → ℕ → Option ℕ) (setup : IsSetup max_align answers) where
  created :
      (os : Os)
      → os.answers ≡ answers
      → (o : Outcome (Option Arena)) → IsCreated os o
      → Runs o (IsNew answers os.calls)
  created os same (done none os') h = (none, os', refl, (rw same at (h.0), (h.2.0 ∙ same, h.2.1)))
  created os same (done (some a) os') (v, p, _, _, _, kept) =
      (some a, os', refl, (v, (kept.0 ∙ same, kept.1)))
  created os same aborts h = absurd h
  created os same runs_out h = absurd h

  pub create_arena_runs :
      (os : Os) → os.answers ≡ answers → Runs (create_arena os) (IsNew answers os.calls)
  create_arena_runs os same =
      created os same (create_arena os) (create_arena-IsCreated os (rw same setup.honest))

  ended :
      (sz : ℕ) (small : sz + max_align < 2 ^ 62) (from : ℕ) (a : Arena)
      (o : Outcome (Option ℕ × Arena))
      → Ends max_align sz setup.positive small answers setup.honest from a o
      → Runs o (λ r. IsBlock answers from r.0 r.1)
  ended sz small from a (done (none, b) os') (v, same, _, refused) =
      ((none, b), os', refl, (refused, v, same))
  ended sz small from a (done (some p, b) os') (v, same, _, _) = ((some p, b), os', refl, (v, same))
  ended sz small from a aborts h = absurd h
  ended sz small from a runs_out h = absurd h

  pub arena_alloc_runs :
      (a : Arena) (sz : ℕ) (os : Os)
      → IsArena a
      → 0 < sz
      → sz < 2 ^ 60
      → os.answers ≡ answers
      → Runs (arena_alloc max_align a sz os) (λ r. IsBlock answers os.calls r.0 r.1)
  arena_alloc_runs a sz os v pos few same =
      let room : sz + max_align < 2 ^ 62 = omega (arith, few, setup.small) in
      ended sz room os.calls a (arena_alloc max_align a sz os) (
        arena_alloc-Ends max_align sz setup.positive room answers setup.honest setup.power pos a os
          v same)
