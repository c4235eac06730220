-- ===== src/Arena/Tests.antt =====
-- server/src/arena.c at concrete values: an address space that grants eight small blocks.
use iomessage.Prelude.{
  ℕ, ◌+◌, ◌*◌, ◌<◌, ◌≡◌, ◌↔◌, refl, Option, none, some, [], ◌∷◌, ◌++◌, arith, length, ltb,
  if◌then◌else◌, ◌&&◌,
}
use iomessage.Memory.{Os, done, IsHonest}
use iomessage.Arena.{
  Page, Arena, fresh_page, create_arena, arena_give_child, inc_arena, arena_alloc, arena_destroy,
}
use iomessage.Arena.Valid.{IsPage, IsArena}
use iomessage.Arena.Loop.{Ends, arena_alloc-Ends}
use iomessage.Arena.Chain.{
  IsCreated, create_arena-IsCreated, arena_give_child_lem, inc_arena_drops, arena_destroy_lem,
}

abbrev pub grants : ℕ → ℕ → Option ℕ
grants k n = if ltb k 8 && ltb n 4096 then some (4096 * (k + 1)) else none

pub grants-IsHonest : IsHonest grants
grants-IsHonest k n a lt e = ground arith

abbrev pub small_os : Os
small_os = record { answers = grants; calls = 0; live = []; garbage = λ i. 170 }

abbrev page : ℕ → Page
page k = fresh_page (8192 * k) (8192 * k + 4096)

page-IsPage : (k : ℕ) → k < 8 → IsPage (page k)
page-IsPage k lt = record {
  size_le = omega arith;
  filled = omega arith;
  in_space = omega (arith, lt);
}

abbrev pub one : ℕ → Arena
one k = record { pages = page k ∷ []; last = 0 }

pub one-IsArena : (k : ℕ) → k < 8 → IsArena (one k)
one-IsArena k lt = record { pages_valid = (page-IsPage k lt, tt); last_ends = refl }

arena_alloc-Ends_example :
    Ends 16 2000
      (omega arith)
      (omega arith)
      grants
      grants-IsHonest
      0
      (one 0)
      (arena_alloc 16 (one 0) 2000 small_os)
arena_alloc-Ends_example =
    arena_alloc-Ends 16 2000 (omega arith) (omega arith) grants grants-IsHonest refl (omega arith)
      (one 0) small_os (one-IsArena 0 (omega arith)) refl

create_arena-IsCreated_example : IsCreated small_os (create_arena small_os)
create_arena-IsCreated_example = create_arena-IsCreated small_os grants-IsHonest

arena_give_child_lem_example :
    ((arena_give_child (one 1) (one 2)).pages ≡ page 1 ∷ page 2 ∷ [])
    × (IsArena (arena_give_child (one 1) (one 2)) ↔ (length (one 2).pages ≡ 1))
arena_give_child_lem_example =
    arena_give_child_lem (one 1) (one 2) (one-IsArena 1 (omega arith)) (one-IsArena 2 (omega arith))

abbrev two : Arena
two = record { pages = page 2 ∷ page 3 ∷ []; last = 1 }

abbrev after : Arena × Os
after = (
  record { pages = page 1 ∷ page 2 ∷ fresh_page 4096 8192 ∷ []; last = 2 },
  record small_os { calls = 2; live = 8192 ∷ 4096 ∷ [] },
)

next_page : inc_arena (arena_give_child (one 1) two) small_os ≡ done (some after.0) after.1
unfolding inc_arena arena_give_child
next_page = refl

inc_arena_drops_example : (q : Page) × (after.0.pages ≡ (page 1 ∷ page 2 ∷ []) ++ (q ∷ []))
inc_arena_drops_example =
    inc_arena_drops (one 1) two (page 2) (page 3) [] small_os after.1 after.0
      (one-IsArena 1 (omega arith)) refl next_page

abbrev held : Os
held = record small_os { live = 20480 ∷ 16384 ∷ 12288 ∷ 8192 ∷ 7 ∷ [] }

arena_destroy_lem_example :
    (os' : Os) × (arena_destroy (record { pages = page 1 ∷ page 2 ∷ []; last = 1 }) held
      ≡ done tt os')
    × (os'.live ≡ 7 ∷ [])
arena_destroy_lem_example = arena_destroy_lem (page 1) (page 2 ∷ []) 1 held (7 ∷ []) refl
