-- ===== src/Arena.antt =====
-- server/src/arena.c and arena.h: a bump allocator over a chain of pages.
pub mod Align
pub mod Valid
pub mod Alloc
pub mod Extends
pub mod Loop
pub mod Chain
pub mod Calls
pub mod Wrap
pub mod Tests
use Prim.Native.Nat.{bit_and}
use iomessage.Prelude.{
  ℕ, zero, suc, ◌+◌, ◌-◌, ◌*◌, ◌/◌, ◌%◌, ◌^◌, Bool, true, false, not, ◌||◌, Option, none, some,
  List, [], ◌∷◌, ◌++◌, ◌==◌, if◌then◌else◌, ltb, leb, length, get_elem?, set, take, drop, Bytes,
  replicate,
}
use iomessage.Memory.{
  Os, Outcome, done, aborts, runs_out, M, pure, ◌>>=◌, ◌>>◌, malloc, free, realloc,
}

-- `ARENA_DEF_PAGE_SIZE`, and `sizeof(arena_t)` on a 64-bit machine
abbrev pub page_size : ℕ
page_size = 1000

abbrev pub arena_struct_size : ℕ
arena_struct_size = 48

-- `arena_t` without its links. `address` is where the struct itself lies.
pub record Page : Type 0 where
  pub address : ℕ
  pub region : ℕ
  pub free_mem : ℕ
  pub size : ℕ
  pub capacity : ℕ

-- The pages in the order of `next_region`, from the head on, and the place in that order of the page
-- that the head's `prev_region` points to. The code reads no other `prev_region` than the head's and
-- that of the page it points to, which is the page in front of that one.
pub record Arena : Type 0 where
  pub pages : List Page
  pub last : ℕ

abbrev pub add_size : ℕ → ℕ → ℕ
add_size a b = (a + b) % 2 ^ 64

abbrev pub sub_size : ℕ → ℕ → ℕ
sub_size a b = (a + 2 ^ 64 - b) % 2 ^ 64

-- `(raw + align - 1) & ~(align - 1)` rounds down to a multiple of `align`, a power of two here.
unfoldable pub calculate_align_offset : ℕ → ℕ → ℕ
calculate_align_offset raw align =
    let up = add_size raw (sub_size align 1) in sub_size (up - up % align) raw

abbrev pub fresh_page : ℕ → ℕ → Page
fresh_page address region = record {
  address = address;
  region = region;
  free_mem = region;
  size = 0;
  capacity = page_size;
}

-- The two allocations that a new page takes; the first is given back if the second fails.
abbrev pub new_page : M (Option Page)
new_page = do
  made ← malloc arena_struct_size
  elim made [
    | none ↦ pure none
    | some address ↦ do
      region ← malloc page_size
      elim region [
        | none ↦ do free address; pure none
        | some r ↦ pure (some (fresh_page address r))
      ]
  ]

unfoldable pub create_arena : M (Option Arena)
create_arena = do
  page ← new_page
  elim page [ none ↦ pure none | some p ↦ pure (some (record { pages = p ∷ []; last = 0 })) ]

-- What stood behind the page at `last` is no longer in the chain.
unfoldable pub arena_give_child : Arena → Arena → Arena
arena_give_child parent child = record {
  pages = take (suc parent.last) parent.pages ++ child.pages;
  last = suc parent.last;
}

unfoldable pub inc_arena : Arena → M (Option Arena)
inc_arena a = do
  page ← new_page
  elim page [
    | none ↦ pure none
    | some p ↦
        pure (some (record { pages = take (suc a.last) a.pages ++ (p ∷ []); last = suc a.last }))
  ]

-- The assert: there is a second page.
unfoldable pub dec_arena : Arena → M Arena
dec_arena a os = if ltb (length a.pages) 2 then aborts else elim (get_elem? a.pages a.last) [
  | none ↦ aborts
  | some p ↦
      let shorter : Arena = record { pages = take a.last a.pages; last = a.last - 1 } in
      (do free p.region; free p.address; pure shorter) os
]

-- The asserts: the page grows, and nothing lies on it.
unfoldable pub inc_arena_page : Page → ℕ → M (Option Page)
inc_arena_page p cap os =
    if leb cap page_size || not (p.size == 0)
    then aborts
    else (do
      moved ← realloc p.region cap
      elim moved [
        | none ↦ pure none
        | some r ↦ pure (some (record p { region = r; free_mem = r; capacity = cap; size = 0 }))
      ])
        os

abbrev pub with_page : Arena → ℕ → Page → Arena
with_page a i p = record a { pages = set a.pages i p }

abbrev pub used_size : ℕ → ℕ → Page → ℕ
used_size align sz p = add_size sz (calculate_align_offset p.free_mem align)

abbrev pub bump : ℕ → Page → Page
bump used p = record p { free_mem = p.free_mem + used; size = add_size p.size used }

-- The new last page, made larger if the block does not fit a page of the default size. The result
-- is the arena, and whether the page is there.
abbrev pub grow : ℕ → ℕ → ℕ → Arena → M (Bool × Arena)
grow align sz used a = do
  grown ← inc_arena a
  elim grown [
    | none ↦ pure (false, a)
    | some b ↦
        if ltb page_size used
        then elim (get_elem? b.pages b.last) [
          | none ↦ λ os. aborts
          | some p ↦ do
            larger ← inc_arena_page p (add_size sz (sub_size align 1))
            elim larger [
              | none ↦ do c ← dec_arena b; pure (false, c)
              | some q ↦ pure (true, with_page b b.last q)
            ]
        ]
        else pure (true, b)
  ]

-- The `while` of `_arena_aligned_alloc`, at the page at `i`.
pub alloc_loop : ℕ → ℕ → ℕ → ℕ → Arena → M (Option ℕ × Arena)
alloc_loop zero align sz i a os = runs_out
alloc_loop (suc fuel) align sz i a os = elim (get_elem? a.pages i) [
  | none ↦ aborts
  | some p ↦
      let used = used_size align sz p in
      elim (ltb p.capacity (add_size p.size used)) [
        | false ↦
            done
              (
                some (p.free_mem + calculate_align_offset p.free_mem align),
                with_page a i (bump used p),
              )
              os
        | true ↦ elim (get_elem? a.pages (suc i)) [
          | some q ↦ alloc_loop fuel align sz (suc i) a os
          | none ↦ elim (grow align sz used a os) [
            | done (false, b) os' ↦ done (none, b) os'
            | done (true, b) os' ↦ alloc_loop fuel align sz b.last b os'
            | aborts ↦ aborts
            | runs_out ↦ runs_out
          ]
        ]
      ]
]

-- A walk over the pages, and at most two new ones.
unfoldable pub arena_aligned_alloc : Arena → ℕ → ℕ → M (Option ℕ × Arena)
unfolding alloc_loop
arena_aligned_alloc a sz align os =
    if sz == 0
    then aborts
    else if align == 0 || not (bit_and align (sub_size align 1) == 0)
    then done (none, a) os
    else alloc_loop (length a.pages + 3) align sz 0 a os

-- `MAX_ALIGN` is the compiler's.
unfoldable pub arena_alloc : ℕ → Arena → ℕ → M (Option ℕ × Arena)
unfolding arena_aligned_alloc
arena_alloc max_align a sz = arena_aligned_alloc a sz max_align

-- `memset` makes the bytes of the block 0: the result carries them.
unfoldable pub arena_calloc : ℕ → Arena → ℕ → ℕ → M (Option (ℕ × Bytes) × Arena)
unfolding arena_alloc
arena_calloc max_align a pc_sz sz os =
    if pc_sz == 0 || sz == 0
    then aborts
    else (do
      (block, b) ← arena_alloc max_align a (pc_sz * sz % 2 ^ 64)
      elim block [
        | none ↦ pure (none, b)
        | some p ↦ pure (some (p, replicate (pc_sz * sz % 2 ^ 64) 0), b)
      ])
        os

abbrev pub free_pages : List Page → M (Unit {0})
free_pages [] = pure tt
free_pages (p ∷ ps) = do free p.region; free p.address; free_pages ps

-- The head keeps its region, with nothing on it.
unfoldable pub arena_reset : Arena → M Arena
arena_reset a = elim a.pages [
  | [] ↦ λ os. aborts
  | p ∷ ps ↦ do
    free_pages ps
    pure (record { pages = (record p { free_mem = p.region; size = 0 }) ∷ []; last = 0 })
]

unfoldable pub arena_destroy : Arena → M (Unit {0})
unfolding arena_reset
arena_destroy a = do b ← arena_reset a; free_pages b.pages
