-- ===== src/Arena/Chain.antt =====
-- The chain of pages: how it begins, what `arena_give_child` makes of it, and what is freed.
use iomessage.Prelude.{
  ℕ, suc, ◌+◌, ◌≡◌, ◌↔◌, refl, ap, ◌∙◌, Option, none, some, List, [], ◌∷◌, ◌++◌, arith, length,
  take, length-append, take_all, Option-cases, inl, inr,
}
use iomessage.Memory.{Os, Outcome, done, IsHonest, remove}
use iomessage.Arena.{
  Page, Arena, page_size, arena_struct_size, fresh_page, create_arena, arena_give_child, inc_arena,
  arena_destroy, arena_reset, free_pages,
}
use iomessage.Arena.Valid.{IsPage, IsArena, All-append}
use iomessage.Memory.Runs.{Failed, Later}

-- What `create_arena` must come to: NULL, with nothing left allocated, or an arena of one page.
abbrev pub IsCreated : Os → Outcome (Option Arena) → Type 0
IsCreated os (done none os') =
    Failed os.answers os.calls os'.calls × (os'.live ≡ os.live) × Later os.answers os.calls os'
IsCreated os (done (some a) os') =
    IsArena a
    × (p : Page) × (a.pages ≡ p ∷ [])
    × (p.size ≡ 0)
    × (os'.live ≡ p.region ∷ p.address ∷ os.live)
    × Later os.answers os.calls os'
IsCreated os _ = ⊥

remove_first : (a : ℕ) (bs : List ℕ) → remove a (a ∷ bs) ≡ bs
remove_first a bs = ground arith

-- `create_arena` returns NULL only if one of its own allocations fails, and then what it allocated is freed; else
-- the arena is in order, with one empty page, and its struct and its region are allocated.
pub create_arena-IsCreated : (os : Os) → IsHonest os.answers → IsCreated os (create_arena os)
unfolding create_arena
create_arena-IsCreated os honest = elim (Option-cases (os.answers os.calls arena_struct_size)) [
  | inl refused ↦
      rw refused (
        (os.calls, arena_struct_size, omega arith, omega arith, refused),
        refl,
        (refl, omega arith),
      )
  | inr (address, made) ↦ rw made (elim (Option-cases (os.answers (os.calls + 1) page_size)) [
    | inl refused ↦ rw refused (
      (os.calls + 1, page_size, omega arith, omega arith, refused),
      remove_first address os.live,
      (refl, omega arith),
    )
    | inr (region, got) ↦ rw got (
      record {
        pages_valid = (
          record {
            size_le = omega arith;
            filled = omega arith;
            in_space = honest _ _ region (omega arith) got;
          },
          tt,
        );
        last_ends = refl;
      },
      fresh_page address region,
      refl,
      refl,
      refl,
      (refl, omega arith),
    )
  ])
]

-- The pages of the child come behind those of the parent. The result is in order, its last page
-- known, exactly if the child has one page.
pub arena_give_child_lem :
    (parent child : Arena)
    → IsArena parent
    → IsArena child
    → ((arena_give_child parent child).pages ≡ parent.pages ++ child.pages)
      × (IsArena (arena_give_child parent child) ↔ (length child.pages ≡ 1))
unfolding arena_give_child
arena_give_child_lem parent child v w =
    let e : suc parent.last ≡ length parent.pages = omega (arith, v.last_ends) in
    let t : take (suc parent.last) parent.pages ≡ parent.pages =
      take_all (suc parent.last) parent.pages (omega (arith, e)) in
    let l = length-append parent.pages child.pages in
    rw t (
      refl,
      (
        λ x. omega (arith, x.last_ends, l, e),
        λ one. record {
          pages_valid = All-append IsPage parent.pages child.pages v.pages_valid w.pages_valid;
          last_ends = omega (arith, one, l, e);
        },
      ),
    )

inc_arena_pages :
    (a : Arena) (os os' : Os) (b : Arena)
    → inc_arena a os ≡ done (some b) os'
    → (q : Page) × (b.pages ≡ take (suc a.last) a.pages ++ (q ∷ []))
unfolding inc_arena
inc_arena_pages a os os' b run = elim (Option-cases (os.answers os.calls arena_struct_size)) [
  | inl refused ↦ cc (rw refused at run)
  | inr (address, made) ↦ elim (Option-cases (os.answers (os.calls + 1) page_size)) [
    | inl refused ↦ cc (rw (made, refused) at run)
    | inr (region, got) ↦ (fresh_page address region, ground arith)
  ]
]

take_snoc :
    (xs : List Page) (c : Page) (ds : List Page)
    → take (suc (length xs)) (xs ++ (c ∷ ds)) ≡ xs ++ (c ∷ [])
take_snoc [] c ds = refl
take_snoc (x ∷ xs) c ds = ap (λ t. x ∷ t) (take_snoc xs c ds)

-- After a child of several pages was given, the next page that the arena takes replaces the child's
-- pages but the first: they are in no chain any more, and nothing will free them.
pub inc_arena_drops :
    (parent child : Arena) (c d : Page) (ds : List Page) (os os' : Os) (b : Arena)
    → IsArena parent
    → child.pages ≡ c ∷ d ∷ ds
    → inc_arena (arena_give_child parent child) os ≡ done (some b) os'
    → (q : Page) × (b.pages ≡ (parent.pages ++ (c ∷ [])) ++ (q ∷ []))
unfolding arena_give_child
inc_arena_drops parent child c d ds os os' b v e run =
    let (q, shape) = inc_arena_pages (arena_give_child parent child) os os' b run in
    let n : suc parent.last ≡ length parent.pages = omega (arith, v.last_ends) in
    let t : take (suc parent.last) parent.pages ≡ parent.pages =
      take_all (suc parent.last) parent.pages (omega (arith, n)) in
    (q, shape ∙ ap (λ ps. ps ++ (q ∷ [])) (rw (t, e, n) (take_snoc parent.pages c (d ∷ ds))))

-- What the pages still hold, and the rest.
abbrev pub blocks : List Page → List ℕ → List ℕ
blocks [] rest = rest
blocks (p ∷ ps) rest = p.region ∷ p.address ∷ blocks ps rest

free_pages_lem :
    (ps : List Page) (os : Os) (rest : List ℕ)
    → os.live ≡ blocks ps rest
    → (os' : Os) × (free_pages ps os ≡ done tt os') × (os'.live ≡ rest)
free_pages_lem [] os rest e = (os, refl, e)
free_pages_lem (p ∷ ps) os rest e =
    let e' : remove p.address (remove p.region os.live) ≡ blocks ps rest = ground (arith, e) in
    free_pages_lem ps (record os { live = remove p.address (remove p.region os.live) }) rest e'

-- Where the blocks that are allocated are those of the pages behind the head and of the head, in
-- this order, and others, `arena_destroy` returns and just the others are left.
pub arena_destroy_lem :
    (p : Page) (ps : List Page) (last : ℕ) (os : Os) (rest : List ℕ)
    → os.live ≡ blocks ps (blocks (p ∷ []) rest)
    → (os' : Os) × (arena_destroy (record { pages = p ∷ ps; last = last }) os ≡ done tt os')
      × (os'.live ≡ rest)
unfolding arena_destroy arena_reset
arena_destroy_lem p ps last os rest e =
    let (mid, run, left) = free_pages_lem ps os (blocks (p ∷ []) rest) e in
    let (end, run', left') =
      free_pages_lem ((record p { free_mem = p.region; size = 0 }) ∷ []) mid rest left in
    (end, ground (arith, run, run'), left')
