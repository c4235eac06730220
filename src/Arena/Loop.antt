-- ===== src/Arena/Loop.antt =====
-- The walk of `_arena_aligned_alloc` over the pages: it ends, and where the block lies.
use Prim.Native.Nat.{bit_and}
use iomessage.Prelude.{
  not, ◌||◌, ◌==◌, ℕ, zero, suc, ◌+◌, ◌-◌, ◌≤◌, ◌<◌, ◌^◌, ◌%◌, ◌≡◌, refl, sym, ◌∙◌, Bool, true,
  false, Option, none, some, [], ◌∷◌, ◌++◌, arith, length, get_elem?, length-append, length-set,
  Bool-cases, inl, inr, ltb, Option-cases, if◌then◌else◌,
}
use iomessage.Memory.{Os, Outcome, done, aborts, runs_out, IsHonest}
use iomessage.Arena.{
  Page, Arena, page_size, add_size, sub_size, calculate_align_offset, with_page, used_size, bump,
  grow, alloc_loop, arena_aligned_alloc, arena_alloc,
}
use iomessage.Arena.Valid.{
  IsPage, IsArena, All-append, All-set, All_elem, get_elem?-none, get_elem?-some, get_elem?-last,
  get_elem?-past, used_size_lem, bump-IsPage,
}
use iomessage.Memory.Runs.{Failed, Failed-within, Later}
use iomessage.Arena.Alloc.{Grown, grow-Grown}
use iomessage.Arena.Extends.{
  Extends, Extends-refl, Extends-trans, Extends-append, Extends_set, get_elem?-set,
}

module _ (align sz : ℕ) (pos : 0 < align) (small : sz + align < 2 ^ 62) (answers : ℕ → ℕ → Option ℕ)
    (honest : IsHonest answers) where
  -- NULL comes of a failed allocation, one of this call. A block is aligned, lies on a page behind all that lay there
  -- before, and the page is filled up to its end.
  abbrev pub Serves : ℕ → ℕ → Arena → Arena → Option ℕ → Type 0
  Serves from end a b none = Failed answers from end
  Serves from end a b (some addr) =
      (addr % align ≡ 0)
      × (i : ℕ) × (p : Page) × (get_elem? b.pages i ≡ some p)
      × (p.region ≤ addr)
      × (addr + sz ≡ p.free_mem)
      × ((old : Page) → get_elem? a.pages i ≡ some old → old.free_mem ≤ addr)

  -- What a call on the arena `a` must come to, made when `from` allocations had been asked for.
  abbrev pub Ends : ℕ → Arena → Outcome (Option ℕ × Arena) → Type 0
  Ends from a (done (r, b) os') =
      IsArena b × Later answers from os' × Extends a b × Serves from os'.calls a b r
  Ends from a _ = ⊥

  Ends-trans :
      (from mid : ℕ) (a b : Arena) (o : Outcome (Option ℕ × Arena))
      → from ≤ mid
      → Extends a b
      → Ends mid b o
      → Ends from a o
  Ends-trans from mid a b (done (none, c) os') le x (v, same, y, refused) = (
    v,
    (same.0, omega (arith, le, same.1)),
    Extends-trans a b c x y,
    Failed-within answers mid os'.calls from os'.calls le (omega arith) refused,
  )
  Ends-trans from mid a b (done (some addr, c) os') le x
        (v, same, y, (aligned, i, p, at, lo, hi, behind)) =
      (
        v,
        (same.0, omega (arith, le, same.1)),
        Extends-trans a b c x y,
        (
          aligned,
          i,
          p,
          at,
          lo,
          hi,
          λ old e. let (q, at', _, f) = x i old e in omega (arith, f, behind q at'),
        ),
      )
  Ends-trans from mid a b aborts le x h = h
  Ends-trans from mid a b runs_out le x h = h

  abbrev Fits : Page → Type 0
  Fits p = ltb p.capacity (add_size p.size (used_size align sz p)) ≡ false

  -- The three ways in which a round goes on.
  loop_here :
      (fuel i : ℕ) (a : Arena) (os : Os) (p : Page)
      → get_elem? a.pages i ≡ some p
      → Fits p
      → alloc_loop (suc fuel) align sz i a os
        ≡ done
            (
              some (p.free_mem + calculate_align_offset p.free_mem align),
              with_page a i (bump (used_size align sz p) p),
            )
            os
  unfolding alloc_loop
  loop_here fuel i a os p at fits = ground arith

  loop_next :
      (fuel i : ℕ) (a : Arena) (os : Os) (p q : Page)
      → get_elem? a.pages i ≡ some p
      → ltb p.capacity (add_size p.size (used_size align sz p)) ≡ true
      → get_elem? a.pages (suc i) ≡ some q
      → alloc_loop (suc fuel) align sz i a os ≡ alloc_loop fuel align sz (suc i) a os
  unfolding alloc_loop
  loop_next fuel i a os p q at full more = ground arith

  loop_grown :
      (fuel i : ℕ) (a b : Arena) (os os' : Os) (p : Page) (room : Bool)
      → get_elem? a.pages i ≡ some p
      → ltb p.capacity (add_size p.size (used_size align sz p)) ≡ true
      → get_elem? a.pages (suc i) ≡ none
      → grow align sz (used_size align sz p) a os ≡ done (room, b) os'
      → alloc_loop (suc fuel) align sz i a os
        ≡ (if room then alloc_loop fuel align sz b.last b os' else done (none, b) os')
  unfolding alloc_loop
  loop_grown fuel i a b os os' p true at full no_more grown = ground arith
  loop_grown fuel i a b os os' p false at full no_more grown = ground arith

  loop-Fits :
      (fuel i : ℕ) (a : Arena) (os : Os) (p : Page)
      → IsArena a
      → os.answers ≡ answers
      → get_elem? a.pages i ≡ some p
      → Fits p
      → Ends os.calls a (alloc_loop (suc fuel) align sz i a os)
  loop-Fits fuel i a os p v same at fits =
      let page = All_elem IsPage a.pages i v.pages_valid at in
      let u = used_size_lem align sz pos small p page in
      rw (loop_here fuel i a os p at fits) (
        record {
          pages_valid =
              All-set IsPage a.pages i _ v.pages_valid (bump-IsPage align sz pos small p page fits);
          last_ends = v.last_ends ∙ sym (length-set a.pages i _);
        },
        (same, omega arith),
        Extends_set a.pages i p (bump (used_size align sz p) p) at refl (omega arith),
        (
          u.2,
          i,
          bump (used_size align sz p) p,
          get_elem?-set a.pages i p _ at,
          omega (arith, page.filled),
          omega (arith, u),
          λ old e. let eq : old ≡ p = cc in rw eq (omega arith),
        ),
      )

  -- A page that `_inc_arena_page` made large enough takes the block.
  big-Fits : (q : Page) → IsPage q → q.size ≡ 0 → q.capacity ≡ sz + align - 1 → Fits q
  big-Fits q v empty cap = let u = used_size_lem align sz pos small q v in ground (arith, u)

  -- An arena that grew by a page is in order, and that page is the one at `last`.
  grown-IsArena :
      (a b : Arena) (q : Page)
      → IsArena a
      → b.pages ≡ a.pages ++ (q ∷ [])
      → b.last ≡ suc a.last
      → IsPage q
      → IsArena b × (get_elem? b.pages b.last ≡ some q)
  grown-IsArena a b q v e l page =
      let n : b.last ≡ length a.pages = omega (arith, v.last_ends) in
      (
        record {
          pages_valid = rw e (All-append IsPage a.pages (q ∷ []) v.pages_valid (page, tt));
          last_ends = rw e (omega (arith, length-append a.pages (q ∷ [])));
        },
        rw (n, e) (get_elem?-last a.pages q),
      )

  -- What follows once the walk is past the last page, by what the new page is good for.
  after_grow :
      (fuel i : ℕ) (a : Arena) (os : Os) (p : Page)
      → IsArena a
      → os.answers ≡ answers
      → get_elem? a.pages i ≡ some p
      → ltb p.capacity (add_size p.size (used_size align sz p)) ≡ true
      → get_elem? a.pages (suc i) ≡ none
      → ((b : Arena) (os' : Os) (q : Page)
          → IsArena b
          → os'.answers ≡ answers
          → get_elem? b.pages b.last ≡ some q
          → IsPage q
          → q.size ≡ 0
          → q.capacity
            ≡ (if ltb page_size (used_size align sz p) then sz + align - 1 else page_size)
          → length b.pages ≡ suc b.last
          → Ends os'.calls b (alloc_loop fuel align sz b.last b os'))
      → Ends os.calls a (alloc_loop (suc fuel) align sz i a os)
  after_grow fuel i a os p v same at full no_more go_on =
      let page = All_elem IsPage a.pages i v.pages_valid at in
      let u = used_size_lem align sz pos small p page in
      by_outcome (grow align sz (used_size align sz p) a os) refl (
        grow-Grown align sz pos small a (used_size align sz p) os v (rw same honest)
          (omega (arith, u)))
    where
      by_outcome :
          (o : Outcome (Bool × Arena))
          → grow align sz (used_size align sz p) a os ≡ o
          → Grown align sz pos small a (used_size align sz p) os.answers os.calls o
          → Ends os.calls a (alloc_loop (suc fuel) align sz i a os)
      by_outcome (done (true, b) os') run (q, e, l, page, empty, cap, kept) =
          let (vb, at_last) = grown-IsArena a b q v e l page in
          rw (loop_grown fuel i a b os os' p true at full no_more run) (
            Ends-trans os.calls os'.calls a b _ kept.1 (Extends-append a b (q ∷ []) e) (
              go_on b os' q vb (kept.0 ∙ same) at_last page empty cap
                (omega (arith, vb.last_ends))))
      by_outcome (done (false, b) os') run (e, kept, refused) =
          rw (loop_grown fuel i a b os os' p false at full no_more run, e)
            (v, (kept.0 ∙ same, kept.1), Extends-refl a, rw same at refused)
      by_outcome aborts run h = absurd h
      by_outcome runs_out run h = absurd h

  -- On an empty page of the default size, which is the last: one more page at most.
  loop_last_two :
      (fuel : ℕ) (a : Arena) (os : Os) (p : Page)
      → IsArena a
      → os.answers ≡ answers
      → get_elem? a.pages a.last ≡ some p
      → p.size ≡ 0
      → p.capacity ≡ page_size
      → length a.pages ≡ suc a.last
      → Ends os.calls a (alloc_loop (suc (suc fuel)) align sz a.last a os)
  loop_last_two fuel a os p v same at empty cap ends =
      elim (Bool-cases (ltb p.capacity (add_size p.size (used_size align sz p)))) [
        | inr fits ↦ loop-Fits (suc fuel) a.last a os p v same at fits
        | inl full ↦
            let used =
              used_size_lem align sz pos small p
                (All_elem IsPage a.pages a.last v.pages_valid at) in
            let big : ltb page_size (used_size align sz p) ≡ true = ground (arith, used) in
            after_grow (suc fuel) a.last a os p v same at full
              (get_elem?-past a.pages (suc a.last) (omega (arith, ends)))
              λ b os' q vb same' at' page empty' cap' ends'.
                loop-Fits fuel b.last b os' q vb same' at' (big-Fits q page empty' (rw big at cap'))
      ]

  -- On the last page: two more at most.
  loop_last :
      (fuel i : ℕ) (a : Arena) (os : Os) (p : Page)
      → IsArena a
      → os.answers ≡ answers
      → get_elem? a.pages i ≡ some p
      → get_elem? a.pages (suc i) ≡ none
      → Ends os.calls a (alloc_loop (suc (suc (suc fuel))) align sz i a os)
  loop_last fuel i a os p v same at no_more =
      elim (Bool-cases (ltb p.capacity (add_size p.size (used_size align sz p)))) [
        | inr fits ↦ loop-Fits (suc (suc fuel)) i a os p v same at fits
        | inl full ↦
            after_grow (suc (suc fuel)) i a os p v same at full no_more
              λ b os' q vb same' at' page empty cap ends.
                elim (Bool-cases (ltb page_size (used_size align sz p))) [
                  | inl big ↦
                      loop-Fits (suc fuel) b.last b os' q vb same' at'
                        (big-Fits q page empty (rw big at cap))
                  | inr default ↦
                      loop_last_two fuel b os' q vb same' at' empty (rw default at cap) ends
                ]
      ]

  -- One round of the walk, given what the walk from the next page comes to.
  loop_round :
      (n i : ℕ) (a : Arena) (os : Os)
      → IsArena a
      → os.answers ≡ answers
      → i < length a.pages
      → (suc i < length a.pages → Ends os.calls a (alloc_loop (suc (suc n)) align sz (suc i) a os))
      → Ends os.calls a (alloc_loop (suc (suc (suc n))) align sz i a os)
  loop_round n i a os v same lt walk = elim (Option-cases (get_elem? a.pages i)) [
    | inl gone ↦ absurd (omega (arith, get_elem?-none a.pages i gone))
    | inr (p, at) ↦ elim (Option-cases (get_elem? a.pages (suc i))) [
      | inl no_more ↦ loop_last n i a os p v same at no_more
      | inr (q, more) ↦
          elim (Bool-cases (ltb p.capacity (add_size p.size (used_size align sz p)))) [
            | inr fits ↦ loop-Fits (suc (suc n)) i a os p v same at fits
            | inl full ↦
                rw (loop_next (suc (suc n)) i a os p q at full more)
                  (walk (get_elem?-some a.pages (suc i) more))
          ]
    ]
  ]

  -- From any page: the pages that are left, and two more.
  loop-Ends :
      (n i : ℕ) (a : Arena) (os : Os)
      → IsArena a
      → os.answers ≡ answers
      → i < length a.pages
      → length a.pages ≤ i + suc n
      → Ends os.calls a (alloc_loop (suc (suc (suc n))) align sz i a os)
  loop-Ends zero i a os v same lt enough =
      loop_round zero i a os v same lt (λ lt'. absurd (omega (arith, lt')))
  loop-Ends (suc n) i a os v same lt enough =
      loop_round (suc n) i a os v same lt (λ lt'. loop-Ends n (suc i) a os v same lt' (omega arith))

-- `arena_alloc`, for an alignment that is a power of two and sizes far from the wrap of `size_t`, on
-- an arena in order and with blocks from `malloc` in user space. It always returns: the walk over
-- the pages ends and no assert fails. NULL means that one of the allocations that
-- this call asked for failed. A block is aligned, lies
-- inside one page behind all that was on it, and the page is now filled just up to its end; no page
-- moves or gives up what lies on it, and the arena stays in order.
pub arena_alloc-Ends :
    (max_align sz : ℕ) (pos : 0 < max_align) (small : sz + max_align < 2 ^ 62)
    (answers : ℕ → ℕ → Option ℕ) (honest : IsHonest answers)
    → bit_and max_align (sub_size max_align 1) ≡ 0
    → 0 < sz
    → (a : Arena) (os : Os) → IsArena a
    → os.answers ≡ answers
    → Ends max_align sz pos small answers honest os.calls a (arena_alloc max_align a sz os)
unfolding arena_alloc arena_aligned_alloc
arena_alloc-Ends max_align sz pos small answers honest power some_bytes a os v same =
    let z : (sz == 0) ≡ false = ground arith in
    let y : (max_align == 0 || not (bit_and max_align (sub_size max_align 1) == 0)) ≡ false =
      ground arith in
    let e : length a.pages + 3 ≡ suc (suc (suc (length a.pages))) = omega arith in
    rw (z, y, e)
      (loop-Ends max_align sz pos small answers honest (length a.pages) 0 a os v same
        (omega (arith, v.last_ends)) (omega arith))
