-- ===== src/Arena/Alloc.antt =====
-- `_arena_aligned_alloc`: what a new page is, where the block lies, and that the walk ends.
use iomessage.Prelude.{
  ℕ, suc, ◌+◌, ◌-◌, ◌<◌, ◌^◌, ◌≡◌, refl, ◌∙◌, Bool, true, false, Option, none, some, [], ◌∷◌, ◌++◌,
  arith, length, get_elem?, take, length-append, take_all, Bool-cases, inl, inr, leb, ltb,
  Option-cases, if◌then◌else◌, take-append, set-append,
}
use iomessage.Memory.Runs.{Failed, Later}
use iomessage.Memory.{Os, Outcome, done, remove, IsHonest, ◌>>=◌}
use iomessage.Arena.{
  Page, Arena, page_size, arena_struct_size, add_size, sub_size, fresh_page, inc_arena, dec_arena,
  inc_arena_page, grow,
}
use iomessage.Arena.Valid.{IsPage, IsArena, get_elem?-last}

page-refused :
    (address region cap : ℕ) (os : Os)
    → leb cap page_size ≡ false
    → os.answers os.calls cap ≡ none
    → (os' : Os) × (inc_arena_page (fresh_page address region) cap os ≡ done none os')
      × (os'.answers ≡ os.answers)
      × (os'.calls ≡ os.calls + 1)
unfolding inc_arena_page
page-refused address region cap os large refused =
    (record os { calls = os.calls + 1 }, rw (large, refused), refl, refl)

page-moved :
    (address region cap r : ℕ) (os : Os)
    → leb cap page_size ≡ false
    → os.answers os.calls cap ≡ some r
    → (os' : Os) × (inc_arena_page (fresh_page address region) cap os
        ≡ done
            (some
              (record { address = address; region = r; free_mem = r; size = 0; capacity = cap }))
            os')
      × (os'.answers ≡ os.answers)
      × (os'.calls ≡ os.calls + 1)
unfolding inc_arena_page
page-moved address region cap r os large given = (
  record os { calls = os.calls + 1; live = r ∷ remove region os.live },
  rw (large, given),
  refl,
  refl,
)

-- The page that was just appended is taken off again.
dec-last :
    (a : Arena) (p : Page) (os : Os)
    → IsArena a
    → (os' : Os) × (dec_arena (record { pages = a.pages ++ (p ∷ []); last = suc a.last }) os
        ≡ done a os')
      × (os'.answers ≡ os.answers)
      × (os'.calls ≡ os.calls)
unfolding dec_arena
dec-last a p os v =
    let e : suc a.last ≡ length a.pages = omega (arith, v.last_ends) in
    let l : ltb (length (a.pages ++ (p ∷ []))) 2 ≡ false =
      ground (arith, length-append a.pages (p ∷ [])) in
    let g : get_elem? (a.pages ++ (p ∷ [])) (suc a.last) ≡ some p =
      rw e (get_elem?-last a.pages p) in
    let t : take (suc a.last) (a.pages ++ (p ∷ [])) ≡ a.pages =
      rw e (take-append a.pages (p ∷ [])) in
    let n : suc a.last - 1 ≡ a.last = omega arith in
    (record os { live = remove p.address (remove p.region os.live) }, rw (l, g, t, n), refl, refl)

module _ (align sz : ℕ) (pos : 0 < align) (small : sz + align < 2 ^ 62) where
  -- The arena with one more page, or the same arena when an allocation has failed.
  abbrev pub Grown : Arena → ℕ → (ℕ → ℕ → Option ℕ) → ℕ → Outcome (Bool × Arena) → Type 0
  Grown a used answers from (done (true, b) os') =
      (q : Page) × (b.pages ≡ a.pages ++ (q ∷ []))
      × (b.last ≡ suc a.last)
      × IsPage q
      × (q.size ≡ 0)
      × (q.capacity ≡ (if ltb page_size used then sz + align - 1 else page_size))
      × Later answers from os'
  Grown a used answers from (done (false, b) os') =
      (b ≡ a) × Later answers from os' × Failed answers from os'.calls
  Grown a used answers from _ = ⊥

  pub grow-Grown :
      (a : Arena) (used : ℕ) (os : Os)
      → IsArena a
      → IsHonest os.answers
      → used < sz + align
      → Grown a used os.answers os.calls (grow align sz used a os)
  unfolding inc_arena
  grow-Grown a used os v h lt =
      let e : suc a.last ≡ length a.pages = omega (arith, v.last_ends) in
      let t : take (suc a.last) a.pages ≡ a.pages =
        take_all (suc a.last) a.pages (omega (arith, e)) in
      let cap : add_size sz (sub_size align 1) ≡ sz + align - 1 = omega arith in
      elim (Option-cases (os.answers os.calls arena_struct_size)) [
        | inl refused ↦ rw refused (
          refl,
          (refl, omega arith),
          (os.calls, arena_struct_size, omega arith, omega arith, refused),
        )
        | inr (address, made) ↦ rw made (elim (Option-cases (os.answers (os.calls + 1) page_size)) [
          | inl refused ↦ rw refused (
            refl,
            (refl, omega arith),
            (os.calls + 1, page_size, omega arith, omega arith, refused),
          )
          | inr (region, got) ↦
              rw (got, t)
                (elim (Bool-cases (ltb page_size used)) [
                  | inl big ↦
                      rw (big, e, get_elem?-last a.pages (fresh_page address region), cap)
                        (let large : leb (sz + align - 1) page_size ≡ false = ground arith in
                          let mid : Os = record os {
                            calls = os.calls + 1 + 1;
                            live = region ∷ address ∷ os.live;
                          } in
                          elim (Option-cases (os.answers (os.calls + 1 + 1) (sz + align - 1))) [
                            | inl refused ↦
                                let (later, failed, kept, asked) =
                                  page-refused address region (sz + align - 1) mid large refused in
                                let (os'', back, same, no_more) =
                                  dec-last a (fresh_page address region) later v in
                                rw (failed, ◌>>=◌, t, back, ◌>>=◌)
                                  (
                                    refl,
                                    (same ∙ kept, omega (arith, asked, no_more)),
                                    (
                                      os.calls + 1 + 1,
                                      sz + align - 1,
                                      omega arith,
                                      omega (arith, asked, no_more),
                                      refused,
                                    ),
                                  )
                            | inr (moved, given) ↦
                                let (later, made', kept, asked) =
                                  page-moved address region (sz + align - 1) moved mid large
                                    given in
                                rw (made', ◌>>=◌, t)
                                  (
                                    record {
                                      address = address;
                                      region = moved;
                                      free_mem = moved;
                                      size = 0;
                                      capacity = sz + align - 1;
                                    },
                                    set-append a.pages (fresh_page address region) [] (suc a.last) _
                                        e,
                                    refl,
                                    record {
                                      size_le = omega arith;
                                      filled = omega arith;
                                      in_space = h _ _ moved (omega arith) given;
                                    },
                                    refl,
                                    rw big,
                                    (kept, omega (arith, asked)),
                                  )
                          ])
                  | inr fits ↦ rw fits (
                    fresh_page address region,
                    refl,
                    refl,
                    record {
                      size_le = omega arith;
                      filled = omega arith;
                      in_space = h (os.calls + 1) page_size region (omega arith) got;
                    },
                    refl,
                    rw fits,
                    (refl, omega arith),
                  )
                ])
        ])
      ]
