-- ===== src/Arena/Wrap.antt =====
-- `arena_alloc` of a size that has wrapped around: no more than an alignment below 2^64.
use Prim.Native.Nat.{bit_and}
use iomessage.Prelude.{
  ℕ, ◌+◌, ◌-◌, ◌<◌, ◌^◌, ◌≡◌, refl, true, false, not, ◌||◌, ◌==◌, ltb, leb, some, [], ◌∷◌, arith,
}
use iomessage.Memory.{Os, aborts}
use iomessage.Arena.{
  Page, Arena, sub_size, page_size, arena_struct_size, fresh_page, add_size, calculate_align_offset,
  inc_arena, inc_arena_page, alloc_loop, arena_aligned_alloc, arena_alloc,
}

page_aborts :
    (p : Page) (cap : ℕ) (os : Os) → leb cap page_size ≡ true → inc_arena_page p cap os ≡ aborts
unfolding inc_arena_page
page_aborts p cap os e = rw e refl

module _ (max_align region address next_region next_address : ℕ) (os : Os)
    (positive : 0 < max_align) (small : max_align < 1000)
    (power : bit_and max_align (sub_size max_align 1) ≡ 0)
    (aligned : calculate_align_offset region max_align ≡ 0)
    (struct_given : os.answers os.calls arena_struct_size ≡ some next_address)
    (page_given : os.answers (os.calls + 1) page_size ≡ some next_region) where
  abbrev pub empty_arena : Arena
  empty_arena = record { pages = fresh_page address region ∷ []; last = 0 }

  -- A size just below the wrap does not fit the page, nor, enlarged for the alignment, is it larger
  -- than a page.
  pub wrapped_alloc :
      (d : ℕ) → 0 < d → d < max_align → arena_alloc max_align empty_arena (2 ^ 64 - d) os ≡ aborts
  unfolding arena_alloc arena_aligned_alloc alloc_loop inc_arena
  wrapped_alloc d pos below =
      let z : (2 ^ 64 - d == 0) ≡ false = ground (arith, below, small) in
      let y : (max_align == 0 || not (bit_and max_align (sub_size max_align 1) == 0)) ≡ false =
        ground (arith, positive, power) in
      let used : add_size (2 ^ 64 - d) 0 ≡ 2 ^ 64 - d = omega (arith, pos) in
      let full : ltb page_size (add_size 0 (2 ^ 64 - d)) ≡ true =
        ground (arith, pos, below, small) in
      let large : ltb page_size (2 ^ 64 - d) ≡ true = ground (arith, pos, below, small) in
      let cap : add_size (2 ^ 64 - d) (sub_size max_align 1) ≡ max_align - 1 - d =
        omega (arith, pos, below, small) in
      let not_more : leb (max_align - 1 - d) page_size ≡ true = ground (arith, small) in
      let stops =
        page_aborts (fresh_page next_address next_region) (max_align - 1 - d)
          (record os { calls = os.calls + 1 + 1; live = next_region ∷ next_address ∷ os.live })
          not_more in
      ground (arith, z, y, aligned, used, full, struct_given, page_given, large, cap, stops)
