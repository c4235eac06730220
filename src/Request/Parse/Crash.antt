-- ===== src/Request/Parse/Crash.antt =====
-- `get_type` where a closing brace comes in front of the opening one.
use Prim.Native.Nat.{bit_and}
use iomessage.Prelude.{ℕ, suc, ◌+◌, ◌-◌, ◌%◌, ◌<◌, ◌^◌, ◌≡◌, some, [], ◌∷◌, arith}
use iomessage.Text.{Cursor, sub_size, escaped_strchr}
use iomessage.Memory.{Os, aborts}
use iomessage.Arena.{page_size, arena_struct_size, fresh_page, calculate_align_offset}
use iomessage.Arena.Wrap.{wrapped_alloc}
use iomessage.Request.Parse.{get_type}

-- Where the first closing brace stands in front of the first opening one, and nearer to it than the
-- alignment, the size of the section wraps around: on an arena with one empty page, whose region is
-- aligned, and with memory for one page more, `get_type` does not refuse the text but fails an
-- assert of the arena, which ends the program.
pub get_type-aborts :
    (max_align region address next_region next_address start end : ℕ) (cursor : Cursor) (os : Os)
    → 0 < max_align
    → max_align < 1000
    → bit_and max_align (sub_size max_align 1) ≡ 0
    → calculate_align_offset region max_align ≡ 0
    → os.answers os.calls arena_struct_size ≡ some next_address
    → os.answers (os.calls + 1) page_size ≡ some next_region
    → escaped_strchr cursor b'{' ≡ some start
    → escaped_strchr cursor b'}' ≡ some end
    → end < start
    → start - end < max_align
    → start < 2 ^ 62
    → get_type max_align (record { pages = fresh_page address region ∷ []; last = 0 }) cursor os
      ≡ aborts
unfolding get_type
get_type-aborts max_align region address next_region next_address start end cursor os positive small
      power aligned struct_given page_given opens closes before near short =
    let size : (sub_size end (suc start) + 1) % 2 ^ 64 ≡ 2 ^ 64 - (start - end) =
      omega (arith, before, short) in
    ground (
      arith,
      opens,
      closes,
      size,
      wrapped_alloc max_align region address next_region next_address os positive small power
          aligned struct_given page_given (start - end) (omega (arith, before)) near,
    )
