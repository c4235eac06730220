-- ===== src/Arena/Align.antt =====
-- `_calculate_align_offset`
use iomessage.Prelude.{ℕ, ◌+◌, ◌<◌, ◌%◌, ◌^◌, ◌≡◌, arith, ◌-◌, ◌*◌, ◌/◌}
use native.Mathlib.Nat.{mod-lt, mod-add-div', mul-mod_left}
use iomessage.Arena.{add_size, sub_size, calculate_align_offset}

-- For a place and an alignment that do not wrap, the offset is below the alignment and leads to
-- a multiple of it.
pub calculate_align_offset_lem :
    (raw align : ℕ)
    → 0 < align
    → raw + align < 2 ^ 64
    → (calculate_align_offset raw align < align)
      × ((raw + calculate_align_offset raw align) % align ≡ 0)
unfolding calculate_align_offset
calculate_align_offset_lem raw align pos small =
    let up : ℕ = raw + align - 1 in
    let e1 : sub_size align 1 ≡ align - 1 = omega arith in
    let e2 : add_size raw (align - 1) ≡ up = omega arith in
    let r : up % align < align = mod-lt up pos in
    let e3 : sub_size (up - up % align) raw ≡ up - up % align - raw = omega arith in
    rw (e1, e2, e3)
      (
        omega arith,
        (let e4 : raw + (up - up % align - raw) ≡ up / align * align =
              omega (arith, mod-add-div' up align) in
            rw (e4, mul-mod_left)),
      )
