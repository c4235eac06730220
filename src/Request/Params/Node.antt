-- ===== src/Request/Params/Node.antt =====
-- `create_node`: the texts of a new node, and what becomes of the arena.
use iomessage.Prelude.{
  ℕ, ◌+◌, ◌-◌, ◌<◌, ◌^◌, ◌≡◌, refl, ap, ◌∙◌, Option, none, some, arith, take_all, length, Bytes,
  Option-cases, inl, inr, length-tabulate,
}
use iomessage.Text.{copy_str}
use iomessage.Text.Copy.{IsText, copy_str_lem}
use iomessage.Memory.{Os, done, fresh_bytes}
use iomessage.Memory.Runs.{Runs, Failed, Failed-within, Later}
use iomessage.Arena.{Arena, arena_give_child}
use iomessage.Arena.Valid.{IsArena}
use iomessage.Arena.Calls.{IsSetup, create_arena_runs, arena_alloc_runs, arena_destroy_runs}
use iomessage.Request.Types.{text_of}
use iomessage.Request.Types.Names.{text_of-text}
use iomessage.Request.Params.{Param, copied, create_node, param_struct_size}

-- A block of just the size that the text needs has the text once it was copied there.
pub copied_lem :
    (a : ℕ) (text : Bytes) (os : Os)
    → IsText text
    → length text < 2 ^ 60
    → copied a text os ≡ done text os
copied_lem a text os h short =
    let e : length text + 1 - 1 ≡ length text = omega arith in
    let n = length-tabulate (length text + 1) (λ i. os.garbage (a + i)) in
    let t = take_all (length text) text (omega arith) in
    let c : text_of (copy_str (fresh_bytes a (length text + 1) os) text (length text + 1)).0
        ≡ text =
      rw
        (
          copy_str_lem (fresh_bytes a (length text + 1) os) text (length text + 1) (omega arith)
              (omega (arith, n)) (omega (arith, short)),
          e,
          t,
        )
        (text_of-text text _ h) in
    ap (λ s. done s os) c

-- NULL, with an allocation of this call that failed and the arena as it was, or a node with the two texts, whose blocks
-- lie in an arena that was given to the first.
abbrev pub IsNode :
    (ℕ → ℕ → Option ℕ) → ℕ → Arena → Bytes → Bytes → Option Param → Arena → Os → Type 0
IsNode answers from arena name value none b os' =
    Failed answers from os'.calls × (b ≡ arena) × Later answers from os'
IsNode answers from arena name value (some p) b os' =
    (p ≡ record { name = name; value = value })
    × ((child : Arena) × IsArena child × (b ≡ arena_give_child arena child))
    × Later answers from os'

module _ (max_align : ℕ) (answers : ℕ → ℕ → Option ℕ) (setup : IsSetup max_align answers) where
  -- `create_node` always returns. It gives NULL only if an allocation failed, and then the arena is as
  -- it was; else the node has the two texts, and its blocks belong to the arena.
  pub create_node-IsNode :
      (arena : Arena) (name value : Bytes) (os : Os)
      → IsText name
      → IsText value
      → length name + length value < 2 ^ 59
      → os.answers ≡ answers
      → Runs
          (create_node max_align arena name value os)
          (λ r. IsNode answers os.calls arena name value r.0 r.1)
  unfolding create_node
  create_node-IsNode arena name value os hn hv short same =
      let (tmp, os1, run1, h1) = create_arena_runs max_align answers setup os same in
      elim (Option-cases tmp) [
        | inl e ↦
            let (refused, kept) = rw e at h1 in
            ((none, arena), os1, ground (arith, run1, e), (refused, refl, kept))
        | inr (t, e) ↦
            let (v1, kept1) = rw e at h1 in
            let ((b2, t2), os2, run2, h2) =
              arena_alloc_runs max_align answers setup t param_struct_size os1 v1 (omega arith)
                (omega arith) kept1.0 in
            elim (Option-cases b2) [
              | inl e2 ↦
                  let (refused, v2, kept2) = rw e2 at h2 in
                  let (_, os3, run3, kept3) = arena_destroy_runs t2 os2 v2 in
                  (
                    (none, arena),
                    os3,
                    ground (arith, run1, e, run2, e2, run3),
                    (
                      Failed-within answers os1.calls os2.calls os.calls os3.calls
                          (omega (arith, kept1.1)) (omega (arith, kept3.1)) refused,
                      refl,
                      (kept3.0 ∙ kept2.0, omega (arith, kept1.1, kept2.1, kept3.1)),
                    ),
                  )
              | inr (_, e2) ↦
                  let (v2, kept2) = rw e2 at h2 in
                  let ((b3, t3), os3, run3, h3) =
                    arena_alloc_runs max_align answers setup t2 (length name + 1) os2 v2
                      (omega arith) (omega (arith, short)) kept2.0 in
                  elim (Option-cases b3) [
                    | inl e3 ↦
                        let (refused, v3, kept3) = rw e3 at h3 in
                        let (_, os4, run4, kept4) = arena_destroy_runs t3 os3 v3 in
                        (
                          (none, arena),
                          os4,
                          ground (arith, run1, e, run2, e2, run3, e3, run4),
                          (
                            Failed-within answers os2.calls os3.calls os.calls os4.calls
                                (omega (arith, kept1.1, kept2.1)) (omega (arith, kept4.1)) refused,
                            refl,
                            (kept4.0 ∙ kept3.0, omega (arith, kept1.1, kept2.1, kept3.1, kept4.1)),
                          ),
                        )
                    | inr (n, e3) ↦
                        let (v3, kept3) = rw e3 at h3 in
                        let ((b4, t4), os4, run4, h4) =
                          arena_alloc_runs max_align answers setup t3 (length value + 1) os3 v3
                            (omega arith) (omega (arith, short)) kept3.0 in
                        elim (Option-cases b4) [
                          | inl e4 ↦
                              let (refused, v4, kept4) = rw e4 at h4 in
                              let (_, os5, run5, kept5) = arena_destroy_runs t4 os4 v4 in
                              (
                                (none, arena),
                                os5,
                                ground (arith, run1, e, run2, e2, run3, e3, run4, e4, run5),
                                (
                                  Failed-within answers os3.calls os4.calls os.calls os5.calls
                                      (omega (arith, kept1.1, kept2.1, kept3.1))
                                      (omega (arith, kept5.1)) refused,
                                  refl,
                                  (
                                    kept5.0 ∙ kept4.0,
                                    omega (arith, kept1.1, kept2.1, kept3.1, kept4.1, kept5.1),
                                  ),
                                ),
                              )
                          | inr (w, e4) ↦
                              let (v4, kept4) = rw e4 at h4 in
                              (
                                (
                                  some (record { name = name; value = value }),
                                  arena_give_child arena t4,
                                ),
                                os4,
                                ground (
                                  arith,
                                  run1,
                                  e,
                                  run2,
                                  e2,
                                  run3,
                                  e3,
                                  run4,
                                  e4,
                                  copied_lem n name os4 hn (omega (arith, short)),
                                  copied_lem w value os4 hv (omega (arith, short)),
                                ),
                                (
                                  refl,
                                  (t4, v4, refl),
                                  (kept4.0, omega (arith, kept1.1, kept2.1, kept3.1, kept4.1)),
                                ),
                              )
                        ]
                  ]
            ]
      ]
