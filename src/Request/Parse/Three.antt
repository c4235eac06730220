-- ===== src/Request/Parse/Three.antt =====
-- The three texts of a request, whichever of their allocations fail.
use iomessage.Prelude.{
  ℕ, ◌≡◌, ◌⊎◌, refl, ap, ◌∙◌, Option, none, some, arith, Bytes, Option-cases, inl, inr,
}
use iomessage.Text.{Cursor}
use iomessage.Memory.{Os}
use iomessage.Memory.Runs.{Runs, Failed, Failed-within, Later}
use iomessage.Arena.{Arena}
use iomessage.Arena.Valid.{IsArena}
use iomessage.Arena.Calls.{IsSetup}
use iomessage.Request.Parse.{get_type, get_params, get_payload, all_three, get_three}
use iomessage.Request.Parse.Section.{IsSection}

module _ (max_align : ℕ) (answers : ℕ → ℕ → Option ℕ) (setup : IsSetup max_align answers) where
  -- The search from `start` comes to the text, and to `next`.
  abbrev pub Stage : Cursor → Bytes → Cursor → Type 0
  Stage start body next =
      (arena : Arena) (os : Os)
      → IsArena arena
      → os.answers ≡ answers
      → Runs (get_type max_align arena start os)
          (λ r. IsSection answers os.calls start body next r.0 r.1 r.2)

  abbrev pub IsThree :
      ℕ → Bytes × Bytes × Bytes → Option (Bytes × Bytes × Bytes) × Arena → Os → Type 0
  IsThree from want r os' =
      IsArena r.1
      × Later answers from os'
      × (((r.0 ≡ none) × Failed answers from os'.calls) ⊎ (r.0 ≡ some want))

  Stage-ends :
      (start next : Cursor) (body : Bytes)
      → Stage start body next
      → (arena : Arena) (os : Os) → IsArena arena
      → os.answers ≡ answers
      → Runs (get_type max_align arena start os) (λ r os'.
        IsArena r.2
        × Later answers os.calls os'
        × (((r.0 ≡ none) × (r.1 ≡ start) × Failed answers os.calls os'.calls)
            ⊎ ((r.0 ≡ some body) × (r.1 ≡ next))))
  Stage-ends start next body stage arena os v same =
      let ((t, c, b), os1, run, h) = stage arena os v same in
      elim (Option-cases t) [
        | inl e ↦
            let (unmoved, refused, w, kept) = rw e at h in
            ((t, c, b), os1, run, (w, kept, inl (e, unmoved, refused)))
        | inr (text, e) ↦
            let (is_body, moved, w, kept) = rw e at h in
            ((t, c, b), os1, run, (w, kept, inr (e ∙ ap some is_body, moved)))
      ]

  pub IsThree-runs :
      (c c1 c2 c3 : Cursor) (type params payload : Bytes)
      → Stage c type c1
      → Stage c1 params c2
      → Stage c2 payload c3
      → (a : Arena) (os : Os) → IsArena a
      → os.answers ≡ answers
      → Runs (get_three max_align a c os) (IsThree os.calls (type, params, payload))
  unfolding get_params get_payload
  IsThree-runs c c1 c2 c3 type params payload s1 s2 s3 a os v same =
      let ((t, d1, a1), os1, run1, (v1, kept1, h1)) = Stage-ends c c1 type s1 a os v same in
      elim h1 [
        | inl (e1, unmoved, refused) ↦
            let ((p, d2, a2), os2, run2, (v2, kept2, h2)) =
              Stage-ends c c1 type s1 a1 os1 v1 kept1.0 in
            elim h2 [
              | inl (e2, unmoved2, _) ↦
                  let ((y, d3, a3), os3, run3, (v3, kept3, h3)) =
                    Stage-ends c c1 type s1 a2 os2 v2 kept2.0 in
                  (
                    (none, a3),
                    os3,
                    ground (arith, run1, e1, unmoved, run2, e2, unmoved2, run3),
                    (
                      v3,
                      (kept3.0, omega (arith, kept1.1, kept2.1, kept3.1)),
                      inl (
                        refl,
                        Failed-within answers os.calls os1.calls os.calls os3.calls (omega arith)
                            (omega (arith, kept2.1, kept3.1)) refused,
                      ),
                    ),
                  )
              | inr (e2, moved) ↦
                  let ((y, d3, a3), os3, run3, (v3, kept3, h3)) =
                    Stage-ends c1 c2 params s2 a2 os2 v2 kept2.0 in
                  (
                    (none, a3),
                    os3,
                    ground (arith, run1, e1, unmoved, run2, e2, moved, run3),
                    (
                      v3,
                      (kept3.0, omega (arith, kept1.1, kept2.1, kept3.1)),
                      inl (
                        refl,
                        Failed-within answers os.calls os1.calls os.calls os3.calls (omega arith)
                            (omega (arith, kept2.1, kept3.1)) refused,
                      ),
                    ),
                  )
            ]
        | inr (e1, moved) ↦
            let ((p, d2, a2), os2, run2, (v2, kept2, h2)) =
              Stage-ends c1 c2 params s2 a1 os1 v1 kept1.0 in
            elim h2 [
              | inl (e2, unmoved, refused) ↦
                  let ((y, d3, a3), os3, run3, (v3, kept3, h3)) =
                    Stage-ends c1 c2 params s2 a2 os2 v2 kept2.0 in
                  (
                    (none, a3),
                    os3,
                    ground (arith, run1, e1, moved, run2, e2, unmoved, run3),
                    (
                      v3,
                      (kept3.0, omega (arith, kept1.1, kept2.1, kept3.1)),
                      inl (
                        refl,
                        Failed-within answers os1.calls os2.calls os.calls os3.calls kept1.1 kept3.1
                            refused,
                      ),
                    ),
                  )
              | inr (e2, moved2) ↦
                  let ((y, d3, a3), os3, run3, (v3, kept3, h3)) =
                    Stage-ends c2 c3 payload s3 a2 os2 v2 kept2.0 in
                  (
                    (all_three (some type) (some params) y, a3),
                    os3,
                    ground (arith, run1, e1, moved, run2, e2, moved2, run3),
                    (
                      v3,
                      (kept3.0, omega (arith, kept1.1, kept2.1, kept3.1)),
                      elim h3 [
                        | inl (e3, _, refused) ↦ inl (
                          rw e3 refl,
                          Failed-within answers os2.calls os3.calls os.calls os3.calls
                              (omega (arith, kept1.1, kept2.1)) (omega arith) refused,
                        )
                        | inr (e3, _) ↦ inr (rw e3 refl)
                      ],
                    ),
                  )
            ]
      ]
