-- ===== src/Request/Parse/Fill.antt =====
-- `allocate_request`, and the part of `format_req` that fills the struct.
use iomessage.Prelude.{
  ℕ, zero, suc, ◌+◌, ◌≤◌, ◌<◌, ◌^◌, ◌≡◌, ◌⊎◌, refl, ◌∙◌, Option, none, some, List, [], arith,
  length, All, Bytes, Option-cases, inl, inr,
}
use iomessage.Text.Copy.{IsText}
use iomessage.Memory.{Os}
use iomessage.Memory.Runs.{Runs, Failed, Failed-within, Later}
use iomessage.Arena.{Arena}
use iomessage.Arena.Valid.{IsArena}
use iomessage.Arena.Calls.{IsSetup, create_arena_runs, arena_alloc_runs, arena_destroy_runs}
use iomessage.Request.Types.{unknown, string_type_to_int}
use iomessage.Request.Params.Node.{copied_lem}
use iomessage.Request.Params.Pairs.{print_pairs, IsPair, params_of}
use iomessage.Request.Params.Loop.{Holds, format_params_lem}
use iomessage.Request.Parse.{Request, request_struct_size, allocate_request, fill_req}

module _ (max_align : ℕ) (answers : ℕ → ℕ → Option ℕ) (setup : IsSetup max_align answers) where
  -- NULL, with an allocation of this call that failed, or a request that has the raw text and an arena in order.
  abbrev pub IsAllocated : ℕ → Bytes → Option Request → Os → Type 0
  IsAllocated from raw none os' = Failed answers from os'.calls × Later answers from os'
  IsAllocated from raw (some req) os' =
      (req.raw_request ≡ raw) × IsArena req.arena × Later answers from os'

  pub allocate_request_runs :
      (raw : Bytes) (os : Os)
      → IsText raw
      → length raw < 2 ^ 59
      → os.answers ≡ answers
      → Runs (allocate_request max_align raw os) (IsAllocated os.calls raw)
  unfolding allocate_request
  allocate_request_runs raw os text short same =
      let (made, os1, run1, h1) = create_arena_runs max_align answers setup os same in
      elim (Option-cases made) [
        | inl e ↦
            let (refused, kept) = rw e at h1 in
            (none, os1, ground (arith, run1, e), (refused, kept))
        | inr (a, e) ↦
            let (v1, kept1) = rw e at h1 in
            let ((b2, t2), os2, run2, h2) =
              arena_alloc_runs max_align answers setup a request_struct_size os1 v1 (omega arith)
                (omega arith) kept1.0 in
            elim (Option-cases b2) [
              | inl e2 ↦
                  let (refused, v2, kept2) = rw e2 at h2 in
                  let (_, os3, run3, kept3) = arena_destroy_runs t2 os2 v2 in
                  (
                    none,
                    os3,
                    ground (arith, run1, e, run2, e2, run3),
                    (
                      Failed-within answers os1.calls os2.calls os.calls os3.calls
                          (omega (arith, kept1.1)) (omega (arith, kept3.1)) refused,
                      (kept3.0 ∙ kept2.0, omega (arith, kept1.1, kept2.1, kept3.1)),
                    ),
                  )
              | inr (_, e2) ↦
                  let (v2, kept2) = rw e2 at h2 in
                  let ((b3, t3), os3, run3, h3) =
                    arena_alloc_runs max_align answers setup t2 (length raw + 1) os2 v2
                      (omega arith) (omega (arith, short)) kept2.0 in
                  elim (Option-cases b3) [
                    | inl e3 ↦
                        let (refused, v3, kept3) = rw e3 at h3 in
                        let (_, os4, run4, kept4) = arena_destroy_runs t3 os3 v3 in
                        (
                          none,
                          os4,
                          ground (arith, run1, e, run2, e2, run3, e3, run4),
                          (
                            Failed-within answers os2.calls os3.calls os.calls os4.calls
                                (omega (arith, kept1.1, kept2.1)) (omega (arith, kept4.1)) refused,
                            (kept4.0 ∙ kept3.0, omega (arith, kept1.1, kept2.1, kept3.1, kept4.1)),
                          ),
                        )
                    | inr (n, e3) ↦
                        let (v3, kept3) = rw e3 at h3 in
                        (
                          some (record {
                            communicator_id = 0;
                            request_type = unknown;
                            request_parameters = none;
                            payload = [];
                            raw_request = raw;
                            arena = t3;
                          }),
                          os3,
                          ground (
                            arith,
                            run1,
                            e,
                            run2,
                            e2,
                            run3,
                            e3,
                            copied_lem n raw os3 text (omega (arith, short)),
                          ),
                          (refl, v3, (kept3.0, omega (arith, kept1.1, kept2.1, kept3.1))),
                        )
                  ]
            ]
      ]

  -- Nothing, with an allocation that failed since number `from`, or the fields that the three texts stand for.
  abbrev pub IsFilled :
      ℕ → Bytes → List (Bytes × Bytes) → Bytes → Request → ℕ → Request → Os → Type 0
  IsFilled from type ps payload req zero filled os' =
      (filled.request_type ≡ string_type_to_int type)
      × (Failed answers from os'.calls ⊎ Holds (params_of ps) filled.request_parameters)
      × (filled.payload ≡ payload)
      × (filled.raw_request ≡ req.raw_request)
      × Later answers from os'
  IsFilled from type ps payload req (suc n) filled os' =
      Failed answers from os'.calls × IsArena filled.arena × Later answers from os'

  pub fill_req_runs :
      (func_arena : Arena) (type : Bytes) (ps : List (Bytes × Bytes)) (payload : Bytes)
      (req : Request) (os : Os)
      → All IsPair ps
      → IsText payload
      → length (print_pairs ps) + length payload < 2 ^ 59
      → IsArena func_arena
      → IsArena req.arena
      → os.answers ≡ answers
      → Runs
          (fill_req max_align func_arena (type, print_pairs ps, payload) req os)
          (λ r. IsFilled os.calls type ps payload req r.0 r.1)
  fill_req_runs func_arena type ps payload req os good text short vf vr same =
      let ((block, b), os1, run1, h1) =
        arena_alloc_runs max_align answers setup req.arena (length payload + 1) os vr (omega arith)
          (omega (arith, short)) same in
      elim (Option-cases block) [
        | inl e ↦
            let (refused, v, kept) = rw e at h1 in
            let (_, os2, run2, kept2) = arena_destroy_runs func_arena os1 vf in
            (
              (1, record req { arena = b }),
              os2,
              ground (arith, run1, e, run2),
              (
                Failed-within answers os.calls os1.calls os.calls os2.calls (omega arith)
                    (omega (arith, kept2.1)) refused,
                v,
                (kept2.0 ∙ kept.0, omega (arith, kept.1, kept2.1)),
              ),
            )
        | inr (p, e) ↦
            let (v, kept) = rw e at h1 in
            let ((params, c), os2, run2, (kept2, list)) =
              format_params_lem max_align answers setup ps b os1 good (omega (arith, short))
                kept.0 in
            let (_, os3, run3, kept3) = arena_destroy_runs func_arena os2 vf in
            (
              (
                0,
                record req {
                  request_type = string_type_to_int type;
                  request_parameters = params;
                  payload = payload;
                  arena = c;
                },
              ),
              os3,
              ground (
                arith,
                run1,
                e,
                run2,
                copied_lem p payload os2 text (omega (arith, short)),
                run3,
              ),
              (
                refl,
                elim list [
                  | inl refused ↦ inl (
                      Failed-within answers os1.calls os2.calls os.calls os3.calls kept.1
                        (omega (arith, kept3.1)) refused)
                  | inr holds ↦ inr holds
                ],
                refl,
                refl,
                (kept3.0 ∙ kept2.0, omega (arith, kept.1, kept2.1, kept3.1)),
              ),
            )
      ]

  -- A call that began later, as part of one that began earlier.
  pub IsFilled-within :
      (from from' : ℕ) (type : Bytes) (ps : List (Bytes × Bytes)) (payload : Bytes) (req : Request)
      (err : ℕ) (filled : Request) (os' : Os)
      → from' ≤ from
      → IsFilled from type ps payload req err filled os'
      → IsFilled from' type ps payload req err filled os'
  IsFilled-within from from' type ps payload req zero filled os' le
        (is_type, list, is_payload, raw, kept) =
      (
        is_type,
        elim list [
          | inl refused ↦
              inl (Failed-within answers from os'.calls from' os'.calls le (omega arith) refused)
          | inr holds ↦ inr holds
        ],
        is_payload,
        raw,
        (kept.0, omega (arith, le, kept.1)),
      )
  IsFilled-within from from' type ps payload req (suc n) filled os' le (refused, v, kept) = (
    Failed-within answers from os'.calls from' os'.calls le (omega arith) refused,
    v,
    (kept.0, omega (arith, le, kept.1)),
  )
