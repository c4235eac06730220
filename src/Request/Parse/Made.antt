-- ===== src/Request/Parse/Made.antt =====
-- `make_req`: the request that a well-formed text is read as.
use iomessage.Prelude.{
  ℕ, zero, suc, ◌-◌, ◌≤◌, ◌<◌, ◌^◌, ◌≡◌, ◌≢◌, ◌⊎◌, refl, ap, ◌∙◌, true, false, Option, none, some,
  List, [], ◌∷◌, arith, ◌==◌, ltb, length, All, Bytes, Option-cases, inl, inr,
}
use iomessage.Text.{Cursor, byte_at}
use iomessage.Text.Copy.{IsText}
use iomessage.Text.Escape.{escape}
use iomessage.Text.Frame.{last_byte}
use iomessage.Memory.{Os}
use iomessage.Memory.Runs.{Runs, Failed, Failed-within}
use iomessage.Arena.Valid.{IsArena}
use iomessage.Arena.Calls.{IsSetup, create_arena_runs, arena_destroy_runs}
use iomessage.Request.Types.{string_type_to_int}
use iomessage.Request.Params.Pairs.{
  print_pairs, IsPair, params_of, escape-IsText, print_pairs-IsText, differs, escape_some,
}
use iomessage.Request.Params.Loop.{Holds}
use iomessage.Request.Parse.{Request, get_params, get_payload, format_req, destroy_req, make_req}
use iomessage.Request.Parse.Section.{braced, get_type-IsSection}
use iomessage.Request.Parse.Braces.{
  print_req, escape-Passes, print_pairs-Passes, opens, closes, opens_first, closes_first,
  length-print_req, print_req_last, print_req-IsText,
}
use iomessage.Request.Parse.Fill.{allocate_request_runs, IsFilled, IsFilled-within, fill_req_runs}
use iomessage.Request.Parse.Three.{Stage, IsThree-runs}

first_byte : (s : Bytes) → 0 < length s → (d : ℕ) × (ds : Bytes) × (s ≡ d ∷ ds)
first_byte [] h = absurd (omega (arith, h))
first_byte (d ∷ ds) h = (d, ds, refl)

ℕ-cases : (n : ℕ) → (n ≡ zero) ⊎ ((k : ℕ) × (n ≡ suc k))
ℕ-cases zero = inl refl
ℕ-cases (suc k) = inr (k, refl)

module _ (max_align : ℕ) (answers : ℕ → ℕ → Option ℕ) (setup : IsSetup max_align answers) where
  module _ (type : Bytes) (ps : List (Bytes × Bytes)) (payload : Bytes) (type_text : IsText type)
      (payload_text : IsText payload) (some_type : 0 < length type)
      (type_end : last_byte b'{' type ≢ b'\\') (payload_end : last_byte b'{' payload ≢ b'\\')
      (good : All IsPair ps) (short : length (print_req type ps payload) < 2 ^ 58) where
    format_req_runs :
        (front : ℕ) (req : Request) (os : Os)
        → IsArena req.arena
        → os.answers ≡ answers
        → Runs (format_req max_align front (print_req type ps payload) req os) (λ r.
          IsFilled max_align answers setup os.calls (escape type) ps (escape payload) req r.0 r.1)
    unfolding format_req get_params get_payload
    format_req_runs front req os vr same =
        let l = length-print_req type ps payload in
        let raw = print_req type ps payload in
        let third : Bytes = braced [] (escape payload) (b']' ∷ []) in
        let second : Bytes = braced [] (print_pairs ps) third in
        let long : ltb (length raw) 8 ≡ false = ground (arith, l) in
        let ends : (byte_at raw (length raw - 1) == b']') ≡ true =
          ground (arith, print_req_last type ps payload) in
        let (made, os1, run1, h1) = create_arena_runs max_align answers setup os same in
        elim (Option-cases made) [
          | inl e ↦
              let (refused, kept) = rw e at h1 in
              ((1, req), os1, ground (arith, long, ends, run1, e), (refused, vr, kept))
          | inr (a, e) ↦
              let (v1, kept1) = rw e at h1 in
              let c : Cursor = record { before = front; text = raw } in
              let c1 : Cursor = record { before = b'}'; text = second } in
              let c2 : Cursor = record { before = b'}'; text = third } in
              let c3 : Cursor = record { before = b'}'; text = b']' ∷ [] } in
              let first_stage : Stage max_align answers setup c (escape type) c1 =
                λ arena os v same.
                  get_type-IsSection max_align answers setup front (b'[' ∷ []) (escape type) second
                    arena os (opens_first front (escape type) second)
                    (closes_first front (escape type) second (escape-Passes type type_end)
                      ∙ ap some (omega arith))
                    (escape-IsText type type_text) (omega (arith, short, l)) v same in
              let second_stage : Stage max_align answers setup c1 (print_pairs ps) c2 =
                λ arena os v same.
                  get_type-IsSection max_align answers setup b'}' [] (print_pairs ps) third arena os
                    (opens b'}' (print_pairs ps) third (differs b'}' b'\\' refl))
                    (closes b'}' (print_pairs ps) third (print_pairs-Passes ps good)
                      ∙ ap some (omega arith))
                    (print_pairs-IsText ps good) (omega (arith, short, l)) v same in
              let third_stage : Stage max_align answers setup c2 (escape payload) c3 =
                λ arena os v same.
                  get_type-IsSection max_align answers setup b'}' [] (escape payload) (b']' ∷ [])
                    arena os (opens b'}' (escape payload) (b']' ∷ []) (differs b'}' b'\\' refl))
                    (closes b'}' (escape payload) (b']' ∷ []) (escape-Passes payload payload_end)
                      ∙ ap some (omega arith))
                    (escape-IsText payload payload_text) (omega (arith, short, l)) v same in
              let ((found, a3), os2, run2, (v3, kept3, h3)) =
                IsThree-runs max_align answers setup c c1 c2 c3 (escape type) (print_pairs ps)
                  (escape payload) first_stage second_stage third_stage a os1 v1 kept1.0 in
              elim h3 [
                | inl (e3, refused) ↦
                    let (_, os4, run4, kept4) = arena_destroy_runs a3 os2 v3 in
                    (
                      (1, req),
                      os4,
                      ground (arith, long, ends, run1, e, run2, e3, run4),
                      (
                        Failed-within answers os1.calls os2.calls os.calls os4.calls kept1.1
                            (omega (arith, kept4.1)) refused,
                        vr,
                        (kept4.0 ∙ kept3.0, omega (arith, kept1.1, kept3.1, kept4.1)),
                      ),
                    )
                | inr e3 ↦
                    let (d, ds, shape) =
                      first_byte (escape type) (omega (arith, (escape_some type some_type).1)) in
                    let (r, os4, run4, h4) =
                      fill_req_runs max_align answers setup a3 (escape type) ps (escape payload) req
                        os2 good (escape-IsText payload payload_text) (omega (arith, short, l)) v3
                        vr kept3.0 in
                    (
                      r,
                      os4,
                      ground (arith, long, ends, run1, e, run2, e3, shape, run4),
                      IsFilled-within max_align answers setup os2.calls os.calls (escape type) ps
                          (escape payload) req r.0 r.1 os4 (omega (arith, kept1.1, kept3.1)) h4,
                    )
              ]
        ]

    -- NULL, with an allocation that failed since number `from`, or the request.
    abbrev pub IsMade : ℕ → ℕ → Option Request → Os → Type 0
    IsMade from communicator_id none os' = Failed answers from os'.calls
    IsMade from communicator_id (some req) os' =
        (req.communicator_id ≡ communicator_id)
        × (req.request_type ≡ string_type_to_int (escape type))
        × (Failed answers from os'.calls ⊎ Holds (params_of ps) req.request_parameters)
        × (req.payload ≡ escape payload)
        × (req.raw_request ≡ print_req type ps payload)

    -- The same, seen from a state that began earlier and as many allocations later.
    pub IsMade-within :
        (from from' communicator_id : ℕ) (req : Request) (os os' : Os)
        → from' ≤ from
        → os'.calls ≡ os.calls
        → IsMade from communicator_id (some req) os
        → IsMade from' communicator_id (some req) os'
    IsMade-within from from' communicator_id req os os' le asked
          (id, is_type, list, is_payload, raw) =
        (
          id,
          is_type,
          elim list [
            | inl refused ↦ inl (
                Failed-within answers from os.calls from' os'.calls le (omega (arith, asked))
                  refused)
            | inr holds ↦ inr holds
          ],
          is_payload,
          raw,
        )

    -- From the text `[{type}{name:value,...}{payload}]`, where the type and the names are not empty, no
    -- text of it ends in a backslash, and all special bytes are escaped, `make_req` makes the request
    -- of the type that the text names, with just the named values, in order, and the payload, as they
    -- are written; it may have lost values only if one of its own allocations failed. It returns in any case,
    -- and NULL only if one of its own allocations failed.
    pub make_req-IsMade :
        (front communicator_id : ℕ) (os : Os)
        → os.answers ≡ answers
        → Runs
            (make_req max_align front (print_req type ps payload) communicator_id os)
            (IsMade os.calls communicator_id)
    unfolding make_req destroy_req
    make_req-IsMade front communicator_id os same =
        let (made, os1, run1, h1) =
          allocate_request_runs max_align answers setup (print_req type ps payload) os
            (print_req-IsText type ps payload type_text payload_text good) (omega (arith, short))
            same in
        elim (Option-cases made) [
          | inl e ↦
              let (refused, kept) = rw e at h1 in (none, os1, ground (arith, run1, e), refused)
          | inr (req, e) ↦
              let (raw, v, kept) = rw e at h1 in
              let ((err, filled), os2, run2, h2) = format_req_runs front req os1 v kept.0 in
              elim (ℕ-cases err) [
                | inl z ↦
                    let (is_type, list, is_payload, is_raw, kept2) = rw z at h2 in
                    (
                      some (record filled { communicator_id = communicator_id }),
                      os2,
                      ground (arith, run1, e, run2, z),
                      (
                        refl,
                        is_type,
                        elim list [
                          | inl refused ↦ inl (
                              Failed-within answers os1.calls os2.calls os.calls os2.calls kept.1
                                (omega arith) refused)
                          | inr holds ↦ inr holds
                        ],
                        is_payload,
                        is_raw ∙ raw,
                      ),
                    )
                | inr (n, z) ↦
                    let (refused, w, kept2) = rw z at h2 in
                    let (_, os3, run3, kept3) = arena_destroy_runs filled.arena os2 w in
                    (
                      none,
                      os3,
                      ground (arith, run1, e, run2, z, run3),
                      Failed-within answers os1.calls os2.calls os.calls os3.calls kept.1
                          (omega (arith, kept3.1)) refused,
                    )
              ]
        ]
