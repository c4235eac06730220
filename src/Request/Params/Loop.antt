-- ===== src/Request/Params/Loop.antt =====
-- `format_params`: the list that it builds from the pairs of a text.
use iomessage.Prelude.{
  ℕ, zero, suc, ◌+◌, ◌-◌, ◌≤◌, ◌<◌, ◌^◌, ◌≡◌, ◌⊎◌, refl, ap, Option, none, some, List, [], ◌∷◌,
  ◌++◌, arith, append_assoc, append-nil, length, take, drop, All, Bytes, Option-cases, inl, inr,
  length-append, take_all, take-append,
}
use iomessage.Text.{escaped_strchr}
use iomessage.Text.Copy.{IsText}
use iomessage.Text.Find.{find_unescaped, escaped_strchr-find}
use iomessage.Text.Escape.{escape}
use iomessage.Memory.{Os, remove}
use iomessage.Memory.Runs.{Runs, Failed, Failed-within, Later}
use iomessage.Arena.{Arena}
use iomessage.Arena.Calls.{IsSetup}
use iomessage.Request.Params.{
  Param, ParamList, create_param_list, add_param, insert_param, take_pair, params_loop,
  format_params,
}
use iomessage.Request.Params.Node.{create_node-IsNode, copied_lem}
use iomessage.Request.Params.Pairs.{
  print_pair, print_pairs, IsPair, param_of, params_of, escape-IsText, comma_behind, comma_none,
  colon_inside, escape_some, print_pairs-IsText,
}

-- The list has these nodes, and its head's `prev` is the last of them. No list is the empty one.
abbrev pub Holds : List Param → Option ParamList → Type 0
Holds want none = want ≡ []
Holds want (some list) = (list.nodes ≡ want) × (list.last + 1 ≡ length want)

nothing_nil : (front d : ℕ) → escaped_strchr (record { before = front; text = [] }) d ≡ none
unfolding find_unescaped
nothing_nil front d = escaped_strchr-find (record { before = front; text = [] }) d

drop_behind : (xs : Bytes) (c : ℕ) (ys : Bytes) → drop (suc (length xs)) (xs ++ (c ∷ ys)) ≡ ys
drop_behind [] c ys = refl
drop_behind (x ∷ xs) c ys = drop_behind xs c ys

module _ (max_align : ℕ) (answers : ℕ → ℕ → Option ℕ) (setup : IsSetup max_align answers) where
  -- What the loop keeps, as long as none of the allocations fails that it asks for, from number `from` on.
  abbrev pub IsList : ℕ → List Param → Option ParamList × Arena → Os → Type 0
  IsList from want r os' = Later answers from os' × (Failed answers from os'.calls ⊎ Holds want r.0)

  insert_empty :
      (from : ℕ) (arena : Arena) (name value : Bytes) (os : Os)
      → from ≤ os.calls
      → IsText name
      → IsText value
      → length name + length value < 2 ^ 59
      → os.answers ≡ answers
      → Runs
          (create_param_list max_align arena name value os)
          (IsList from (record { name = name; value = value } ∷ []))
  unfolding create_param_list
  insert_empty from arena name value os le hn hv short same =
      let ((made, b), os1, run, h) =
        create_node-IsNode max_align answers setup arena name value os hn hv short same in
      elim (Option-cases made) [
        | inl e ↦
            let (refused, _, kept) = rw e at h in
            (
              (none, b),
              os1,
              ground (arith, run, e),
              (
                (kept.0, omega (arith, le, kept.1)),
                inl (
                    Failed-within answers os.calls os1.calls from os1.calls le (omega arith)
                      refused),
              ),
            )
        | inr (p, e) ↦
            let (same_node, _, kept) = rw e at h in
            (
              (some (record { nodes = p ∷ []; last = 0 }), b),
              os1,
              ground (arith, run, e),
              ((kept.0, omega (arith, le, kept.1)), inr (ap (λ x. x ∷ []) same_node, refl)),
            )
      ]

  insert_longer :
      (from : ℕ) (so_far : List Param) (arena : Arena) (list : ParamList) (name value : Bytes)
      (os : Os)
      → from ≤ os.calls
      → IsText name
      → IsText value
      → length name + length value < 2 ^ 59
      → os.answers ≡ answers
      → Failed answers from os.calls ⊎ Holds so_far (some list)
      → Runs
          (insert_param max_align arena (some list) name value os)
          (IsList from (so_far ++ (record { name = name; value = value } ∷ [])))
  unfolding add_param
  insert_longer from so_far arena list name value os le hn hv short same before =
      let ((made, b), os1, run, h) =
        create_node-IsNode max_align answers setup arena name value os hn hv short same in
      elim (Option-cases made) [
        | inl e ↦
            let (refused, _, kept) = rw e at h in
            (
              (some list, b),
              os1,
              ground (arith, run, e),
              (
                (kept.0, omega (arith, le, kept.1)),
                inl (
                    Failed-within answers os.calls os1.calls from os1.calls le (omega arith)
                      refused),
              ),
            )
        | inr (p, e) ↦
            let (same_node, _, kept) = rw e at h in
            let longer : ParamList = record {
              nodes = take (suc list.last) list.nodes ++ (p ∷ []);
              last = suc list.last;
            } in
            (
              (some longer, b),
              os1,
              ground (arith, run, e),
              (
                (kept.0, omega (arith, le, kept.1)),
                elim before [
                  | inl refused ↦ inl (
                      Failed-within answers from os.calls from os1.calls (omega arith) kept.1
                        refused)
                  | inr (nodes, last) ↦
                      let t : take (suc list.last) list.nodes ≡ so_far =
                        rw nodes (take_all (suc list.last) so_far (omega (arith, last))) in
                      inr (
                        rw (t, same_node) refl,
                        omega (
                          arith,
                          last,
                          length-append so_far (record { name = name; value = value } ∷ []),
                        ),
                      )
                ],
              ),
            )
      ]

  insert_runs :
      (from : ℕ) (so_far : List Param) (arena : Arena) (list : Option ParamList)
      (name value : Bytes) (os : Os)
      → from ≤ os.calls
      → IsText name
      → IsText value
      → length name + length value < 2 ^ 59
      → os.answers ≡ answers
      → Failed answers from os.calls ⊎ Holds so_far list
      → Runs
          (insert_param max_align arena list name value os)
          (IsList from (so_far ++ (record { name = name; value = value } ∷ [])))
  insert_runs from so_far arena (some list) name value os le hn hv short same before =
      insert_longer from so_far arena list name value os le hn hv short same before
  insert_runs from so_far arena none name value os le hn hv short same before = elim before [
    | inr empty ↦ rw empty (insert_empty from arena name value os le hn hv short same)
    | inl refused ↦
        let (r, os1, run, (kept, made)) =
          insert_empty os.calls arena name value os (omega arith) hn hv short same in
        (
          r,
          os1,
          run,
          (
            (kept.0, omega (arith, le, kept.1)),
            inl (Failed-within answers from os.calls from os1.calls (omega arith) kept.1 refused),
          ),
        )
  ]

  -- One pair is added to the list.
  pair_runs :
      (from : ℕ) (so_far : List Param) (arena : Arena) (list : Option ParamList) (front : ℕ)
      (p : Bytes × Bytes) (os : Os)
      → from ≤ os.calls
      → IsPair p
      → length (print_pair p) < 2 ^ 59
      → os.answers ≡ answers
      → Failed answers from os.calls ⊎ Holds so_far list
      → Runs
          (take_pair max_align arena list
            (print_pair p)
            (escaped_strchr (record { before = front; text = print_pair p }) b':')
            os)
          (IsList from (so_far ++ (param_of p ∷ [])))
  pair_runs from so_far arena list front p os le good short same before =
      let (d, e) = escape_some p.0 good.2 in
      let name : take (suc d) (print_pair p) ≡ escape p.0 =
        rw (← e) (take-append (escape p.0) (b':' ∷ escape p.1)) in
      let value : drop (suc (suc d)) (print_pair p) ≡ escape p.1 =
        rw (← e) (drop_behind (escape p.0) b':' (escape p.1)) in
      rw (colon_inside front p good, e, name, value)
        (insert_runs from so_far arena list (escape p.0) (escape p.1) os le
          (escape-IsText p.0 good.0) (escape-IsText p.1 good.1)
          (omega (arith, short, length-append (escape p.0) (b':' ∷ escape p.1))) same before)

  loop_runs :
      (fuel from : ℕ) (ps : List (Bytes × Bytes)) (so_far : List Param) (arena : Arena)
      (list : Option ParamList) (front : ℕ) (os : Os)
      → from ≤ os.calls
      → All IsPair ps
      → length (print_pairs ps) < fuel
      → length (print_pairs ps) < 2 ^ 59
      → os.answers ≡ answers
      → Failed answers from os.calls ⊎ Holds so_far list
      → Runs
          (params_loop fuel max_align arena list
            (some (record { before = front; text = print_pairs ps }))
            os)
          (IsList from (so_far ++ params_of ps))
  unfolding params_loop
  loop_runs zero from ps so_far arena list front os le good enough short same before =
      absurd (omega (arith, enough))
  loop_runs (suc fuel) from [] so_far arena list front os le good enough short same before = (
    (list, arena),
    os,
    ground (arith, nothing_nil front b',', nothing_nil front b':'),
    ((same, le), rw append-nil before),
  )
  loop_runs (suc fuel) from (p ∷ []) so_far arena list front os le good enough short same before =
      let ((list', b), os1, run, h) =
        pair_runs from so_far arena list front p os le good.0 short same before in
      ((list', b), os1, ground (arith, comma_none front p, run), h)
  loop_runs (suc fuel) from (p ∷ q ∷ ps) so_far arena list front os le good enough short same
        before =
      let l = length-append (print_pair p) (b',' ∷ print_pairs (q ∷ ps)) in
      let ((list', b), os1, run, (kept, added)) =
        pair_runs from so_far arena list front p os le good.0 (omega (arith, short, l)) same
          before in
      let (r, os2, run', h) =
        loop_runs fuel from (q ∷ ps) (so_far ++ (param_of p ∷ [])) b list' 0 os1 kept.1 good.1
          (omega (arith, enough, l)) (omega (arith, short, l)) kept.0 added in
      let t : take (length (print_pair p)) (print_pairs (p ∷ q ∷ ps)) ≡ print_pair p =
        take-append (print_pair p) (b',' ∷ print_pairs (q ∷ ps)) in
      let u : drop (suc (length (print_pair p))) (print_pairs (p ∷ q ∷ ps)) ≡ print_pairs (q ∷ ps) =
        drop_behind (print_pair p) b',' (print_pairs (q ∷ ps)) in
      (
        r,
        os2,
        ground (arith, comma_behind front p (print_pairs (q ∷ ps)) good.0, t, u, run, run'),
        rw (← append_assoc so_far (param_of p ∷ []) (params_of (q ∷ ps))) h,
      )

  -- From the text of pairs that have a name and do not end in a backslash, written in order with
  -- their special bytes escaped, `format_params` builds the list of just these pairs, in the same
  -- order and as they are written, unless one of the allocations that it asks for fails. It returns in
  -- any case.
  pub format_params_lem :
      (ps : List (Bytes × Bytes)) (arena : Arena) (os : Os)
      → All IsPair ps
      → length (print_pairs ps) < 2 ^ 59
      → os.answers ≡ answers
      → Runs (format_params max_align arena (print_pairs ps) os) (IsList os.calls (params_of ps))
  unfolding format_params
  format_params_lem ps arena os good short same =
      elim (Option-cases (os.answers os.calls (length (print_pairs ps) + 1))) [
        | inl e ↦ (
          (none, arena),
          record os { calls = os.calls + 1 },
          ground (arith, e),
          (
            (same, omega arith),
            inl (os.calls, length (print_pairs ps) + 1, omega arith, omega arith, rw (← same) e),
          ),
        )
        | inr (a, e) ↦
            let os1 : Os = record os { calls = os.calls + 1; live = a ∷ os.live } in
            let c =
              copied_lem a (print_pairs ps) os1 (print_pairs-IsText ps good)
                (omega (arith, short)) in
            let (r, os2, run, (kept, made)) =
              loop_runs (suc (length (print_pairs ps))) os.calls ps [] arena none
                (os.garbage (a - 1)) os1 (omega arith) good (omega arith) short same (inr refl) in
            (r, record os2 { live = remove a os2.live }, ground (arith, e, c, run), (kept, made))
      ]
