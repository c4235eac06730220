-- ===== src/Request/Params.antt =====
-- server/src/request.c: the list of parameters.
pub mod Node
pub mod Pairs
pub mod Loop
use iomessage.Prelude.{
  ℕ, zero, suc, ◌+◌, ◌-◌, Bool, true, false, Option, none, some, List, [], ◌∷◌, ◌++◌, ◌==◌,
  if◌then◌else◌, length, take, drop, Bytes,
}
use iomessage.Text.{Cursor, copy_str, escaped_strchr}
use iomessage.Memory.{
  Os, Outcome, done, aborts, runs_out, M, pure, ◌>>=◌, ◌>>◌, malloc, free, fresh_bytes,
}
use iomessage.Arena.{Arena, create_arena, arena_give_child, arena_alloc, arena_destroy}
use iomessage.Request.Types.{same_text, text_of}

-- `sizeof(struct request_param)` on a 64-bit machine
abbrev pub param_struct_size : ℕ
param_struct_size = 40

-- `req_param_t` without its links: the texts that `name` and `value` point to.
pub record Param : Type 0 where
  pub name : Bytes
  pub value : Bytes

-- The nodes in the order of `next`, from the head on, and the place of the node that the head's
-- `prev` points to. The code reads no other `prev`.
pub record ParamList : Type 0 where
  pub nodes : List Param
  pub last : ℕ

-- What a block holds that nothing was written to.
abbrev pub fresh : ℕ → ℕ → M Bytes
fresh a n os = done (fresh_bytes a n os) os

-- The block at `a`, of just the size that the text needs, once the text was copied to it.
abbrev pub copied : ℕ → Bytes → M Bytes
copied a text = do
  block ← fresh a (length text + 1)
  pure (text_of (copy_str block text (length text + 1)).0)

-- The node, and the arena, which has the blocks of the node behind its own.
unfoldable pub create_node : ℕ → Arena → Bytes → Bytes → M (Option Param × Arena)
create_node max_align arena name value = do
  tmp ← create_arena
  elim tmp [
    | none ↦ pure (none, arena)
    | some tmp_arena ↦ do
      (new_node, t1) ← arena_alloc max_align tmp_arena param_struct_size
      elim new_node [
        | none ↦ do arena_destroy t1; pure (none, arena)
        | some _ ↦ do
          (name_block, t2) ← arena_alloc max_align t1 (length name + 1)
          elim name_block [
            | none ↦ do arena_destroy t2; pure (none, arena)
            | some n ↦ do
              (value_block, t3) ← arena_alloc max_align t2 (length value + 1)
              elim value_block [
                | none ↦ do arena_destroy t3; pure (none, arena)
                | some v ↦ do
                  name_text ← copied n name
                  value_text ← copied v value
                  pure (
                    some (record { name = name_text; value = value_text }),
                    arena_give_child arena t3,
                  )
              ]
          ]
      ]
  ]

unfoldable pub create_param_list : ℕ → Arena → Bytes → Bytes → M (Option ParamList × Arena)
create_param_list max_align arena name value = do
  (made, b) ← create_node max_align arena name value
  elim made [
    | none ↦ pure (none, b)
    | some new_node ↦ pure (some (record { nodes = new_node ∷ []; last = 0 }), b)
  ]

-- The list, and the arena of its nodes. If there is no node, the list is as it was.
unfoldable pub add_param : ℕ → Arena → ParamList → Bytes → Bytes → M (ParamList × Arena)
add_param max_align arena list name value = do
  (made, b) ← create_node max_align arena name value
  elim made [
    | none ↦ pure (list, b)
    | some new_node ↦ pure (
      record { nodes = take (suc list.last) list.nodes ++ (new_node ∷ []); last = suc list.last },
      b,
    )
  ]

pub search_nodes : List Param → Bytes → Option Param
search_nodes [] name = none
search_nodes (p ∷ ps) name = if same_text p.name name then some p else search_nodes ps name

unfoldable pub search_param : ParamList → Bytes → Option Param
unfolding search_nodes
search_param list name = search_nodes list.nodes name

abbrev pub insert_param :
    ℕ → Arena → Option ParamList → Bytes → Bytes → M (Option ParamList × Arena)
insert_param max_align arena none name value = create_param_list max_align arena name value
insert_param max_align arena (some list) name value = do
  (longer, b) ← add_param max_align arena list name value
  pure (some longer, b)

-- A pair: its text up to the comma, and the place behind the comma, which is overwritten by a NUL.
abbrev pub cut_pair : Cursor → Option ℕ → Bytes × Option Cursor
cut_pair pair none = (pair.text, none)
cut_pair pair (some k) =
    (take k pair.text, some (record { before = 0; text = drop (suc k) pair.text }))

-- What becomes of a pair whose colon stands at the offset, if there is one.
abbrev pub take_pair :
    ℕ → Arena → Option ParamList → Bytes → Option ℕ → M (Option ParamList × Arena)
take_pair max_align arena params pair none = pure (params, arena)
take_pair max_align arena params pair (some zero) = pure (params, arena)
take_pair max_align arena params pair (some (suc d)) =
    insert_param max_align arena params (take (suc d) pair) (drop (suc (suc d)) pair)

-- The `while` of `format_params`. Each round but the last leaves a comma behind.
pub params_loop : ℕ → ℕ → Arena → Option ParamList → Option Cursor → M (Option ParamList × Arena)
params_loop fuel max_align arena params none os = done (params, arena) os
params_loop zero max_align arena params (some curr_pair) os = runs_out
params_loop (suc fuel) max_align arena params (some curr_pair) os =
    let cut = cut_pair curr_pair (escaped_strchr curr_pair b',') in
    let colon = escaped_strchr (record { before = curr_pair.before; text = cut.0 }) b':' in
    elim (take_pair max_align arena params cut.0 colon os) [
      | done (params', b) os' ↦ params_loop fuel max_align b params' cut.1 os'
      | aborts ↦ aborts
      | runs_out ↦ runs_out
    ]

unfoldable pub format_params : ℕ → Arena → Bytes → M (Option ParamList × Arena)
unfolding params_loop
format_params max_align arena param_str = do
  copy ← malloc (length param_str + 1)
  elim copy [
    | none ↦ pure (none, arena)
    | some a ↦ do
      text ← copied a param_str
      front ← λ os. done (os.garbage (a - 1)) os
      result ←
          params_loop (suc (length text)) max_align arena none
            (some (record { before = front; text = text }))
      free a
      pure result
  ]
