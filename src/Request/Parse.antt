-- ===== src/Request/Parse.antt =====
-- server/src/request.c: from the raw request to the struct.
pub mod Section
pub mod Braces
pub mod Fill
pub mod Three
pub mod Made
pub mod Crash
use iomessage.Prelude.{
  ℕ, zero, suc, ◌+◌, ◌-◌, ◌%◌, ◌^◌, Bool, true, false, not, ◌||◌, Option, none, some, List, [], ◌∷◌,
  ◌++◌, ◌==◌, if◌then◌else◌, ltb, length, drop, Bytes,
}
use iomessage.Text.{Cursor, sub_size, byte_at, advance, get_substr, escaped_strchr}
use iomessage.Memory.{Os, Outcome, done, aborts, runs_out, M, pure, ◌>>=◌, ◌>>◌, fresh_bytes}
use iomessage.Arena.{Arena, create_arena, arena_alloc, arena_destroy}
use iomessage.Request.Types.{ℤ, unknown, text_of, string_type_to_int}
use iomessage.Request.Params.{ParamList, fresh, copied, format_params}

-- `sizeof(request_t)` on a 64-bit machine
abbrev pub request_struct_size : ℕ
request_struct_size = 48

-- `request_t`, with the texts that its pointers lead to. `arena` holds the struct and all of them.
pub record Request : Type 0 where
  pub communicator_id : ℕ
  pub request_type : ℤ
  pub request_parameters : Option ParamList
  pub payload : Bytes
  pub raw_request : Bytes
  pub arena : Arena

-- `malloc` sets no field: what is not set yet is given as the empty value here, and the code reads
-- none of it before it is set.
unfoldable pub allocate_request : ℕ → Bytes → M (Option Request)
allocate_request max_align raw = do
  made ← create_arena
  elim made [
    | none ↦ pure none
    | some a ↦ do
      (req, b) ← arena_alloc max_align a request_struct_size
      elim req [
        | none ↦ do arena_destroy b; pure none
        | some _ ↦ do
          (block, c) ← arena_alloc max_align b (length raw + 1)
          elim block [
            | none ↦ do arena_destroy c; pure none
            | some r ↦ do
              text ← copied r raw
              pure (
                  some (record {
                    communicator_id = 0;
                    request_type = unknown;
                    request_parameters = none;
                    payload = [];
                    raw_request = text;
                    arena = c;
                  }))
          ]
      ]
  ]

-- The text between the first `{` and the first `}` that are not escaped, once both are found.
abbrev pub between : ℕ → Arena → Cursor → ℕ → ℕ → M (Option Bytes × Cursor × Arena)
between max_align arena cursor start end = do
  let size = sub_size end (suc start)
  (block, b) ← arena_alloc max_align arena ((size + 1) % 2 ^ 64)
  elim block [
    | none ↦ pure (none, cursor, b)
    | some s ↦ do
      bytes ← fresh s (size + 1)
      pure (
        some (text_of (get_substr bytes (drop (suc start) cursor.text) size (size + 1)).0),
        advance cursor (suc end),
        b,
      )
  ]

-- The bodies of `get_type`, `get_params` and `get_payload` differ in nothing but the names of their
-- variables. The result: what is returned, the cursor and the arena.
unfoldable pub get_type : ℕ → Arena → Cursor → M (Option Bytes × Cursor × Arena)
get_type max_align arena cursor = elim (escaped_strchr cursor b'{') [
  | none ↦ pure (none, cursor, arena)
  | some type_start ↦ elim (escaped_strchr cursor b'}') [
    | none ↦ pure (none, cursor, arena)
    | some type_end ↦ between max_align arena cursor type_start type_end
  ]
]

unfoldable pub get_params : ℕ → Arena → Cursor → M (Option Bytes × Cursor × Arena)
unfolding get_type
get_params max_align arena cursor = get_type max_align arena cursor

unfoldable pub get_payload : ℕ → Arena → Cursor → M (Option Bytes × Cursor × Arena)
unfolding get_type
get_payload max_align arena cursor = get_type max_align arena cursor

-- The three texts, if all are there.
abbrev pub all_three : Option Bytes → Option Bytes → Option Bytes → Option (Bytes × Bytes × Bytes)
all_three (some type) (some param_str) (some payload) = some (type, param_str, payload)
all_three _ _ _ = none

-- All three are asked for, each from where the one before has left the cursor.
abbrev pub get_three : ℕ → Arena → Cursor → M (Option (Bytes × Bytes × Bytes) × Arena)
get_three max_align arena cursor = do
  (type, c1, a1) ← get_type max_align arena cursor
  (param_str, c2, a2) ← get_params max_align a1 c1
  (payload, c3, a3) ← get_payload max_align a2 c2
  pure (all_three type param_str payload, a3)

-- The part of `format_req` behind the three texts, which stand in `func_arena`.
abbrev pub fill_req : ℕ → Arena → Bytes × Bytes × Bytes → Request → M (ℕ × Request)
fill_req max_align func_arena (type, param_str, payload) req = do
  (block, b) ← arena_alloc max_align req.arena (length payload + 1)
  elim block [
    | none ↦ do arena_destroy func_arena; pure (1, record req { arena = b })
    | some p ↦ do
      (params, c) ← format_params max_align b param_str
      text ← copied p payload
      arena_destroy func_arena
      pure (
        0,
        record req {
          request_type = string_type_to_int type;
          request_parameters = params;
          payload = text;
          arena = c;
        },
      )
  ]

-- `front` is the byte in memory in front of `raw`. The result: what is returned, and the request.
unfoldable pub format_req : ℕ → ℕ → Bytes → Request → M (ℕ × Request)
unfolding get_type get_params get_payload
format_req max_align front raw req os =
    if ltb (length raw) 8
    then done (1, req) os
    else if not (byte_at raw 0 == b'[') || not (byte_at raw (length raw - 1) == b']')
    then done (1, req) os
    else (do
      made ← create_arena
      elim made [
        | none ↦ pure (1, req)
        | some a ↦ do
          (found, a3) ← get_three max_align a (record { before = front; text = raw })
          elim found [
            | none ↦ do arena_destroy a3; pure (1, req)
            | some texts ↦ elim texts.0 [
              | [] ↦ do arena_destroy a3; pure (1, req)
              | _ ∷ _ ↦ fill_req max_align a3 texts req
            ]
          ]
      ])
        os

unfoldable pub destroy_req : Request → M (Unit {0})
destroy_req req = arena_destroy req.arena

unfoldable pub make_req : ℕ → ℕ → Bytes → ℕ → M (Option Request)
unfolding format_req destroy_req
make_req max_align front raw communicator_id = do
  made ← allocate_request max_align raw
  elim made [
    | none ↦ pure none
    | some req ↦ do
      (err, filled) ← format_req max_align front raw req
      elim (err == 0) [
        | true ↦ pure (some (record filled { communicator_id = communicator_id }))
        | false ↦ do destroy_req filled; pure none
      ]
  ]
