-- ===== src/Request/Tests.antt =====
-- server/src/request.c at a concrete request.
use iomessage.Prelude.{
  ◌<◌, ◌^◌, ◌≡◌, refl, some, List, [], ◌∷◌, arith, length, All, Bytes, replicate, codes,
}
use iomessage.Text.{Cursor, escaped_strchr, is_special}
use iomessage.Memory.Runs.{Runs}
use iomessage.Arena.Calls.{IsSetup}
use iomessage.Arena.Tests.{grants, grants-IsHonest, small_os, one, one-IsArena}
use iomessage.Request.Types.{pos, text_of, string_type_to_int, int_type_to_str}
use iomessage.Request.Types.Names.{string_type_to_int-int_type_to_str}
use iomessage.Request.Params.{format_params}
use iomessage.Request.Params.Pairs.{print_pairs, IsPair, params_of, differs}
use iomessage.Request.Params.Loop.{IsList, format_params_lem}
use iomessage.Request.Parse.{get_type, make_req}
use iomessage.Request.Parse.Section.{braced, IsSection, get_type-IsSection}
use iomessage.Request.Parse.Crash.{get_type-aborts}
use iomessage.Request.Parse.{allocate_request}
use iomessage.Memory.{aborts}
use iomessage.Arena.{
  fresh_page, calculate_align_offset, create_arena, arena_alloc, inc_arena, inc_arena_page,
}
use iomessage.Request.Parse.Braces.{print_req}
use iomessage.Request.Parse.Made.{IsMade, make_req-IsMade}

abbrev setup : IsSetup 16 grants
setup = record {
  positive = omega arith;
  small = omega arith;
  power = refl;
  honest = grants-IsHonest;
}

abbrev login_pairs : List (Bytes × Bytes)
login_pairs = (codes "user", codes "ann") ∷ (codes "key", codes "a:b") ∷ []

login_pairs-IsPair : All IsPair login_pairs
login_pairs-IsPair = ground arith

string_type_to_int-int_type_to_str_example :
    string_type_to_int (text_of (int_type_to_str (pos 4) (replicate 20 7) 20)) ≡ pos 4
string_type_to_int-int_type_to_str_example =
    string_type_to_int-int_type_to_str (pos 4) (replicate 20 7) 20 (omega arith) (omega arith)
      (omega arith)

format_params_lem_example :
    Runs
      (format_params 16 (one 1) (print_pairs login_pairs) small_os)
      (IsList 16 grants setup 0 (params_of login_pairs))
format_params_lem_example =
    format_params_lem 16 grants setup login_pairs (one 1) small_os login_pairs-IsPair (ground arith)
      refl

abbrev bracket : Cursor
bracket = record { before = 0; text = braced (b'[' ∷ []) (codes "EXIT") (b']' ∷ []) }

opens_at : escaped_strchr bracket b'{' ≡ some 1
unfolding escaped_strchr
opens_at = refl

closes_at : escaped_strchr bracket b'}' ≡ some 6
unfolding escaped_strchr
closes_at = refl

get_type-IsSection_example : Runs (get_type 16 (one 1) bracket small_os) (λ r.
    IsSection grants 0 bracket
      (codes "EXIT")
      (record { before = b'}'; text = b']' ∷ [] })
      r.0
      r.1
      r.2)
get_type-IsSection_example =
    get_type-IsSection 16 grants setup 0 (b'[' ∷ []) (codes "EXIT") (b']' ∷ []) (one 1) small_os
      opens_at closes_at (ground arith) (omega arith) (one-IsArena 1 (omega arith)) refl

login_length : length (print_req (codes "LOGIN") login_pairs (codes "{hi}")) ≡ 36
unfolding is_special
login_length = refl

login_short : length (print_req (codes "LOGIN") login_pairs (codes "{hi}")) < 2 ^ 58
login_short = omega (arith, login_length)

make_req-IsMade_example :
    Runs (make_req 16 0 (print_req (codes "LOGIN") login_pairs (codes "{hi}")) 7 small_os) (
      IsMade 16 grants setup
        (codes "LOGIN")
        login_pairs
        (codes "{hi}")
        (ground arith)
        (ground arith)
        (omega arith)
        (differs b'N' b'\\' refl)
        (differs b'}' b'\\' refl)
        login_pairs-IsPair
        login_short
        0
        7)
make_req-IsMade_example =
    make_req-IsMade 16 grants setup (codes "LOGIN") login_pairs (codes "{hi}") (ground arith)
      (ground arith) (omega arith) (differs b'N' b'\\' refl) (differs b'}' b'\\' refl)
      login_pairs-IsPair login_short 0 7 small_os refl

abbrev crossed : Cursor
crossed = record { before = 0; text = codes "[}{abcdef]" }

crossed_opens : escaped_strchr crossed b'{' ≡ some 2
unfolding escaped_strchr
crossed_opens = refl

crossed_closes : escaped_strchr crossed b'}' ≡ some 1
unfolding escaped_strchr
crossed_closes = refl

region_aligned : calculate_align_offset 4096 16 ≡ 0
unfolding calculate_align_offset
region_aligned = refl

get_type-aborts_example :
    get_type 16 (record { pages = fresh_page 8 4096 ∷ []; last = 0 }) crossed small_os ≡ aborts
get_type-aborts_example =
    get_type-aborts 16 4096 8 8192 4096 2 1 crossed small_os (omega arith) (omega arith) refl
      region_aligned refl refl crossed_opens crossed_closes (omega arith) (omega arith)
      (omega arith)

-- The whole request ends the program.
make_req_crashes : make_req 16 0 (codes "[}{abcdef]") 1 small_os ≡ aborts
unfolding make_req allocate_request create_arena arena_alloc calculate_align_offset escaped_strchr
    inc_arena inc_arena_page
make_req_crashes = refl
