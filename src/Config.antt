-- ===== src/Config.antt =====
-- server/src/utils.c: the properties of the server, and the file that sets them.
pub mod Lines
pub mod Load
pub mod Numbers
pub mod Tests
use iomessage.Prelude.{
  ℕ, zero, suc, ◌+◌, ◌-◌, ◌*◌, ◌^◌, Bool, true, false, not, ◌&&◌, ◌||◌, Option, none, some, List,
  [], ◌∷◌, ◌++◌, ◌==◌, if◌then◌else◌, ltb, leb, length, get_elem?, set, take, drop, replicate,
  Bytes,
}
use iomessage.Text.{copy_str, strchr, shift}
use iomessage.Request.Types.{ℤ, pos, negsuc, same_text, text_of}

-- `MAX_VAL`
abbrev pub max_val : ℕ
max_val = 100

-- `property_t`: the text of the name, and the bytes of the array of the value.
pub record Property : Type 0 where
  pub name : Bytes
  pub val : Bytes

abbrev with_default : Bytes → Bytes → Property
with_default name val = record { name = name; val = val ++ replicate (max_val - length val) 0 }

abbrev pub max_clients : Bytes
max_clients = b'M' ∷ b'A' ∷ b'X' ∷ b'_' ∷ b'C' ∷ b'L' ∷ b'I' ∷ b'E' ∷ b'N' ∷ b'T' ∷ b'S' ∷ []

abbrev pub max_client_timeout : Bytes
max_client_timeout =
    b'M' ∷ b'A' ∷ b'X' ∷ b'_' ∷ b'C' ∷ b'L' ∷ b'I' ∷ b'E' ∷ b'N' ∷ b'T' ∷ b'_' ∷ b'T' ∷ b'I' ∷ b'M'
    ∷ b'E' ∷ b'O' ∷ b'U' ∷ b'T' ∷ []

abbrev pub max_client_errors : Bytes
max_client_errors =
    b'M' ∷ b'A' ∷ b'X' ∷ b'_' ∷ b'C' ∷ b'L' ∷ b'I' ∷ b'E' ∷ b'N' ∷ b'T' ∷ b'_' ∷ b'E' ∷ b'R' ∷ b'R'
    ∷ b'O' ∷ b'R' ∷ b'S' ∷ []

abbrev pub max_message_len : Bytes
max_message_len =
    b'M' ∷ b'A' ∷ b'X' ∷ b'_' ∷ b'M' ∷ b'E' ∷ b'S' ∷ b'S' ∷ b'A' ∷ b'G' ∷ b'E' ∷ b'_' ∷ b'L' ∷ b'E'
    ∷ b'N' ∷ []

abbrev pub default_port : Bytes
default_port =
    b'D' ∷ b'E' ∷ b'F' ∷ b'A' ∷ b'U' ∷ b'L' ∷ b'T' ∷ b'_' ∷ b'P' ∷ b'O' ∷ b'R' ∷ b'T' ∷ []

abbrev pub request_queue_cap : Bytes
request_queue_cap =
    b'R' ∷ b'E' ∷ b'Q' ∷ b'U' ∷ b'E' ∷ b'S' ∷ b'T' ∷ b'_' ∷ b'Q' ∷ b'U' ∷ b'E' ∷ b'U' ∷ b'E' ∷ b'_'
    ∷ b'C' ∷ b'A' ∷ b'P' ∷ []

abbrev pub response_queue_cap : Bytes
response_queue_cap =
    b'R' ∷ b'E' ∷ b'S' ∷ b'P' ∷ b'O' ∷ b'N' ∷ b'S' ∷ b'E' ∷ b'_' ∷ b'Q' ∷ b'U' ∷ b'E' ∷ b'U' ∷ b'E'
    ∷ b'_' ∷ b'C' ∷ b'A' ∷ b'P' ∷ []

-- `glob_property_list_DEF`, and `glob_property_list` as the program begins.
abbrev pub property_list_def : List Property
property_list_def =
    with_default max_clients (b'1' ∷ b'0' ∷ b'0' ∷ [])
    ∷ with_default max_client_timeout (b'2' ∷ b'4' ∷ b'0' ∷ [])
    ∷ with_default max_client_errors (b'5' ∷ [])
    ∷ with_default max_message_len (b'1' ∷ b'0' ∷ b'0' ∷ [])
    ∷ with_default default_port (b'6' ∷ b'3' ∷ b'3' ∷ b'5' ∷ [])
    ∷ with_default request_queue_cap (b'5' ∷ b'0' ∷ [])
    ∷ with_default response_queue_cap (b'2' ∷ b'0' ∷ [])
    ∷ []

abbrev pub property_list_empty : List Property
property_list_empty = replicate 7 (with_default [] [])

-- The place of the property in its list.
unfoldable pub search_property : Bytes → List Property → Option ℕ
search_property name [] = none
search_property name (p ∷ ps) = elim (same_text name p.name) [
  | true ↦ some 0
  | false ↦ shift 1 (search_property name ps)
]

-- What the returned pointer leads to: a property of `glob_property_list`, one of the defaults, or NULL.
pub data Found : Type 0 where
  set_property : ℕ → Found
  default_property : ℕ → Found
  no_property : Found

abbrev found_default : Option ℕ → Found
found_default none = no_property
found_default (some i) = default_property i

unfoldable pub get_property_by_name : List Property → Bytes → Found
unfolding search_property
get_property_by_name list name = elim (search_property name list) [
  | some i ↦ set_property i
  | none ↦ found_default (search_property name property_list_def)
]

abbrev pub val_at : List Property → ℕ → Option Bytes
val_at list i = elim (get_elem? list i) [ none ↦ none | some p ↦ some (text_of p.val) ]

-- `property->val`; `none` is a NULL that is followed, which ends the program.
unfoldable pub property_val : List Property → Bytes → Option Bytes
unfolding get_property_by_name
property_val list name = elim (get_property_by_name list name) [
  | set_property i ↦ val_at list i
  | default_property i ↦ val_at property_list_def i
  | no_property ↦ none
]

abbrev is_space : ℕ → Bool
is_space c = (c == b' ') || (leb 9 c && leb c 13)

-- The digits at the front of a text, as a number behind `n`.
unfoldable pub digits_value : ℕ → Bytes → ℕ
digits_value n [] = n
digits_value n (c ∷ cs) = elim (leb b'0' c && leb c b'9') [
  | true ↦ digits_value (n * 10 + (c - b'0')) cs
  | false ↦ n
]

-- What `strtol` answers, and whether it sets `errno`. A `long` has 32 bits on Windows.
pub data Long : Type 0 where
  long : ℤ → Long
  out_of_range : Long

abbrev positive_long : ℕ → Long
positive_long n = if ltb n (2 ^ 31) then long (pos n) else out_of_range

abbrev negative_long : ℕ → Long
negative_long zero = long (pos 0)
negative_long (suc n) = if ltb n (2 ^ 31) then long (negsuc n) else out_of_range

abbrev signed_long : Bytes → Long
unfolding digits_value
signed_long [] = long (pos 0)
signed_long (c ∷ cs) =
    if c == b'-'
    then negative_long (digits_value 0 cs)
    else if c == b'+'
    then positive_long (digits_value 0 cs)
    else positive_long (digits_value 0 (c ∷ cs))

-- `strtol` with base 10
unfoldable pub strtol : Bytes → Long
unfolding digits_value
strtol [] = long (pos 0)
strtol (c ∷ cs) = elim (is_space c) [ true ↦ strtol cs | false ↦ signed_long (c ∷ cs) ]

-- `abs` of an `int`, as a `size_t`: the least `int` has no positive counterpart and stays.
abbrev pub abs_size : ℤ → ℕ
abs_size (pos n) = n
abs_size (negsuc n) = if n == 2 ^ 31 - 1 then 2 ^ 64 - 2 ^ 31 else n + 1

-- A number, the end of the program by `abort_error`, or by a NULL that is followed.
pub data Number : Type 0 where
  number : ℕ → Number
  exits : Number
  crashes : Number

abbrev number_of : Long → Number
number_of (long z) = number (abs_size z)
number_of out_of_range = exits

unfoldable pub get_num_property : List Property → Bytes → Number
unfolding property_val strtol
get_num_property list name = elim (property_val list name) [
  | none ↦ crashes
  | some val ↦ number_of (strtol val)
]

-- The buffer after the call; `none` is a failed assert or a NULL that is followed.
unfoldable pub get_str_property : List Property → Bytes → Bytes → ℕ → Option Bytes
unfolding property_val
get_str_property list name dest dest_size = elim (property_val list name) [
  | none ↦ none
  | some val ↦ if leb (length val) dest_size then some (copy_str dest val dest_size).0 else none
]

-- The file from the place on where it is read. The size of a line, and the line with what is behind it:
-- nothing behind it is the end of the file.
unfoldable pub get_line_size : Bytes → ℕ
get_line_size [] = 0
get_line_size (c ∷ cs) = elim (c == b'\n') [ true ↦ 0 | false ↦ suc (get_line_size cs) ]

unfoldable pub get_line : Bytes → Bytes × Option Bytes
get_line [] = ([], none)
get_line (c ∷ cs) = elim (c == b'\n') [
  | true ↦ ([], some cs)
  | false ↦ let (line, rest) = get_line cs in (c ∷ line, rest)
]

-- `copy_str(p->val, value_sub, MAX_VAL)`, and the terminator again.
abbrev pub set_val : Bytes → Property → Property
set_val value p = record p { val = set (copy_str p.val value max_val).0 (max_val - 1) 0 }

abbrev pub set_at : List Property → ℕ → Bytes → List Property
set_at list i value = elim (get_elem? list i) [
  | none ↦ list
  | some p ↦ set list i (set_val value p)
]

-- A line with its separator at the offset, if there is one. The names of the list are those of the
-- defaults, so that no name is found in these alone.
abbrev pub apply_setting : List Property → Bytes → Option ℕ → List Property
apply_setting list line none = list
apply_setting list line (some k) = elim (search_property (take k line) list) [
  | none ↦ list
  | some i ↦ set_at list i (drop (suc k) line)
]

-- The list after a line that memory was there for.
unfoldable pub apply_line : List Property → Bytes → List Property
unfolding search_property
apply_line list [] = list
apply_line list (c ∷ cs) = elim (c == b'#') [
  | true ↦ list
  | false ↦ apply_setting list (text_of (c ∷ cs)) (strchr (text_of (c ∷ cs)) b'=')
]

-- Where `malloc` refuses the line, it is skipped, and the line behind it is read to NULL.
pub data Loaded : Type 0 where
  loaded : List Property → Loaded
  null_written : Loaded
  not_done : Loaded

-- `getc` at the end of the file says so again.
abbrev pub still_there : Option Bytes → Bytes
still_there none = []
still_there (some file) = file

abbrev pub is_empty : Bytes → Bool
is_empty [] = true
is_empty (_ ∷ _) = false

-- The `while` of `init_properties_by_file`, one round for each line. Whether `malloc` gives memory for
-- it is a parameter, for each round by the number of those behind it.
pub lines_loop : ℕ → (ℕ → Bool) → List Property → Option Bytes → Loaded
unfolding get_line get_line_size apply_line
lines_loop fuel gives list none = loaded list
lines_loop zero gives list (some file) = not_done
lines_loop (suc fuel) gives list (some file) =
    let (line, behind) = get_line file in
    elim (gives fuel) [
      | true ↦ lines_loop fuel gives (apply_line list line) behind
      | false ↦
          let (next, rest) = get_line (still_there behind) in
          elim (get_line_size file == 0 && is_empty next) [
            | true ↦ lines_loop fuel gives list rest
            | false ↦ null_written
          ]
    ]

-- `none` is a file that cannot be opened. The result: what is returned, and `glob_property_list`.
unfoldable pub init_properties_by_file : (ℕ → Bool) → Option Bytes → ℕ × Loaded
unfolding lines_loop
init_properties_by_file gives none = (1, loaded property_list_def)
init_properties_by_file gives (some file) =
    (0, lines_loop (suc (length file)) gives property_list_def (some file))
