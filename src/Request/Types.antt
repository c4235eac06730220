-- ===== src/Request/Types.antt =====
-- server/src/request.c: the table of request types and its two readers.
pub mod Names
use iomessage.Prelude.{
  ℕ, zero, suc, ◌+◌, Bool, true, false, ◌&&◌, Option, none, some, List, [], ◌∷◌, ◌==◌,
  if◌then◌else◌, ltb, length, get_elem?, Bytes,
}
use iomessage.Text.{copy_str}

-- The value of a C `int`.
pub data ℤ : Type 0 where
  pos : ℕ → ℤ
  negsuc : ℕ → ℤ

-- `enum e_req_types`
abbrev pub unknown : ℤ
unknown = negsuc 0

abbrev pub heartbeat : ℤ
heartbeat = pos 0

abbrev pub exit_type : ℤ
exit_type = pos 1

abbrev pub login : ℤ
login = pos 2

abbrev pub signin : ℤ
signin = pos 3

abbrev pub msg_t : ℤ
msg_t = pos 4

-- `request_type_t`
pub record RequestType : Type 0 where
  pub str_type : Bytes
  pub type : ℤ

abbrev pub heartbeat_name : Bytes
heartbeat_name = b'H' ∷ b'E' ∷ b'A' ∷ b'R' ∷ b'T' ∷ b'B' ∷ b'E' ∷ b'A' ∷ b'T' ∷ []

abbrev pub exit_name : Bytes
exit_name = b'E' ∷ b'X' ∷ b'I' ∷ b'T' ∷ []

abbrev pub login_name : Bytes
login_name = b'L' ∷ b'O' ∷ b'G' ∷ b'I' ∷ b'N' ∷ []

abbrev pub signin_name : Bytes
signin_name = b'S' ∷ b'I' ∷ b'G' ∷ b'N' ∷ b'I' ∷ b'N' ∷ []

abbrev pub msg_name : Bytes
msg_name = b'M' ∷ b'S' ∷ b'G' ∷ b'_' ∷ b'T' ∷ []

abbrev pub unknown_text : Bytes
unknown_text = b'U' ∷ b'N' ∷ b'K' ∷ b'N' ∷ b'O' ∷ b'W' ∷ b'N' ∷ []

abbrev pub types : List RequestType
types =
    record { str_type = heartbeat_name; type = heartbeat }
    ∷ record { str_type = exit_name; type = exit_type }
    ∷ record { str_type = login_name; type = login }
    ∷ record { str_type = signin_name; type = signin }
    ∷ record { str_type = msg_name; type = msg_t }
    ∷ []

-- `strcmp` gives 0
abbrev pub same_text : Bytes → Bytes → Bool
same_text [] [] = true
same_text [] (d ∷ ds) = false
same_text (c ∷ cs) [] = false
same_text (c ∷ cs) (d ∷ ds) = (c == d) && same_text cs ds

-- The text in a buffer: the bytes before the first NUL.
abbrev pub text_of : Bytes → Bytes
text_of [] = []
text_of (c ∷ cs) = if c == 0 then [] else c ∷ text_of cs

pub search_type : List RequestType → Bytes → ℤ
search_type [] type = unknown
search_type (t ∷ ts) type = if same_text t.str_type type then t.type else search_type ts type

unfoldable pub string_type_to_int : Bytes → ℤ
unfolding search_type
string_type_to_int type = search_type types type

-- The text that is copied.
unfoldable pub type_text : ℤ → Bytes
type_text (negsuc n) = unknown_text
type_text (pos n) = elim (get_elem? types n) [ none ↦ unknown_text | some t ↦ t.str_type ]

-- The buffer after the call.
unfoldable pub int_type_to_str : ℤ → Bytes → ℕ → Bytes
unfolding type_text
int_type_to_str type buf buf_sz = (copy_str buf (type_text type) buf_sz).0
