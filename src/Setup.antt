-- ===== src/Setup.antt =====
-- server/src/win/NetworkManager_win_imp.c: the contexts of the server and of the client, and accepting.
-- What the system answers is a parameter, for each call by its number; what was obtained and not given
-- back is the state. A handle is the number of the call that gave it.
pub mod Server
pub mod Client
pub mod Copies
pub mod Tests
use iomessage.Prelude.{
  ℕ, zero, suc, ◌+◌, ◌-◌, ◌%◌, ◌^◌, Bool, true, false, ◌&&◌, Option, none, some, List, [], ◌∷◌,
  ◌++◌, ◌==◌, if◌then◌else◌, length, set, take, drop, replicate, Bytes, codes, tabulate,
}
use iomessage.Text.{copy_str}
use iomessage.Request.Types.{ℤ, pos, text_of}
use iomessage.Response.{decimal}
use iomessage.Config.{Long, long, out_of_range, strtol}

-- `PORT_LEN_MAX` and `IP_LEN_MAX`
abbrev pub port_len_max : ℕ
port_len_max = 6

abbrev pub ip_len_max : ℕ
ip_len_max = 16

-- `LOOPBACK`
abbrev pub loopback : Bytes
loopback = codes "127.0.0.1"

-- A block of `malloc`, a start of Winsock, a list of `getaddrinfo`, a socket,
-- and the handle of a thread.
pub data Kind : Type 0 where
  block : Kind
  winsock : Kind
  addr_info : Kind
  socket : Kind
  thread : Kind

abbrev pub same_kind : Kind → Kind → Bool
same_kind block block = true
same_kind winsock winsock = true
same_kind addr_info addr_info = true
same_kind socket socket = true
same_kind thread thread = true
same_kind _ _ = false

-- The system: whether each call succeeds, what fresh memory holds, and the name of a peer: its
-- address as text, where that can be had, and its port.
pub record Windows : Type 0 where
  pub succeeds : ℕ → Bool
  pub garbage : ℕ → ℕ
  pub peer_ip : ℕ → Option Bytes
  pub peer_port : ℕ → ℕ

pub record System : Type 0 where
  pub calls : ℕ
  pub held : List (Kind × ℕ)

-- A call of the program returns, or it ends by `abort_error`.
pub data Ran (A : Type 0) : Type 0 where
  returned : A → System → Ran A
  ended : System → Ran A

abbrev pub S : Type 0 → Type 0
S A = System → Ran A

abbrev pub pure : {A : Type 0} → A → S A
pure a s = returned a s

infixl 5 ◌>>=◌ ◌>>◌
abbrev pub ◌>>=◌ : {A B : Type 0} → S A → (A → S B) → S B
◌>>=◌ m f s = elim (m s) [ returned a s' ↦ f a s' | ended s' ↦ ended s' ]

abbrev pub ◌>>◌ : {B : Type 0} → S (Unit {0}) → S B → S B
m >> k = m >>= λ _. k

abbrev pub drop_held : Kind → ℕ → List (Kind × ℕ) → List (Kind × ℕ)
drop_held kind handle [] = []
drop_held kind handle ((k, h) ∷ held) =
    if same_kind kind k && (handle == h) then held else (k, h) ∷ drop_held kind handle held

abbrev pub release : Kind → ℕ → S (Unit {0})
release kind handle s = returned tt (record s { held = drop_held kind handle s.held })

-- `freeaddrinfo`, `closesocket`, `free` and `WSACleanup`, of what there is, on the way to `abort_error`.
abbrev pub give_up : {A : Type 0} → List (Kind × ℕ) → S A
give_up [] s = ended s
give_up ((kind, handle) ∷ rest) s = give_up rest (record s { held = drop_held kind handle s.held })

module _ (windows : Windows) where
  -- A call that can only fail or not.
  abbrev pub ask : S Bool
  ask s = returned (windows.succeeds s.calls) (record s { calls = s.calls + 1 })

  abbrev pub obtain : Kind → S (Option ℕ)
  obtain kind s = elim (windows.succeeds s.calls) [
    | true ↦
        returned (some s.calls) (record s { calls = s.calls + 1; held = (kind, s.calls) ∷ s.held })
    | false ↦ returned none (record s { calls = s.calls + 1 })
  ]

-- `atoi`; no text of five bytes is out of its range.
abbrev pub int_of : Long → ℤ
int_of (long z) = z
int_of out_of_range = pos 0

unfoldable pub atoi : Bytes → ℤ
unfolding strtol
atoi text = int_of (strtol text)

-- A copy into an array, by `copy_str`, or by `strncpy`, which fills up with NUL and writes no terminator
-- behind a text that is too long: the only difference between the server's file and the client's.
abbrev pub Copier : Type 0
Copier = Bytes → Bytes → ℕ → Bytes

unfoldable pub by_copy_str : Copier
by_copy_str dst src len = (copy_str dst src len).0

unfoldable pub by_strncpy : Copier
by_strncpy dst src len = take len (src ++ replicate len 0) ++ drop len dst

-- The copy into an array in the struct, and the terminator behind it.
unfoldable pub copied_to : Copier → Bytes → ℕ → Bytes → Bytes
copied_to copy junk len text = set (copy junk text len) (len - 1) 0

-- `NM_srv_port_t`
pub record Port : Type 0 where
  pub string_port : Bytes
  pub num_port : ℤ

-- `NM_conn_t`, without what sending and receiving needs.
pub record Connection : Type 0 where
  pub address : ℕ
  pub n_sock : ℕ
  pub string_ip : Bytes
  pub port : Port

-- `NM_srv_context_t`; `started` is the start of Winsock that `WSACleanup` ends.
pub record ServerContext : Type 0 where
  pub address : ℕ
  pub n_sock : ℕ
  pub addr : ℕ
  pub string_ip : Bytes
  pub port : Port
  pub started : ℕ

-- `NM_client_context_t`
pub record ClientContext : Type 0 where
  pub address : ℕ
  pub n_sock : ℕ
  pub dest_addr : ℕ
  pub src_addr : ℕ
  pub string_ip : Bytes
  pub port : Port
  pub connection : Connection
  pub started : ℕ

module _ (copy : Copier) (windows : Windows) where
  -- The array of a struct that starts at the address, with a text copied into it.
  unfoldable pub array_of : ℕ → ℕ → Bytes → Bytes
  unfolding copied_to
  array_of start len text =
      copied_to copy (tabulate len (λ i. windows.garbage (start + i))) len text

  unfoldable pub port_of : ℕ → Bytes → Port
  unfolding array_of atoi
  port_of start text = record {
    string_port = array_of start port_len_max text;
    num_port = atoi (text_of (array_of start port_len_max text));
  }
