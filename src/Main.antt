-- ===== src/Main.antt =====
-- server/src/main.c: the arguments of the command line, and the making of a communicator.
pub mod Args
pub mod Sessions
pub mod Tests
use iomessage.Prelude.{
  ℕ, zero, suc, ◌+◌, ◌-◌, ◌*◌, ◌^◌, Bool, true, false, ◌&&◌, Option, none, some, List, [], ◌∷◌,
  if◌then◌else◌, leb, Bytes, codes,
}
use iomessage.Request.Types.{ℤ, pos, negsuc, same_text}
use iomessage.Config.{
  Property, property_list_empty, Long, long, out_of_range, strtol, Number, number, exits, crashes,
  get_num_property, default_port, Loaded, loaded, null_written, not_done, init_properties_by_file,
}

-- What `parse_args` works on: its two flags, `param_port`, and `glob_property_list`.
pub record Settings : Type 0 where
  pub has_port : Bool
  pub has_conf : Bool
  pub param_port : ℕ
  pub properties : List Property

-- The settings, the end of the program by `abort_error`, or by a NULL that is followed.
pub data Parsed : Type 0 where
  parsed : Settings → Parsed
  stopped : Parsed
  crashed : Parsed

abbrev pub in_range : ℕ → Option ℕ
in_range n = if leb 1024 n && leb n 65535 then some n else none

-- The number of the text, if it is one that a port may have: a negative one is, as a `size_t`, too large.
abbrev pub port_number : Long → Option ℕ
port_number (long (pos n)) = in_range n
port_number (long (negsuc n)) = none
port_number out_of_range = none

-- What the files are and whether there is memory to read one is up to the system.
module _ (files : Bytes → Option Bytes) (gives : Bytes → ℕ → Bool) where
  -- The arguments behind the program's name. An argument that is refused is looked at again.
  pub parse_loop : List Bytes → Settings → Parsed
  unfolding strtol init_properties_by_file
  parse_loop [] s = parsed s
  parse_loop (arg ∷ []) s = elim (same_text (codes "-p") arg) [
    | true ↦ stopped
    | false ↦ elim (same_text (codes "-c") arg) [ true ↦ stopped | false ↦ parsed s ]
  ]
  parse_loop (arg ∷ value ∷ args) s = elim (same_text (codes "-p") arg) [
    | true ↦ elim (port_number (strtol value)) [
      | none ↦ parse_loop (value ∷ args) (record s { param_port = 0; has_port = false })
      | some n ↦ parse_loop args (record s { param_port = n; has_port = true })
    ]
    | false ↦ elim (same_text (codes "-c") arg) [
      | false ↦ parse_loop (value ∷ args) s
      | true ↦
          let (status, list) = init_properties_by_file (gives value) (files value) in
          elim list [
            | loaded properties ↦ elim status [
              | zero ↦ parse_loop args (record s { properties = properties; has_conf = true })
              | suc _ ↦
                  parse_loop (value ∷ args) (record s { properties = properties; has_conf = false })
            ]
            | null_written ↦ crashed
            | not_done ↦ crashed
          ]
    ]
  ]

  -- Without a port of its own, the program takes the one of the configuration.
  abbrev pub with_default_port : Settings → Number → Parsed
  with_default_port s (number n) = parsed (record s { param_port = n })
  with_default_port s exits = stopped
  with_default_port s crashes = crashed

  abbrev pub choose_port : Parsed → Parsed
  choose_port (parsed s) = elim s.has_port [
    | true ↦ parsed s
    | false ↦ with_default_port s (get_num_property s.properties default_port)
  ]
  choose_port stopped = stopped
  choose_port crashed = crashed

  unfoldable pub parse_args : List Bytes → Parsed
  unfolding parse_loop
  parse_args args = choose_port (
      parse_loop args (record {
        has_port = false;
        has_conf = false;
        param_port = 0;
        properties = property_list_empty;
      }))
