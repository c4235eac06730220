-- ===== src/Main/Args.antt =====
-- `parse_args` on a command line of ports and configuration files.
use iomessage.Prelude.{
  ℕ, ◌≤◌, ◌≡◌, ◌⊎◌, refl, ap, ◌∙◌, arith, Bool, true, false, Option-cases, inl, inr, Option, none,
  some, List, [], ◌∷◌, All, Bytes, codes, take, ◌≢◌, if◌then◌else◌, leb, ◌&&◌,
}
use iomessage.Request.Types.{ℤ, pos, same_text}
use iomessage.Response.{decimal}
use iomessage.Config.{
  Property, property_list_def, property_list_empty, property_val, get_property_by_name,
  search_property, Long, long, out_of_range, strtol, Number, number, exits, crashes,
  get_num_property, default_port,
}
use iomessage.Config.Lines.{Line, comment, malformed, setting, print_lines, IsLine, value_after}
use iomessage.Config.Load.{init_properties_by_file-IsConfigured}
use iomessage.Config.Numbers.{strtol-decimal}
use iomessage.Main.{
  Settings, Parsed, parsed, stopped, crashed, port_number, parse_loop, choose_port, parse_args,
}

-- `-p` with a port, and `-c` with a file of lines.
pub data Arg : Type 0 where
  port_arg : ℕ → Arg
  conf_arg : Bytes → List Line → Arg

abbrev pub print_args : List Arg → List Bytes
print_args [] = []
print_args (port_arg n ∷ xs) = codes "-p" ∷ decimal (pos n) ∷ print_args xs
print_args (conf_arg path ls ∷ xs) = codes "-c" ∷ path ∷ print_args xs

-- The last port, and the lines of the last file.
abbrev pub last_port : List Arg → Option ℕ → Option ℕ
last_port [] p = p
last_port (port_arg n ∷ xs) p = last_port xs (some n)
last_port (conf_arg path ls ∷ xs) p = last_port xs p

abbrev pub last_lines : List Arg → List Line → List Line
last_lines [] ls = ls
last_lines (port_arg n ∷ xs) ls = last_lines xs ls
last_lines (conf_arg path new ∷ xs) ls = last_lines xs new

port_decimal : (n : ℕ) → 1024 ≤ n → n ≤ 65535 → port_number (strtol (decimal (pos n))) ≡ some n
port_decimal n low high =
    let e : (leb 1024 n && leb n 65535) ≡ true = ground (arith, low, high) in
    ap port_number (strtol-decimal (pos n) (omega (arith, high))) ∙ ground (arith, e)

search-empty : (c : ℕ) (cs : Bytes) → search_property (c ∷ cs) property_list_empty ≡ none
unfolding search_property
search-empty c cs = refl

module _ (files : Bytes → Option Bytes) (gives : Bytes → ℕ → Bool) where
  abbrev pub IsArg : Arg → Type 0
  IsArg (port_arg n) = (1024 ≤ n) × (n ≤ 65535)
  IsArg (conf_arg path ls) = (files path ≡ some (print_lines ls)) × All IsLine ls

  -- Each name has the value that the lines make of its default.
  abbrev pub IsSetBy : List Line → List Property → Type 0
  IsSetBy ls ps =
      (c : ℕ)
      → (cs : Bytes)
      → property_val ps (c ∷ cs) ≡ value_after (c ∷ cs) ls (property_val property_list_def (c ∷ cs))

  -- The flag and the port that go with the last port, if there is one.
  abbrev HasPort : Option ℕ → Settings → Type 0
  HasPort none s = s.has_port ≡ false
  HasPort (some n) s = (s.has_port ≡ true) × (s.param_port ≡ n)

  kept_port :
      (p : Option ℕ) (s : Settings) (ps : List Property)
      → HasPort p s
      → HasPort p (record s { properties = ps; has_conf = true })
  kept_port none s ps h = h
  kept_port (some n) s ps h = h

  empty-IsSetBy : IsSetBy [] property_list_empty
  unfolding property_val get_property_by_name
  empty-IsSetBy c cs = elim (Option-cases (search_property (c ∷ cs) property_list_def)) [
    | inl e ↦ ground (arith, search-empty c cs, e)
    | inr (i, e) ↦ ground (arith, search-empty c cs, e)
  ]

  parse_loop-settings :
      (xs : List Arg) (ls : List Line) (p : Option ℕ) (s : Settings)
      → ((path : Bytes) → (i : ℕ) → gives path i ≡ true)
      → All IsArg xs
      → IsSetBy ls s.properties
      → HasPort p s
      → (t : Settings) × (parse_loop files gives (print_args xs) s ≡ parsed t)
        × IsSetBy (last_lines xs ls) t.properties
        × HasPort (last_port xs p) t
  unfolding parse_loop
  parse_loop-settings [] ls p s g h set port = (s, refl, set, port)
  parse_loop-settings (port_arg n ∷ xs) ls p s g h set port =
      let (t, run, sets, last) =
        parse_loop-settings xs ls (some n) (record s { param_port = n; has_port = true }) g h.1 set
          (refl, refl) in
      (t, ground (arith, port_decimal n h.0.0 h.0.1, run), sets, last)
  parse_loop-settings (conf_arg path new ∷ xs) ls p s g h set port =
      let (zeros, (ps, ends, all)) =
        init_properties_by_file-IsConfigured (gives path) new (g path) h.0.1 in
      let (t, run, sets, last) =
        parse_loop-settings xs new p (record s { properties = ps; has_conf = true }) g h.1
          (λ c cs. all (c ∷ cs)) (kept_port p s ps port) in
      (t, ground (arith, h.0.0, zeros, ends, run), sets, last)

  value_some :
      (name : Bytes) (ls : List Line) (old : Bytes)
      → (v : Bytes) × (value_after name ls (some old) ≡ some v)
  value_some name [] old = (old, refl)
  value_some name (comment text ∷ ls) old = value_some name ls old
  value_some name (malformed text ∷ ls) old = value_some name ls old
  value_some name (setting other value ∷ ls) old =
      value_some name ls (if same_text name other then take 99 value else old)

  Long-cases : (l : Long) → ((z : ℤ) × (l ≡ long z)) ⊎ (l ≡ out_of_range)
  Long-cases (long z) = inl (z, refl)
  Long-cases out_of_range = inr refl

  never_crashes :
      (ps : List Property) (name v : Bytes)
      → property_val ps name ≡ some v
      → get_num_property ps name ≢ crashes
  unfolding get_num_property
  never_crashes ps name v e h = elim (Long-cases (strtol v)) [
    | inl (z, l) ↦ ground (arith, e, l, h)
    | inr l ↦ ground (arith, e, l, h)
  ]

  has_default : (v : Bytes) × (property_val property_list_def default_port ≡ some v)
  unfolding property_val get_property_by_name search_property
  has_default = (_, refl)

  abbrev pub PortIs : Option ℕ → Settings → Type 0
  PortIs none t = get_num_property t.properties default_port ≡ number t.param_port
  PortIs (some n) t = t.param_port ≡ n

  -- What `parse_args` must come to: the configuration of the last file, or the defaults, and the last
  -- port, or, if there is none, the number of the configuration's `DEFAULT_PORT`; or the end of the
  -- program, where there is no port and that number is out of range.
  abbrev pub IsParsed : List Arg → Parsed → Type 0
  IsParsed xs (parsed t) = IsSetBy (last_lines xs []) t.properties × PortIs (last_port xs none) t
  IsParsed xs stopped =
      (last_port xs none ≡ none)
      × ((ps : List Property) × IsSetBy (last_lines xs []) ps
          × (get_num_property ps default_port ≡ exits))
  IsParsed xs crashed = ⊥

  Number-cases : (r : Number) → ((n : ℕ) × (r ≡ number n)) ⊎ ((r ≡ exits) ⊎ (r ≡ crashes))
  Number-cases (number n) = inl (n, refl)
  Number-cases exits = inr (inl refl)
  Number-cases crashes = inr (inr refl)

  port_chosen :
      (xs : List Arg) (t : Settings)
      → IsSetBy (last_lines xs []) t.properties
      → HasPort (last_port xs none) t
      → IsParsed xs (choose_port files gives (parsed t))
  port_chosen xs t set port = elim (Option-cases (last_port xs none)) [
    | inr (n, e) ↦ let (flag, same) = rw e at port in rw flag (set, rw e same)
    | inl e ↦
        let flag : t.has_port ≡ false = rw e at port in
        rw flag (elim (Number-cases (get_num_property t.properties default_port)) [
          | inl (n, f) ↦ rw f (set, rw e f)
          | inr (inl f) ↦ rw f (e, (t.properties, set, f))
          | inr (inr f) ↦
              let (old, d) = has_default in
              let (v, k) = value_some default_port (last_lines xs []) old in
              absurd (
                never_crashes t.properties default_port v
                  (set _ _ ∙ ap (value_after default_port (last_lines xs [])) d ∙ k) f)
        ])
  ]

  -- `parse_args` on a command line of ports from 1024 to 65535 behind `-p` and of readable files of comments,
  -- malformed lines and settings behind `-c`, where memory is there: the program goes on with the
  -- configuration of the last file, or the defaults, and the last port, or `DEFAULT_PORT` of that
  -- configuration; it ends only where there is no port and `DEFAULT_PORT` is out of range.
  pub parse_args-IsParsed :
      (xs : List Arg)
      → ((path : Bytes) → (i : ℕ) → gives path i ≡ true)
      → All IsArg xs
      → IsParsed xs (parse_args files gives (print_args xs))
  unfolding parse_args
  parse_args-IsParsed xs g h =
      let (t, run, sets, last) =
        parse_loop-settings xs [] none
          (record {
            has_port = false;
            has_conf = false;
            param_port = 0;
            properties = property_list_empty;
          })
          g h empty-IsSetBy refl in
      rw run (port_chosen xs t sets last)
