-- ===== src/Communicator/Tests.antt =====
-- The communicator with concrete clients: one that sends nothing, and one whose request is in the buffer.
use iomessage.Prelude.{
  ◌+◌, ◌*◌, ◌<◌, ◌^◌, ◌≡◌, refl, sym, ap, ap₂, ◌≤◌, arith, false, true, none, some, [], ◌∷◌, ◌++◌,
  length, Bytes, codes,
}
use iomessage.Text.{is_special}
use iomessage.Text.Copy.{IsText}
use iomessage.Text.Escape.{escape}
use iomessage.Request.Types.{text_of, string_type_to_int}
use iomessage.Response.{raw_text, decimal}
use iomessage.Memory.{Os}
use iomessage.Memory.Runs.{Runs}
use iomessage.Arena.Calls.{IsSetup}
use iomessage.Arena.Tests.{grants, grants-IsHonest, small_os}
use iomessage.Request.Parse.Braces.{print_req}
use iomessage.Request.Params.Pairs.{differs}
use iomessage.RecvBuf.Stream.{Keeps}
use iomessage.RecvBuf.Tests.{silent_conn, silent_conn-IsClean, silent-arrived}
use iomessage.Config.{
  property_list_def, number, get_num_property, max_message_len, max_client_timeout,
  max_client_errors, search_property, digits_value, strtol, property_val, get_property_by_name,
}
use iomessage.Communicator.{World, Comm, ungraceful_status, timed_out_text}
use iomessage.Communicator.Run.{start_comm, round, communicator_main}
use iomessage.Communicator.Next.{Carries}
use iomessage.Communicator.Serves.{IsServerType, IsServed, round-IsServed}
use iomessage.Communicator.Silent.{IsQuiet, IsCutOff, communicator_main-IsCutOff}

-- Memory without end.
abbrev large_os : Os
large_os = record {
  answers = λ k n. some (4096 * (k + 1));
  calls = 0;
  live = [];
  garbage = λ i. 170;
}

abbrev world : World
world = record {
  accepts = λ k. true;
  responses = λ k. none;
  exit_flag = λ k. false;
  front = 0;
  max_align = 16;
  send_fuel = 100;
  pop_fuel = 1;
}

told_short : length (raw_text ungraceful_status (text_of timed_out_text)) ≤ 100
unfolding decimal
told_short = omega arith

len_set : get_num_property property_list_def max_message_len ≡ number 100
unfolding get_num_property property_val get_property_by_name search_property strtol digits_value
len_set = refl

timeout_set : get_num_property property_list_def max_client_timeout ≡ number 240
unfolding get_num_property property_val get_property_by_name search_property strtol digits_value
timeout_set = refl

errors_set : get_num_property property_list_def max_client_errors ≡ number 5
unfolding get_num_property property_val get_property_by_name search_property strtol digits_value
errors_set = refl

world-IsQuiet : IsQuiet world
world-IsQuiet = record {
  empty = λ k. refl;
  running = λ k. refl;
  pops = (0, refl);
  sends = told_short;
}

communicator_main-IsCutOff_example :
    Runs
      (communicator_main world 2402 property_list_def 3 77 silent_conn large_os)
      (λ r os'. IsCutOff world world-IsQuiet 240 r.0 r.1)
communicator_main-IsCutOff_example =
    communicator_main-IsCutOff world world-IsQuiet 2402 property_list_def 3 77 100 240 5 silent_conn
      large_os len_set timeout_set errors_set (omega arith) (omega arith) (λ k. refl) (λ k e. cc)
      (λ k n. (4096 * (k + 1), refl)) (omega arith)

abbrev setup : IsSetup 16 grants
setup = record {
  positive = omega arith;
  small = omega arith;
  power = refl;
  honest = grants-IsHonest;
}

abbrev held : Bytes
held = codes "[{a}{}{}]"

abbrev free_byte : Bytes
free_byte = 0 ∷ []

abbrev client : Comm
client = record (start_comm world 3 77 silent_conn 100 240 5) {
  recv_buf = record { buf = held ++ free_byte; cap = 11; len = 9 };
}

held-Keeps : Keeps client.recv_buf held
held-Keeps = record {
  free = free_byte;
  buffered = (refl, refl);
  few = omega arith;
  size = refl;
  cap = refl;
}

is_text : print_req (codes "a") [] [] ≡ held
unfolding is_special
is_text = refl

is_short : length (print_req (codes "a") [] []) < 2 ^ 58
is_short = omega (arith, ap length is_text)

held-IsText : IsText held
held-IsText = ground arith

is_unknown : IsServerType (string_type_to_int (escape (codes "a")))
unfolding is_special string_type_to_int
is_unknown = tt

held-Carries : Carries held client.conn (print_req (codes "a") [] [] ++ [])
held-Carries n =
    ([], ap₂ (λ a b. a ++ (b ++ [])) (sym is_text) (silent-arrived n silent_conn (λ k. refl)))

round-IsServed_example : Runs (round world client small_os) (λ r os'.
    IsServed world grants setup
      (codes "a")
      []
      []
      (omega arith, tt)
      tt
      (omega arith)
      (differs b'a' b'\\' refl)
      (differs b'{' b'\\' refl)
      tt
      is_short
      0
      client
      held
      []
      r.0
      r.1
      os')
round-IsServed_example =
    round-IsServed world grants setup (codes "a") [] [] (omega arith, tt) tt (omega arith)
      (differs b'a' b'\\' refl) (differs b'{' b'\\' refl) tt is_short client held [] small_os 0 refl
      (omega arith) (omega arith) refl refl refl is_unknown held-Keeps held-IsText
      silent_conn-IsClean held-Carries
