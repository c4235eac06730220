-- ===== src/Main/Tests.antt =====
-- A command line, and a session.
use iomessage.Prelude.{refl, arith, true, Option, some, List, [], ◌∷◌, All, Bytes, codes}
use iomessage.Request.Types.{pos}
use iomessage.Config.Lines.{Line, comment, setting, print_lines}
use iomessage.Setup.{System, Connection, block, socket}
use iomessage.Setup.Tests.{fails_at}
use iomessage.Main.{parse_args}
use iomessage.Main.Args.{Arg, port_arg, conf_arg, print_args, IsArg, IsParsed, parse_args-IsParsed}
use iomessage.Main.Sessions.{create_communicator, IsSession, create_communicator-IsSession}

abbrev lines : List Line
lines = comment (codes "the port") ∷ setting (codes "DEFAULT_PORT") (codes "7000") ∷ []

abbrev files : Bytes → Option Bytes
files path = some (print_lines lines)

abbrev given : List Arg
given = conf_arg (codes "a.conf") lines ∷ port_arg 8080 ∷ []

given-IsArg : All (IsArg files (λ path i. true)) given
given-IsArg = ((refl, ground arith), ((omega arith, omega arith), tt))

parse_args-IsParsed_example :
    IsParsed files (λ path i. true) given (parse_args files (λ path i. true) (print_args given))
parse_args-IsParsed_example =
    parse_args-IsParsed files (λ path i. true) given (λ path i. refl) given-IsArg

abbrev accepted : Connection
accepted = record {
  address = 0;
  n_sock = 1;
  string_ip = codes "ERR";
  port = record { string_port = codes "50123"; num_port = pos 50123 };
}

abbrev before : System
before = record { calls = 2; held = (socket, 1) ∷ (block, 0) ∷ [] }

create_communicator-IsSession_example :
    IsSession
      (fails_at 99)
      (record { calls = 0; held = [] })
      (create_communicator (fails_at 99) 20 3 accepted before)
create_communicator-IsSession_example =
    create_communicator-IsSession (fails_at 99) 20 3 accepted before
      (record { calls = 0; held = [] }) refl (omega arith)
