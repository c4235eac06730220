-- ===== src/Setup/Tests.antt =====
-- The contexts on concrete systems.
use iomessage.Prelude.{ℕ, ◌≡◌, refl, arith, not, none, [], ◌==◌, codes}
use iomessage.Text.{copy_str}
use iomessage.Request.Types.{pos}
use iomessage.Config.{strtol, digits_value}
use iomessage.Setup.{
  Windows, System, by_copy_str, copied_to, atoi, array_of, port_of, ServerContext,
}
use iomessage.Setup.Server.{
  init_server, accept_conn, context_of, IsBalanced, init_server-IsBalanced, IsAccepted,
  accept_conn-IsAccepted,
}
use iomessage.Setup.Client.{init_client, IsClientBalanced, init_client-IsClientBalanced}
use iomessage.Setup.Copies.{SameServer, client_side_init_server, client_side_init_server-same}

-- All calls succeed but one.
abbrev pub fails_at : ℕ → Windows
fails_at n = record {
  succeeds = λ k. not (k == n);
  garbage = λ i. 170;
  peer_ip = λ k. none;
  peer_port = λ k. 50123;
}

abbrev nothing : System
nothing = record { calls = 0; held = [] }

port_runs : (port_of by_copy_str (fails_at 9) 0 (codes "6335")).num_port ≡ pos 6335
unfolding port_of array_of copied_to by_copy_str copy_str atoi strtol digits_value
port_runs = refl

init_server-IsBalanced_example :
    IsBalanced by_copy_str
      (fails_at 3)
      nothing
      (init_server by_copy_str (fails_at 3) (codes "6335") nothing)
init_server-IsBalanced_example =
    init_server-IsBalanced by_copy_str (fails_at 3) (codes "6335") nothing

abbrev context : ServerContext
context = context_of by_copy_str (fails_at 99) (codes "6335") 0 1 3 4

accept_conn-IsAccepted_example :
    IsAccepted by_copy_str
      (fails_at 99)
      nothing
      (accept_conn by_copy_str (fails_at 99) context nothing)
accept_conn-IsAccepted_example = accept_conn-IsAccepted by_copy_str (fails_at 99) context nothing

init_client-IsClientBalanced_example :
    IsClientBalanced by_copy_str
      (fails_at 6)
      nothing
      (init_client by_copy_str (fails_at 6) (codes "6335") (codes "0") (codes "127.0.0.1") nothing)
init_client-IsClientBalanced_example =
    init_client-IsClientBalanced by_copy_str (fails_at 6) (codes "6335") (codes "0")
      (codes "127.0.0.1") nothing

client_side_init_server-same_example :
    SameServer
      (fails_at 99)
      (client_side_init_server (fails_at 99) (codes "6335") nothing)
      (init_server by_copy_str (fails_at 99) (codes "6335") nothing)
client_side_init_server-same_example =
    client_side_init_server-same (fails_at 99) (codes "6335") nothing (ground arith)
