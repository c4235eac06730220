-- ===== src/Network/Tests.antt =====
-- A connection that takes three bytes of each call.
use iomessage.Prelude.{◌≡◌, refl, [], ◌∷◌, Bytes}
use iomessage.Network.{Conn, took, got, nm_ok, sent_bytes, send_all}
use iomessage.Network.Send.{Ends, send_all-Ends}

abbrev slow : Conn
slow = record {
  sends = λ k. took 3;
  recvs = λ k. got [];
  send_calls = 0;
  recv_calls = 0;
  wire = [];
  error = nm_ok;
}

abbrev message : Bytes
message = 1 ∷ 2 ∷ 3 ∷ 4 ∷ 5 ∷ []

send_all_runs : (send_all 5 message slow).0 ≡ sent_bytes 5
unfolding send_all
send_all_runs = refl

send_all-Ends_example :
    Ends 5 message 0 slow (send_all 5 message slow).0 (send_all 5 message slow).1
send_all-Ends_example = send_all-Ends 5 message slow
