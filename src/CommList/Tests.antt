-- ===== src/CommList/Tests.antt =====
-- The list of communicators at concrete values.
use iomessage.Prelude.{ℕ, ◌≡◌, refl, true, false, none, some, List, [], ◌∷◌, get_elem?, replicate}
use iomessage.CommList.{Communicator, CommArray, accept_step}
use iomessage.CommList.Loop.{
  Happening, ends, no_connection, connection, made, gone, end_thread, accept_loop, serve_clients,
}
use iomessage.CommList.Loop.Once.{serve_clients-replays}
use iomessage.CommList.Loop.Replay.{replay}
use iomessage.CommList.Free.{IsJust, IsSwept, RunsAt, accept_step-IsJust}

abbrev cells : CommArray
cells =
    some (record { communicator_id = 0; exited = false })
    ∷ some (record { communicator_id = 1; exited = true })
    ∷ none
    ∷ []

accept_step-IsJust_example :
    IsJust true cells (accept_step true cells).0 (accept_step true cells).1
    × ((i : ℕ) (c : Communicator)
        → RunsAt cells i c
        → get_elem? (accept_step true cells).1 i ≡ some (some c))
    × IsSwept cells (accept_step true cells).1
accept_step-IsJust_example = accept_step-IsJust true cells

-- Two cells: the third client is refused, the fourth gets the cell of the first.
abbrev morning : List Happening
morning =
    connection true
    ∷ connection true
    ∷ connection true
    ∷ no_connection
    ∷ ends 0
    ∷ connection false
    ∷ connection true
    ∷ []

morning_events :
    (serve_clients 2 morning).1 ≡ made 0 ∷ made 1 ∷ gone 0 ∷ made 0 ∷ gone 0 ∷ gone 1 ∷ []
unfolding serve_clients accept_loop end_thread
morning_events = refl

serve_clients-replays_example :
    ((serve_clients 2 morning).0 ≡ none ∷ none ∷ [])
    × (replay (serve_clients 2 morning).1 (replicate 2 false) ≡ some (replicate 2 false))
serve_clients-replays_example = serve_clients-replays 2 morning
