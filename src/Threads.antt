-- ===== src/Threads.antt =====
-- server/src/win/ThreadManager_win_imp.c: the life of a thread, by what it holds.
use iomessage.Prelude.{ℕ, Bool, true, false, Option, none, some}
use iomessage.Setup.{block, thread, Windows, S, pure, ◌>>=◌, ◌>>◌, release, obtain}

-- `TM_thread_t`, with the struct that the routine is wrapped in.
pub record Thread (A : Type 0) : Type 0 where
  pub address : ℕ
  pub handle : ℕ
  pub wrapper : ℕ
  pub exited : Bool
  pub args : A

module _ {A : Type 0} where
  -- `TM_create_thread`: both structs and the handle, or nothing.
  unfoldable pub create_thread : Windows → A → S (Option (Thread A))
  create_thread windows args = do
    new_thread ← obtain windows block
    elim new_thread [
      | none ↦ pure none
      | some th ↦ do
        wrapper ← obtain windows block
        elim wrapper [
          | none ↦ do release block th; pure none
          | some w ↦ do
            begun ← obtain windows thread
            elim begun [
              | none ↦ do release block w; release block th; pure none
              | some h ↦ pure (
                  some
                    (record { address = th; handle = h; wrapper = w; exited = false; args = args }))
            ]
        ]
    ]

  -- `TM_thread_routine_init`, behind the call of the routine.
  unfoldable pub routine_end : Thread A → S (Thread A)
  routine_end th = do release block th.wrapper; pure (record th { exited = true })

  -- `TM_destroy_thread`
  unfoldable pub destroy_thread : Thread A → S (Unit {0})
  destroy_thread th = do release thread th.handle; release block th.address
