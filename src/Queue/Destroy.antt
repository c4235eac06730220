-- ===== src/Queue/Destroy.antt =====
-- `destroy_shared_queue`: when it stops waiting, and what its last loop destroys.
use iomessage.Prelude.{ℕ, suc, ◌≡◌, ◌↔◌, Bool, false, some, [], arith}
use iomessage.Queue.{SharedQueue, returns, destroy_begin, destroy_test, destroy_drain}

module _ {A : Type 0} where
  -- The loop waits exactly as long as a thread is inside a wait.
  pub destroy_test_lem :
      (q : SharedQueue A) → (destroy_test q ≡ returns tt false q) ↔ (q.waiting ≡ 0)
  unfolding destroy_test
  destroy_test_lem q = (λ e. ground arith, λ e. ground arith)

  -- After the flag is set the last loop destroys no element, whatever the queue holds and however
  -- long it may run: the first `pop` returns NULL because of the flag.
  pub destroy_drain_nothing :
      (fuel : ℕ) (ext : Bool) (q : SharedQueue A)
      → destroy_drain (suc fuel) ext (destroy_begin q) ≡ some ([], destroy_begin q)
  unfolding destroy_drain destroy_begin
  destroy_drain_nothing fuel ext q = ground arith
