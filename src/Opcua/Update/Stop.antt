-- ===== src/Opcua/Update/Stop.antt =====
-- update_loop.c: the start of the thread, its end, and what another thread sees.
use edge_ipc_daemon.Prelude.{ℕ, ◌≡◌, refl, Bool, true, false, List, [], ◌∷◌, if◌then◌else◌}
use edge_ipc_daemon.Opcua.Sim.{Maths, Params}
use edge_ipc_daemon.Opcua.Source.{Store}
use edge_ipc_daemon.Opcua.Update.{Updater, Round, timer, stop, update_thread, update_loop_start}

module _ (m : Maths) (p : Params m) where
  open m use {Single}

  -- The thread: `opened` is whether `timerfd_create` succeeds; if not, the thread ends.
  unfoldable pub run_thread : Bool → Updater m p → List (Round m p) → Updater m p
  run_thread opened u rounds = if opened then update_thread m p u rounds else u

  -- The thread is joined: it makes no more than the rounds before it sees the flag.
  unfoldable pub update_loop_stop : Updater m p → Updater m p
  update_loop_stop u = record u { running = false }

  unfoldable pub update_loop_tick_count : Updater m p → ℕ
  update_loop_tick_count u = u.tick_count

  -- After a stop no round changes the count or a value.
  update_thread-update_loop_stop :
      (u : Updater m p) (rounds : List (Round m p))
      → update_thread m p (update_loop_stop u) rounds ≡ update_loop_stop u
  unfolding update_thread update_loop_stop
  update_thread-update_loop_stop u [] = refl
  update_thread-update_loop_stop u (timer expirations ∷ rounds) =
      update_thread-update_loop_stop u rounds
  update_thread-update_loop_stop u (stop ∷ rounds) = update_thread-update_loop_stop u rounds

  -- Without a timer the count stays zero and the nodes keep their values, though the start has not failed.
  run_thread-closed :
      (seeds : ℕ → ℕ) (store : Store Single) (rounds : List (Round m p))
      → let u = run_thread false (update_loop_start m p seeds store) rounds in
        (update_loop_tick_count u ≡ 0) × (u.store ≡ store) × (u.running ≡ true)
  unfolding run_thread update_loop_tick_count update_loop_start
  run_thread-closed seeds store rounds = (refl, refl, refl)
