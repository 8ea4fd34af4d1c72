-- ===== src/Examples/Pools.antt =====
-- The connection pool of async_telemetry_server at concrete inputs.
use edge_ipc_daemon.Prelude.{◌≡◌, refl, true, false, List, [], ◌∷◌, arith}
use edge_ipc_daemon.Server.Pool.{
  Op, acquires, releases, breaks, fresh, start, waits, acquire, insert, run, step, ensure_open,
  advance, release, after_acquire, remove,
}
use edge_ipc_daemon.Server.Pool.Permits.{Inv, Balance, run-Inv, exhausted, insert-Balance}
use edge_ipc_daemon.Server.Pool.Rotation.{held-round_robin}

-- Two threads take connections 0 and 1, and the second gives its own back; six more come.
abbrev busy : List Op
busy =
    acquires true
    ∷ acquires true
    ∷ releases 1
    ∷ acquires true
    ∷ acquires true
    ∷ acquires true
    ∷ acquires true
    ∷ acquires true
    ∷ acquires true
    ∷ []

-- Every connection breaks and cannot be reopened, and each is asked for once.
abbrev outage : List Op
outage =
    breaks 0
    ∷ acquires false
    ∷ breaks 1
    ∷ acquires false
    ∷ breaks 2
    ∷ acquires false
    ∷ breaks 3
    ∷ acquires false
    ∷ breaks 4
    ∷ acquires false
    ∷ breaks 5
    ∷ acquires false
    ∷ breaks 6
    ∷ acquires false
    ∷ breaks 7
    ∷ acquires false
    ∷ []

run-Inv_example : Inv (run start busy)
run-Inv_example = run-Inv busy

exhausted_example : acquire true (run (run start outage) (releases 0 ∷ [])).pool ≡ waits
unfolding run step acquire advance ensure_open after_acquire
exhausted_example = exhausted outage (releases 0 ∷ []) true refl

insert-Balance_example : Balance false fresh (insert false true fresh)
insert-Balance_example = insert-Balance false true fresh

-- Connection 0 is held twice.
held-round_robin_example :
    (step (run start busy) (acquires true)).held ≡ 0 ∷ 7 ∷ 6 ∷ 5 ∷ 4 ∷ 3 ∷ 2 ∷ 0 ∷ []
unfolding run step acquire advance ensure_open after_acquire release remove
held-round_robin_example = held-round_robin busy (omega arith)
