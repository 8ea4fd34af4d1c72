-- ===== src/Examples/Filters.antt =====
-- The filter, the detector, the processor and the file source of the daemon on concrete samples.
use edge_ipc_daemon.Prelude.{ℕ, true, false, List, [], ◌∷◌, Option, none, some, ◌≡◌, arith}
use edge_ipc_daemon.Daemon.Filter
use edge_ipc_daemon.Daemon.Filter.Average.{outputs, outputs-make}
use edge_ipc_daemon.Daemon.Processor
use edge_ipc_daemon.Daemon.Processor.{TelemetryFrame, process_all}
use edge_ipc_daemon.Daemon.Processor.Metrics.{process_all-make}
use edge_ipc_daemon.Daemon.FileSource.{open_source, reads, reads-values, reopen}
use edge_ipc_daemon.Examples.Naturals.{naturals}

outputs-make_example :
    outputs naturals (Filter.make naturals 3) (1 ∷ 2 ∷ 3 ∷ 4 ∷ []) ≡ some (1 ∷ 1 ∷ 2 ∷ 3 ∷ [])
outputs-make_example = outputs-make naturals 3 (1 ∷ 2 ∷ 3 ∷ 4 ∷ []) (omega arith)

abbrev reading : ℕ → TelemetryFrame naturals
reading v = record { sensor_id = "sensor0"; value = v }

process_all-make_example :
    process_all naturals
      (Processor.make naturals 2 80 20 2)
      (reading 90 ∷ reading 92 ∷ reading 50 ∷ [])
    ≡ some (
        record { sensor_id = "sensor0"; filtered_value = 90; alarm_flag = false }
        ∷ record { sensor_id = "sensor0"; filtered_value = 91; alarm_flag = true }
        ∷ record { sensor_id = "sensor0"; filtered_value = 71; alarm_flag = false }
        ∷ [])
process_all-make_example =
    process_all-make naturals 2 80 20 2 (reading 90 ∷ reading 92 ∷ reading 50 ∷ []) (omega arith)
      (omega arith)

-- One digit.
abbrev stod : List ℕ → Option ℕ
stod [] = none
stod (c ∷ cs) = some c

-- A comment, a value, an empty line and a value.
reads-values_example :
    reads stod (open_source stod "sensor0" ((35 ∷ 7 ∷ []) ∷ (49 ∷ []) ∷ [] ∷ (50 ∷ []) ∷ []) true) 3
    ≡ some 49 ∷ some 50 ∷ some 49 ∷ []
unfolding open_source reopen edge_ipc_daemon.Daemon.FileSource.is_data
reads-values_example =
    reads-values stod 3
      (open_source stod "sensor0" ((35 ∷ 7 ∷ []) ∷ (49 ∷ []) ∷ [] ∷ (50 ∷ []) ∷ []) true)
