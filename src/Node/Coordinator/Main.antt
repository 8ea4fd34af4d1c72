-- ===== src/Node/Coordinator/Main.antt =====
-- secure_distributed_node/src/main_coordinator.cpp: `main`, and `Start` and `Stop` of
-- TelemetryCoordinator.cpp.
use Prim.Native.String.{String}
use edge_ipc_daemon.Prelude.{
  ℕ, zero, suc, ◌≡◌, refl, Bool, true, false, List, [], ◌∷◌, ◌++◌, none, if◌then◌else◌,
}
use edge_ipc_daemon.Prelude.Stoi.{Parsed, number, invalid_argument, out_of_range, stoi}
use edge_ipc_daemon.Node.Credentials.{
  Files, SslOptions, TlsCredentials, Loaded, loaded, cannot_open, Loads, IsOf, load_from_dir,
  load_from_dir-Loads, channel_credentials,
}

-- `running_`, and the workers of the joinable threads of `threads_`.
pub record Polling : Type 0 where
  pub is_running : Bool
  pub threads : List ℕ

unfoldable pub not_polling : Polling
not_polling = record { is_running = false; threads = [] }

-- The indices from `i`, with `left` workers left.
abbrev indices : ℕ → ℕ → List ℕ
indices i zero = []
indices i (suc left) = i ∷ indices (suc i) left

unfoldable pub start_polling : ℕ → Polling → Polling
start_polling workers p = record { is_running = true; threads = p.threads ++ indices 0 workers }

unfoldable pub stop_polling : Polling → Polling
stop_polling p = if p.is_running then record { is_running = false; threads = [] } else p

-- How `main` ends: it returns 1 for its arguments, an exception leaves it, or it returns 0 after it
-- has polled these endpoints with credentials and listened on a port, here an `int`; then with the
-- polling that is left.
pub data CoordinatorExit : Type 0 where
  usage : CoordinatorExit
  bad_number : CoordinatorExit
  uncaught : List ℕ → CoordinatorExit
  served : SslOptions → List (String × String) → Bool × ℕ → Polling → CoordinatorExit

-- "coordinator".
abbrev coordinator : List ℕ
coordinator = b'c' ∷ b'o' ∷ b'o' ∷ b'r' ∷ b'd' ∷ b'i' ∷ b'n' ∷ b'a' ∷ b't' ∷ b'o' ∷ b'r' ∷ []

abbrev workers : List (String × String)
workers = ("worker1", "worker1:50051") ∷ ("worker2", "worker2:50051") ∷ []

-- After the credentials are loaded. The destructor stops the polling once more.
unfoldable pub with_credentials : Loaded TlsCredentials → Bool × ℕ → CoordinatorExit
with_credentials (cannot_open file) port = uncaught file
with_credentials (loaded creds) port =
    served (channel_credentials creds) workers port
      (stop_polling (stop_polling (start_polling 2 not_polling)))

unfoldable pub with_port : Files → List ℕ → Parsed → CoordinatorExit
with_port files certs_dir (number negative n) =
    with_credentials (load_from_dir files certs_dir coordinator) (negative, n)
with_port files certs_dir invalid_argument = bad_number
with_port files certs_dir out_of_range = bad_number

-- `args` are the arguments after the program's name.
unfoldable pub main_coordinator : Files → List (List ℕ) → CoordinatorExit
main_coordinator files [] = usage
main_coordinator files (certs_dir ∷ []) = with_port files certs_dir (number false 8080)
main_coordinator files (certs_dir ∷ port ∷ rest) = with_port files certs_dir (stoi port)

-- No thread is left, and the channels had the files of the coordinator; or one of these is missing.
abbrev NoneLeft : Files → List ℕ → CoordinatorExit → Type 0
NoneLeft files dir (served creds endpoints port polling) =
    (polling ≡ not_polling)
    × ((tls : TlsCredentials) × IsOf files dir coordinator tls × (creds ≡ channel_credentials tls))
NoneLeft files dir (uncaught file) = files dir file ≡ none
NoneLeft files dir _ = Unit {0}

with_credentials-NoneLeft :
    (files : Files) (dir : List ℕ) (creds : Loaded TlsCredentials) (port : Bool × ℕ)
    → Loads files dir (IsOf files dir coordinator) creds
    → NoneLeft files dir (with_credentials creds port)
unfolding with_credentials stop_polling start_polling not_polling
with_credentials-NoneLeft files dir (loaded creds) port h = (refl, (creds, h, refl))
with_credentials-NoneLeft files dir (cannot_open file) port h = h

-- However its port is written, the program that starts with a directory leaves no thread behind, and an
-- exception that names a file leaves it only if the directory lacks this file.
with_port-NoneLeft :
    (files : Files) (dir : List ℕ) (port : Parsed) → NoneLeft files dir (with_port files dir port)
unfolding with_port
with_port-NoneLeft files dir (number negative n) =
    with_credentials-NoneLeft files dir _ (negative, n) (load_from_dir-Loads files dir coordinator)
with_port-NoneLeft files dir invalid_argument = tt
with_port-NoneLeft files dir out_of_range = tt
