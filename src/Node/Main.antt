-- ===== src/Node/Main.antt =====
-- secure_distributed_node/src/main_node.cpp.
use edge_ipc_daemon.Prelude.{
  ℕ, ◌^◌, ◌≡◌, ◌∙◌, ap, refl, arith, Bool, true, false, ◌&&◌, List, [], ◌∷◌, ◌++◌, Option, none,
  some, leb, ltb, if◌then◌else◌,
}
use edge_ipc_daemon.Prelude.Stoi.{
  Parsed, number, invalid_argument, out_of_range, stoi, decimal, stoi-decimal,
}
use edge_ipc_daemon.Daemon.State.{shutdown}
use edge_ipc_daemon.Node.Credentials.{
  Files, SslServerOptions, Loaded, loaded, cannot_open, Loads, bind-Loads, Has, IsOf, ca_file, crt,
  key, ◌>>=◌, load_from_dir-Loads, load_from_dir, server_credentials,
}
use edge_ipc_daemon.Node.Life.{
  Ending, returned, Life, made, start_node, stop_node, destroy, live, alarmed, launch, after_start,
}

pub data ServerCredentials : Type 0 where
  insecure : ServerCredentials
  ssl : SslServerOptions → ServerCredentials

-- How `main` ends: it returns 1 for its port, an exception that names a file leaves it, one of
-- `Start` does, or it returns 0 after it has asked for a port with credentials and destroyed the node.
-- In the last case it had a server and told the bound port (`served`), or `BuildAndStart` gave no
-- server, the program told the port 0, and waited for its signal without one (`unserved`).
pub data NodeExit : Type 0 where
  invalid_port : NodeExit
  uncaught : List ℕ → NodeExit
  start_failed : NodeExit
  served : ServerCredentials → ℕ → ℕ → Ending × Life → NodeExit
  unserved : ServerCredentials → ℕ → ℕ → Ending × Life → NodeExit

-- The port of the second argument, if it is given; `none` is the return of 1.
unfoldable pub port_in_range : Parsed → Option ℕ
port_in_range (number true n) = none
port_in_range (number false n) = if ltb n 1 then none else if ltb 65535 n then none else some n
port_in_range invalid_argument = none
port_in_range out_of_range = none

unfoldable pub grpc_port : List (List ℕ) → Option ℕ
grpc_port (name ∷ text ∷ rest) = port_in_range (stoi text)
grpc_port _ = some 50051

abbrev node0 : List ℕ
node0 = b'n' ∷ b'o' ∷ b'd' ∷ b'e' ∷ b'0' ∷ []

unfoldable pub node_name : List (List ℕ) → List ℕ
node_name [] = node0
node_name (name ∷ rest) = name

unfoldable pub node_credentials : Files → List ℕ → List (List ℕ) → Loaded ServerCredentials
node_credentials files name (_ ∷ _ ∷ dir ∷ rest) = do
  tls ← load_from_dir files dir name
  loaded (ssl (server_credentials tls))
node_credentials files name _ = loaded insecure

-- `built` is `BuildAndStart`, by the credentials and the port.
module _ (files : Files) (built : ServerCredentials → ℕ → Option ℕ) where
  -- After `Start`: until the signal the producer may raise a fault; then `Stop` and the destructor.
  unfoldable pub after_start_node : ServerCredentials → ℕ → Bool → Ending × Life → NodeExit
  after_start_node creds port faulted (returned, n) =
      (if n.server then served creds port n.actual_port else unserved creds port n.actual_port)
        (destroy (stop_node (if faulted then (live n alarmed).1 else n)))
  after_start_node creds port faulted (_, n) = start_failed

  unfoldable pub serve_with : Loaded ServerCredentials → ℕ → Bool → NodeExit
  serve_with (loaded creds) port faulted =
      after_start_node creds port faulted (start_node (built creds port) made)
  serve_with (cannot_open file) port faulted = uncaught file

  unfoldable pub serve_node : List (List ℕ) → ℕ → Bool → NodeExit
  serve_node args port faulted =
      serve_with (node_credentials files (node_name args) args) port faulted

  unfoldable pub main_with : Option ℕ → List (List ℕ) → Bool → NodeExit
  main_with none args faulted = invalid_port
  main_with (some port) args faulted = serve_node args port faulted

  -- `args` are the arguments after the program's name.
  unfoldable pub main_node : List (List ℕ) → Bool → NodeExit
  main_node args faulted = main_with (grpc_port args) args faulted

  -- With a directory, the server asks each client for a certificate that the authority of `ca.crt` has
  -- signed, and shows the certificate of the node; without one it has no credentials.
  abbrev pub Trusts : List (List ℕ) → ServerCredentials → Type 0
  Trusts (name ∷ _ ∷ dir ∷ more) (ssl o) =
      (o.client_verified ≡ true)
      × Has files dir ca_file o.server_root_certs
      × ((cert : List ℕ) × (pair : List ℕ) × Has files dir (name ++ crt) cert
          × Has files dir (name ++ key) pair
          × (o.pem_key_cert_pairs ≡ (pair, cert) ∷ []))
  Trusts (name ∷ _ ∷ dir ∷ more) insecure = ⊥
  Trusts args insecure = Unit {0}
  Trusts args (ssl o) = ⊥

  abbrev pub Misses : List (List ℕ) → List ℕ → Type 0
  Misses (name ∷ _ ∷ dir ∷ more) file = files dir file ≡ none
  Misses args file = ⊥

  -- The node is destroyed after a run with nothing left of it.
  abbrev pub IsOver : Ending × Life → Type 0
  IsOver (ending, n) =
      (ending ≡ returned)
      × (n.is_running ≡ false)
      × (n.producer ≡ false)
      × (n.server ≡ false)
      × (n.fsm ≡ shutdown)

  -- The program had a server on this port, it had none because the library gave none, or a file of
  -- the directory was missing.
  abbrev pub Serves : List (List ℕ) → ℕ → NodeExit → Type 0
  Serves args port (served creds asked bound over) =
      Trusts args creds × (asked ≡ port) × (built creds port ≡ some bound) × IsOver over
  Serves args port (unserved creds asked bound over) =
      Trusts args creds × (asked ≡ port) × (built creds port ≡ none) × (bound ≡ 0) × IsOver over
  Serves args port (uncaught file) = Misses args file
  Serves args port invalid_port = ⊥
  Serves args port start_failed = ⊥

  after_start_node-Serves :
      (args : List (List ℕ)) (creds : ServerCredentials) (port : ℕ) (bound : Option ℕ)
      (faulted : Bool)
      → Trusts args creds
      → built creds port ≡ bound
      → Serves args port (after_start_node creds port faulted (start_node bound made))
  unfolding after_start_node start_node after_start launch made live destroy stop_node
  after_start_node-Serves args creds port none true h e =
      (h, refl, e, refl, (refl, refl, refl, refl, refl))
  after_start_node-Serves args creds port none false h e =
      (h, refl, e, refl, (refl, refl, refl, refl, refl))
  after_start_node-Serves args creds port (some p) true h e =
      (h, refl, e, (refl, refl, refl, refl, refl))
  after_start_node-Serves args creds port (some p) false h e =
      (h, refl, e, (refl, refl, refl, refl, refl))

  Accepts : List (List ℕ) → Loaded ServerCredentials → Type 0
  Accepts args (loaded creds) = Trusts args creds
  Accepts args (cannot_open file) = Misses args file

  accepted :
      (name text dir : List ℕ) (more : List (List ℕ)) (creds : Loaded ServerCredentials)
      → Loads files dir (Trusts (name ∷ text ∷ dir ∷ more)) creds
      → Accepts (name ∷ text ∷ dir ∷ more) creds
  unfolding Accepts
  accepted name text dir more (loaded creds) h = h
  accepted name text dir more (cannot_open file) h = h

  node_credentials-Accepts :
      (args : List (List ℕ)) → Accepts args (node_credentials files (node_name args) args)
  unfolding node_credentials node_name Accepts server_credentials
  node_credentials-Accepts [] = tt
  node_credentials-Accepts (name ∷ []) = tt
  node_credentials-Accepts (name ∷ text ∷ []) = tt
  node_credentials-Accepts (name ∷ text ∷ dir ∷ more) =
      let args : List (List ℕ) = name ∷ text ∷ dir ∷ more in
      let all : Loads files dir (Trusts args) (node_credentials files name args) =
        bind-Loads files dir (IsOf files dir name) (Trusts args) (load_from_dir files dir name) _
          (load_from_dir-Loads files dir name)
          λ tls h. (refl, h.ca_has, (tls.node_cert, tls.node_key, h.cert_has, h.key_has, refl)) in
      accepted name text dir more (node_credentials files name args) all

  serve_with-Serves :
      (args : List (List ℕ)) (creds : Loaded ServerCredentials) (port : ℕ) (faulted : Bool)
      → Accepts args creds
      → Serves args port (serve_with creds port faulted)
  unfolding serve_with Accepts
  serve_with-Serves args (loaded creds) port faulted h =
      after_start_node-Serves args creds port (built creds port) faulted h refl
  serve_with-Serves args (cannot_open file) port faulted h = h

  serve_node-Serves :
      (args : List (List ℕ)) (port : ℕ) (faulted : Bool)
      → Serves args port (serve_node args port faulted)
  unfolding serve_node
  serve_node-Serves args port faulted =
      serve_with-Serves args _ port faulted (node_credentials-Accepts args)

  in_range_only :
      (n : ℕ)
      → port_in_range (if ltb n (2 ^ 31) then number false n else out_of_range)
        ≡ (if leb 1 n && leb n 65535 then some n else none)
  unfolding port_in_range
  in_range_only n = ground arith

  grpc_port-decimal :
      (name : List ℕ) (p : ℕ) (more : List (List ℕ))
      → grpc_port (name ∷ decimal p ∷ more) ≡ (if leb 1 p && leb p 65535 then some p else none)
  unfolding grpc_port
  grpc_port-decimal name p more = ap port_in_range (stoi-decimal p) ∙ in_range_only p

  main_with-if :
      (b : Bool) (args : List (List ℕ)) (port : ℕ) (faulted : Bool)
      → main_with (if b then some port else none) args faulted
        ≡ (if b then serve_node args port faulted else invalid_port)
  unfolding main_with
  main_with-if true args port faulted = refl
  main_with-if false args port faulted = refl

  -- A port that is written as a number is refused with the exit code 1 unless it is from 1 to 65535,
  -- whatever the size of the number. From there on, the program ends in one of three ways. A file that
  -- the directory of the third argument lacks ends it with an exception. Or it asked for this port, had a
  -- server and told the port that this server was bound to. Or it asked for this port, `BuildAndStart`
  -- gave no server, and it told the port 0 and ran without one. In the last two it returned and left no
  -- producer and no server and the state machine shut down; with a directory its credentials were the three
  -- files of its name in it, and asked the clients for certificates, and without one it had none.
  pub main_node-decimal :
      (name : List ℕ) (p : ℕ) (more : List (List ℕ)) (faulted : Bool)
      → (main_node (name ∷ decimal p ∷ more) faulted ≡ (
          if leb 1 p && leb p 65535
          then serve_node (name ∷ decimal p ∷ more) p faulted
          else invalid_port))
        × Serves (name ∷ decimal p ∷ more) p (serve_node (name ∷ decimal p ∷ more) p faulted)
  unfolding main_node
  main_node-decimal name p more faulted =
      let args : List (List ℕ) = name ∷ decimal p ∷ more in
      (
        ap (λ port. main_with port args faulted) (grpc_port-decimal name p more)
            ∙ main_with-if (leb 1 p && leb p 65535) args p faulted,
        serve_node-Serves args p faulted,
      )
