-- ===== src/Server/Main.antt =====
-- async_telemetry_server/src/main.cpp and `main` of TelemetryClient.cpp: the configuration from the
-- environment, of which `env` has the variables that are set.
use edge_ipc_daemon.Prelude.{
  ℕ, ◌-◌, ◌%◌, ◌^◌, ◌≡◌, ◌∙◌, ap, refl, arith, Bool, true, false, List, ◌∷◌, Option, none, some,
  ltb, if◌then◌else◌,
}
use edge_ipc_daemon.Prelude.Stoi.{
  Parsed, number, invalid_argument, out_of_range, stoi, decimal, stoi-decimal,
}
use Prim.Native.String.{String}

-- `text` is a text of the program, as the characters that the variables have.
pub record Config : Type 0 where
  pub port : ℕ
  pub db : List ℕ
  pub cert_path : List ℕ
  pub key_path : List ℕ

abbrev value_or : Option (List ℕ) → List ℕ → List ℕ
value_or none default = default
value_or (some value) default = value

-- `static_cast<uint16_t>` of an `int`; `none` is an exception of `std::stoi`, which leaves `main`.
unfoldable pub uint16 : Parsed → Option ℕ
uint16 (number false n) = some (n % 2 ^ 16)
uint16 (number true n) = some ((2 ^ 16 - n % 2 ^ 16) % 2 ^ 16)
uint16 invalid_argument = none
uint16 out_of_range = none

unfoldable pub server_port : Option (List ℕ) → Option ℕ
server_port none = some 8443
server_port (some text) = uint16 (stoi text)

module _ (text : String → List ℕ) where
  unfoldable pub with_server_port : (String → Option (List ℕ)) → Option ℕ → Option Config
  with_server_port env none = none
  with_server_port env (some port) = some (record {
    port = port;
    db = value_or (env "DATABASE_URL") (text "postgresql://localhost/telemetry");
    cert_path = value_or (env "TLS_CERT_PATH") (text "certs/server.crt");
    key_path = value_or (env "TLS_KEY_PATH") (text "certs/server.key");
  })

  unfoldable pub read_config : (String → Option (List ℕ)) → Option Config
  read_config env = with_server_port env (server_port (env "SERVER_PORT"))

-- `main` of TelemetryClient.cpp: with fewer than three arguments it returns 1, and an exception of
-- `std::stoi` leaves it; else it connects to a host and a port with a token.
pub data ClientExit : Type 0 where
  usage bad_number : ClientExit
  connects : List ℕ → ℕ → List ℕ → ClientExit

abbrev to_port : List ℕ → Option ℕ → List ℕ → ClientExit
to_port host none token = bad_number
to_port host (some port) token = connects host port token

unfoldable pub client_main : List (List ℕ) → ClientExit
client_main (host ∷ port ∷ jwt_token ∷ rest) = to_port host (uint16 (stoi port)) jwt_token
client_main _ = usage

-- `static_cast` keeps the lowest sixteen bits of a numeral, which is refused only if it is no `int`.
uint16-decimal :
    (n : ℕ) → uint16 (stoi (decimal n)) ≡ (if ltb n (2 ^ 31) then some (n % 2 ^ 16) else none)
unfolding uint16
uint16-decimal n = ap uint16 (stoi-decimal n) ∙ ground arith

to_port-if :
    (b : Bool) (host : List ℕ) (port : ℕ) (token : List ℕ)
    → to_port host (if b then some port else none) token
      ≡ (if b then connects host port token else bad_number)
to_port-if true host port token = refl
to_port-if false host port token = refl

-- A server whose port is written as a number listens on the lowest sixteen bits of it, and a client that is
-- given the same number connects to this port; both fail only if the number is no `int`.
server_port-client_main :
    (host token : List ℕ) (rest : List (List ℕ)) (n : ℕ)
    → (server_port (some (decimal n)) ≡ (if ltb n (2 ^ 31) then some (n % 2 ^ 16) else none))
      × (client_main (host ∷ decimal n ∷ token ∷ rest)
          ≡ (if ltb n (2 ^ 31) then connects host (n % 2 ^ 16) token else bad_number))
unfolding server_port client_main
server_port-client_main host token rest n = (
  uint16-decimal n,
  ap (λ p. to_port host p token) (uint16-decimal n)
      ∙ to_port-if (ltb n (2 ^ 31)) host (n % 2 ^ 16) token,
)
