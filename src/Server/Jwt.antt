-- ===== src/Server/Jwt.antt =====
-- async_telemetry_server/src/JwtValidator.cpp. A token is a list of bytes; jwt-cpp is a parameter.
use Prim.Native.String.{String}
use edge_ipc_daemon.Prelude.{ℕ, Bool, true, false, List, Option, none, some}

pub record ValidationResult : Type 0 where
  pub is_ok : Bool
  pub subject : String
  pub error_detail : String

-- What jwt-cpp makes of a token: the subject claim, or the message of an exception.
pub data Verdict : Type 0 where
  verified : String → Verdict
  thrown : String → Verdict

-- Decoding and `verifier.verify`: secret of HS256, issuer, leeway in seconds, token.
abbrev pub Verifier : Type 0
Verifier = String → String → ℕ → List ℕ → Verdict

abbrev pub issuer : String
issuer = "https://auth.nexburg.internal"

abbrev pub leeway_s : ℕ
leeway_s = 30

abbrev failure : String → ValidationResult
failure detail = record { is_ok = false; subject = ""; error_detail = detail }

after_verify : Verdict → ValidationResult
after_verify (verified String.[]) = failure "empty subject claim"
after_verify (verified (String.◌∷◌ c sub)) = record {
  is_ok = true;
  subject = String.◌∷◌ c sub;
  error_detail = "";
}
after_verify (thrown what) = failure what

-- `env_secret` is `std::getenv("JWT_SECRET")`.
unfoldable pub validate : Verifier → Option String → List ℕ → ValidationResult
unfolding after_verify
validate verify none token = failure "JWT_SECRET environment variable not set"
validate verify (some secret) token = after_verify (verify secret issuer leeway_s token)
