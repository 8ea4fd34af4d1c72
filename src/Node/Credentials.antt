-- ===== src/Node/Credentials.antt =====
-- secure_distributed_node/src/TlsCredentials.cpp. A text is its bytes; `files` has the contents of the
-- files that can be opened, by directory and name.
use edge_ipc_daemon.Prelude.{
  inl, inr, Option-cases, ℕ, ◌≡◌, Bool, true, List, [], ◌∷◌, ◌++◌, Option, none, some,
}

abbrev pub Files : Type 0
Files = List ℕ → List ℕ → Option (List ℕ)

pub record TlsCredentials : Type 0 where
  pub ca_cert : List ℕ
  pub node_cert : List ℕ
  pub node_key : List ℕ

-- `cannot_open` is the `std::runtime_error` with the name of the file.
pub data Loaded (A : Type 0) : Type 0 where
  loaded : A → Loaded A
  cannot_open : List ℕ → Loaded A

infixl 5 ◌>>=◌
abbrev pub ◌>>=◌ : {A B : Type 0} → Loaded A → (A → Loaded B) → Loaded B
loaded a >>= f = f a
cannot_open file >>= f = cannot_open file

unfoldable pub read_file : Files → List ℕ → List ℕ → Loaded (List ℕ)
read_file files dir file = elim (files dir file) [
  | none ↦ cannot_open file
  | some text ↦ loaded text
]

-- ".crt", ".key" and "ca.crt".
abbrev pub crt : List ℕ
crt = b'.' ∷ b'c' ∷ b'r' ∷ b't' ∷ []

abbrev pub key : List ℕ
key = b'.' ∷ b'k' ∷ b'e' ∷ b'y' ∷ []

abbrev pub ca_file : List ℕ
ca_file = b'c' ∷ b'a' ∷ crt

unfoldable pub load_from_dir : Files → List ℕ → List ℕ → Loaded TlsCredentials
load_from_dir files dir node_name = do
  ca ← read_file files dir ca_file
  cert ← read_file files dir (node_name ++ crt)
  pair ← read_file files dir (node_name ++ key)
  loaded (record { ca_cert = ca; node_cert = cert; node_key = pair })

-- grpc::SslServerCredentialsOptions; `client_verified` is
-- GRPC_SSL_REQUEST_AND_REQUIRE_CLIENT_CERTIFICATE_AND_VERIFY.
pub record SslServerOptions : Type 0 where
  pub client_verified : Bool
  pub server_root_certs : List ℕ
  pub pem_key_cert_pairs : List (List ℕ × List ℕ)

-- grpc::SslCredentialsOptions.
pub record SslOptions : Type 0 where
  pub pem_root_certs : List ℕ
  pub pem_private_key : List ℕ
  pub pem_cert_chain : List ℕ

unfoldable pub server_credentials : TlsCredentials → SslServerOptions
server_credentials c = record {
  client_verified = true;
  server_root_certs = c.ca_cert;
  pem_key_cert_pairs = (c.node_key, c.node_cert) ∷ [];
}

unfoldable pub channel_credentials : TlsCredentials → SslOptions
channel_credentials c = record {
  pem_root_certs = c.ca_cert;
  pem_private_key = c.node_key;
  pem_cert_chain = c.node_cert;
}

-- A result that has a property, or a file of the directory that cannot be opened.
abbrev pub Loads : {A : Type 0} → Files → List ℕ → (A → Type 0) → Loaded A → Type 0
Loads files dir P (loaded a) = P a
Loads files dir P (cannot_open file) = files dir file ≡ none

pub bind-Loads :
    {A B : Type 0} (files : Files) (dir : List ℕ) (P : A → Type 0) (Q : B → Type 0) (m : Loaded A)
    (f : A → Loaded B)
    → Loads files dir P m
    → ((a : A) → P a → Loads files dir Q (f a))
    → Loads files dir Q (m >>= f)
bind-Loads files dir P Q (loaded a) f h k = k a h
bind-Loads files dir P Q (cannot_open file) f h k = h

-- What a file has.
abbrev pub Has : Files → List ℕ → List ℕ → List ℕ → Type 0
Has files dir file text = files dir file ≡ some text

read_file-Loads :
    (files : Files) (dir file : List ℕ)
    → Loads files dir (Has files dir file) (read_file files dir file)
unfolding read_file
read_file-Loads files dir file = elim (Option-cases (files dir file)) [
  | inl e ↦ rw (e, Loads) e
  | inr (text, e) ↦ rw (e, Loads) e
]

-- The credentials of a name are the contents of the three files.
pub record IsOf (files : Files) (dir : List ℕ) (name : List ℕ) (tls : TlsCredentials) : Type 0 where
  pub ca_has : Has files dir ca_file tls.ca_cert
  pub cert_has : Has files dir (name ++ crt) tls.node_cert
  pub key_has : Has files dir (name ++ key) tls.node_key

pub load_from_dir-Loads :
    (files : Files) (dir name : List ℕ)
    → Loads files dir (IsOf files dir name) (load_from_dir files dir name)
unfolding load_from_dir
load_from_dir-Loads files dir name =
    bind-Loads files dir (Has files dir ca_file) (IsOf files dir name) (read_file files dir ca_file)
      _ (read_file-Loads files dir ca_file)
      λ ca ca_has.
        bind-Loads files dir (Has files dir (name ++ crt)) (IsOf files dir name)
          (read_file files dir (name ++ crt)) _ (read_file-Loads files dir (name ++ crt))
          λ cert cert_has.
            bind-Loads files dir (Has files dir (name ++ key)) (IsOf files dir name)
              (read_file files dir (name ++ key)) _ (read_file-Loads files dir (name ++ key))
              λ pair key_has. record { ca_has = ca_has; cert_has = cert_has; key_has = key_has }
