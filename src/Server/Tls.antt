-- ===== src/Server/Tls.antt =====
-- pkg/runtime/server/tls.go. Errors are kept with what they wrap, without their texts.
pub mod Strict
mod Tests
use go_infrastructure.Prelude.{
  ℕ, ◌⊎◌, inl, inr, Option, none, some, List, [], ◌∷◌, GoString, is_empty, if◌then◌else◌,
}

-- What the package takes from crypto/tls, crypto/x509 and os.
pub record Crypto : Type 1 where
  pub Certificate : Type 0
  pub Pool : Type 0
  pub Err : Type 0
  pub load_key_pair : GoString → GoString → Err ⊎ Certificate
  pub read_file : GoString → Err ⊎ GoString
  -- a new pool with `AppendCertsFromPEM`, `none` where no certificate is parsed
  pub pool_of_pem : GoString → Option Pool

pub data ClientAuth : Type 0 where
  no_client_cert require_and_verify_client_cert : ClientAuth

abbrev pub version_tls12 : ℕ
version_tls12 = 0x0303

module _ (C : Crypto) where
  open C use {Certificate, Pool, Err, load_key_pair, read_file, pool_of_pem}

  pub record TlsConfig : Type 0 where
    pub certificates : List Certificate
    pub min_version : ℕ
    pub client_cas : Option Pool
    pub client_auth : ClientAuth

  pub data TlsError : Type 0 where
    load_failed read_failed : Err → TlsError
    no_certs_parsed : TlsError

  -- The part under `clientCAFile != ""`, from the file's content on.
  with_client_ca : TlsConfig → Err ⊎ GoString → TlsError ⊎ TlsConfig
  with_client_ca conf (inl err) = inl (read_failed err)
  with_client_ca conf (inr ca) = elim (pool_of_pem ca) [
    | none ↦ inl no_certs_parsed
    | some pool ↦
        inr (record conf { client_cas = some pool; client_auth = require_and_verify_client_cert })
  ]

  from_key_pair : GoString → Err ⊎ Certificate → TlsError ⊎ TlsConfig
  unfolding with_client_ca
  from_key_pair client_ca_file (inl err) = inl (load_failed err)
  from_key_pair client_ca_file (inr cert) =
      let conf : TlsConfig = record {
        certificates = cert ∷ [];
        min_version = version_tls12;
        client_cas = none;
        client_auth = no_client_cert;
      } in
      if is_empty client_ca_file then inr conf else with_client_ca conf (read_file client_ca_file)

  pub tls_from_files : GoString → GoString → GoString → TlsError ⊎ TlsConfig
  unfolding from_key_pair
  tls_from_files cert_file key_file client_ca_file =
      from_key_pair client_ca_file (load_key_pair cert_file key_file)
