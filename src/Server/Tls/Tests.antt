-- ===== src/Server/Tls/Tests.antt =====
-- `TLSFromFiles` with a CA file that holds no certificate.
use go_infrastructure.Prelude.{ℕ, inr, none, codes}
use go_infrastructure.Server.Tls.{Crypto, tls_from_files}
use go_infrastructure.Server.Tls.Strict.{Sound, tls_from_files-Sound}

abbrev crypto : Crypto
crypto = record {
  Certificate = ℕ;
  Pool = ℕ;
  Err = ℕ;
  load_key_pair = λ cert key. inr 7;
  read_file = λ file. inr file;
  pool_of_pem = λ pem. none;
}

tls_from_files-Sound_example :
    Sound crypto
      (codes "server.crt")
      (codes "server.key")
      (codes "ca.pem")
      (tls_from_files crypto (codes "server.crt") (codes "server.key") (codes "ca.pem"))
tls_from_files-Sound_example =
    tls_from_files-Sound crypto (codes "server.crt") (codes "server.key") (codes "ca.pem")
