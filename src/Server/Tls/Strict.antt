-- ===== src/Server/Tls/Strict.antt =====
-- What a TLS configuration demands of clients.
use go_infrastructure.Prelude.{
  ◌≡◌, refl, ◌⊎◌, inl, inr, true, false, Bool-cases, none, some, Option-cases, [], ◌∷◌, GoString,
  is_empty,
}
use go_infrastructure.Server.Tls.{
  Crypto, TlsConfig, TlsError, no_client_cert, require_and_verify_client_cert, version_tls12,
  with_client_ca, from_key_pair, tls_from_files,
}

module _ (C : Crypto) where
  open C use {Certificate, Pool, Err, load_key_pair, read_file, pool_of_pem}

  -- What a configuration is to be, by the name of the CA file: with none, clients show no
  -- certificate; with one, every client is verified against a pool parsed from that file.
  abbrev pub Demands : GoString → TlsConfig C → Type 0
  Demands client_ca_file conf =
      ((is_empty client_ca_file ≡ true)
        × (conf.client_auth ≡ no_client_cert)
        × (conf.client_cas ≡ none))
      ⊎ ((ca : GoString) × (pool : Pool) × (read_file client_ca_file ≡ inr ca)
          × (pool_of_pem ca ≡ some pool)
          × (conf.client_auth ≡ require_and_verify_client_cert)
          × (conf.client_cas ≡ some pool))

  -- What a result of `TLSFromFiles` says of the files.
  abbrev pub Sound : GoString → GoString → GoString → TlsError C ⊎ TlsConfig C → Type 0
  Sound cert_file key_file client_ca_file (inl (TlsError.load_failed e)) =
      load_key_pair cert_file key_file ≡ inl e
  Sound cert_file key_file client_ca_file (inl (TlsError.read_failed e)) =
      (is_empty client_ca_file ≡ false) × (read_file client_ca_file ≡ inl e)
  Sound cert_file key_file client_ca_file (inl TlsError.no_certs_parsed) =
      (is_empty client_ca_file ≡ false)
      × ((ca : GoString) × (read_file client_ca_file ≡ inr ca) × (pool_of_pem ca ≡ none))
  Sound cert_file key_file client_ca_file (inr conf) =
      (cert : Certificate) × (load_key_pair cert_file key_file ≡ inr cert)
      × (conf.certificates ≡ cert ∷ [])
      × (conf.min_version ≡ version_tls12)
      × Demands client_ca_file conf

  -- The configuration before a CA file is read.
  abbrev bare : Certificate → TlsConfig C
  bare cert = record {
    certificates = cert ∷ [];
    min_version = version_tls12;
    client_cas = none;
    client_auth = no_client_cert;
  }

  with_client_ca-Sound :
      (cert_file key_file client_ca_file : GoString) (cert : Certificate) (conf : TlsConfig C)
      (file : Err ⊎ GoString)
      → load_key_pair cert_file key_file ≡ inr cert
      → conf.certificates ≡ cert ∷ []
      → conf.min_version ≡ version_tls12
      → is_empty client_ca_file ≡ false
      → read_file client_ca_file ≡ file
      → Sound cert_file key_file client_ca_file (with_client_ca C conf file)
  unfolding with_client_ca
  with_client_ca-Sound cf kf ca cert conf (inl e) l c m n r = (n, r)
  with_client_ca-Sound cf kf ca cert conf (inr text) l c m n r =
      elim (Option-cases (pool_of_pem text)) [
        | inl p ↦ rw (p, Sound, with_client_ca) (n, (text, r, p))
        | inr (pool, p) ↦
            rw (p, Sound, with_client_ca) (cert, l, c, m, inr (text, pool, r, p, refl, refl))
      ]

  from_key_pair-Sound :
      (cert_file key_file client_ca_file : GoString) (pair : Err ⊎ Certificate)
      → load_key_pair cert_file key_file ≡ pair
      → Sound cert_file key_file client_ca_file (from_key_pair C client_ca_file pair)
  unfolding from_key_pair
  from_key_pair-Sound cf kf ca (inl e) l = l
  from_key_pair-Sound cf kf ca (inr cert) l = elim (Bool-cases (is_empty ca)) [
    | inl n ↦ rw n (cert, l, refl, refl, inl (n, refl, refl))
    | inr n ↦
        rw n (with_client_ca-Sound cf kf ca cert (bare cert) (read_file ca) l refl refl n refl)
  ]

  -- A configuration that `TLSFromFiles` returns has the loaded certificate alone and at least TLS
  -- 1.2, and where a CA file is named it verifies every client against a pool parsed from that
  -- file; an error names the step that failed, and a CA file that cannot be read or parsed never
  -- leaves a configuration that trusts clients without a certificate.
  pub tls_from_files-Sound :
      (cert_file key_file client_ca_file : GoString)
      → Sound cert_file key_file client_ca_file (tls_from_files C cert_file key_file client_ca_file)
  unfolding tls_from_files
  tls_from_files-Sound cf kf ca = from_key_pair-Sound cf kf ca (load_key_pair cf kf) refl
