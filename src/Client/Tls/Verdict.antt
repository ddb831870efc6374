-- ===== src/Client/Tls/Verdict.antt =====
-- `build_tls_config` of src/client.rs: how the server is verified, how the client is authenticated, and
-- which failure is reported.
use rosetta_mq.Prelude.{
  ℕ, ◌≡◌, refl, ◌≢◌, ap, subst, ◌∙◌, ◌>>=◌, is_empty, Bool, true, false, ◌⊎◌, inl, inr, none, some,
  List, [], ◌∷◌, Result, ok, err, Result-cases, Option-cases,
}
use rosetta_mq.Text.{Text, codes}
use rosetta_mq.Auth.{ResolvedAuth, none_auth, mtls, user_pass}
use rosetta_mq.Client.Tls.{
  Rustls, ClientInitError, pem_parse, missing_private_key, native_certs_failed, invalid_client_cert,
  no_server_cert_verification, parse_pem_certs, parse_pem_private_key, native_roots, root_store,
  server_verifier, client_auth, build_tls_config,
}

-- The method has no certificate for the client.
pub data IsAnonymous : ResolvedAuth → Type 0 where
  no_method : IsAnonymous none_auth
  by_password : {username password : Text} → IsAnonymous (user_pass username password)

nil_or_not : {A : Type 0} (l : List A) → (l ≡ []) ⊎ (l ≢ [])
nil_or_not [] = inl refl
nil_or_not (x ∷ l) = inr (λ e. cc e)

is_empty-false : {A : Type 0} (l : List A) → l ≢ [] → is_empty l ≡ false
is_empty-false [] n = absurd (n refl)
is_empty-false (x ∷ l) n = refl

module _ (r : Rustls) where
  -- How the server is verified: not at all, by the configured CA, or by the roots of the platform.
  pub data Verifies : Bool → ResolvedAuth → Result r.Verifier (ClientInitError r) → Type 0 where
    unverified :
        {auth : ResolvedAuth}
        → Verifies true auth (ok (r.with_custom_certificate_verifier no_server_cert_verification))
    by_ca :
        {ca cert key : List ℕ} {cas : List r.Certificate}
        → r.certs ca ≡ ok cas
        → Verifies false
            (mtls ca cert key)
            (ok (r.with_root_certificates (r.add_parsable_certificates r.empty_roots cas)))
    bad_ca :
        {ca cert key : List ℕ} {e : r.PemError}
        → r.certs ca ≡ err e
        → Verifies false (mtls ca cert key) (err (pem_parse (codes "CA certificate") e))
    by_platform :
        {auth : ResolvedAuth}
        → IsAnonymous auth
        → r.native_errors ≡ []
        → Verifies false auth (
            ok
              (r.with_root_certificates (r.add_parsable_certificates r.empty_roots r.native_certs)))
    no_platform :
        {auth : ResolvedAuth}
        → IsAnonymous auth
        → r.native_errors ≢ []
        → Verifies false auth (err (native_certs_failed r.native_errors))

  -- How the client is authenticated once the server can be verified.
  pub data Presents (v : r.Verifier)
      : ResolvedAuth → Result r.ClientConfig (ClientInitError r) → Type 0 where
    anonymous :
        {auth : ResolvedAuth} → IsAnonymous auth → Presents v auth (ok (r.with_no_client_auth v))
    bad_cert :
        {ca cert key : List ℕ} {e : r.PemError}
        → r.certs cert ≡ err e
        → Presents v (mtls ca cert key) (err (pem_parse (codes "client certificate") e))
    bad_key :
        {ca cert key : List ℕ} {chain : List r.Certificate} {e : r.PemError}
        → r.certs cert ≡ ok chain
        → r.private_key key ≡ err e
        → Presents v (mtls ca cert key) (err (pem_parse (codes "client private key") e))
    no_key :
        {ca cert key : List ℕ} {chain : List r.Certificate}
        → r.certs cert ≡ ok chain
        → r.private_key key ≡ ok none
        → Presents v (mtls ca cert key) (err missing_private_key)
    refused :
        {ca cert key : List ℕ} {chain : List r.Certificate} {k : r.PrivateKey} {e : r.TlsError}
        → r.certs cert ≡ ok chain
        → r.private_key key ≡ ok (some k)
        → r.with_client_auth_cert v chain k ≡ err e
        → Presents v (mtls ca cert key) (err (invalid_client_cert e))
    authenticated :
        {ca cert key : List ℕ} {chain : List r.Certificate} {k : r.PrivateKey}
        {cfg : r.ClientConfig}
        → r.certs cert ≡ ok chain
        → r.private_key key ≡ ok (some k)
        → r.with_client_auth_cert v chain k ≡ ok cfg
        → Presents v (mtls ca cert key) (ok cfg)

  -- The server first, then the client.
  pub data Verdict (allow : Bool) (auth : ResolvedAuth)
      : Result r.ClientConfig (ClientInitError r) → Type 0 where
    unverifiable :
        {e : ClientInitError r} → Verifies allow auth (err e) → Verdict allow auth (err e)
    verifiable :
        {v : r.Verifier} {result : Result r.ClientConfig (ClientInitError r)}
        → Verifies allow auth (ok v)
        → Presents v auth result
        → Verdict allow auth result

  roots-platform :
      r.native_errors ≡ []
      → native_roots r ≡ ok (r.add_parsable_certificates r.empty_roots r.native_certs)
  unfolding native_roots
  roots-platform e = rw e refl

  roots-no_platform :
      r.native_errors ≢ [] → native_roots r ≡ err (native_certs_failed r.native_errors)
  unfolding native_roots
  roots-no_platform n = rw (is_empty-false r.native_errors n) refl

  platform-Verifies :
      (auth : ResolvedAuth)
      → IsAnonymous auth
      → root_store r auth ≡ native_roots r
      → Verifies false auth (server_verifier r false auth)
  unfolding server_verifier
  platform-Verifies auth a e = rw e (elim (nil_or_not r.native_errors) [
    | inl none_failed ↦ rw (roots-platform none_failed) (by_platform a none_failed)
    | inr failed ↦ rw (roots-no_platform failed) (no_platform a failed)
  ])

  server_verifier-Verifies :
      (allow : Bool) (auth : ResolvedAuth) → Verifies allow auth (server_verifier r allow auth)
  unfolding server_verifier root_store parse_pem_certs native_roots
  server_verifier-Verifies true auth = unverified
  server_verifier-Verifies false (mtls ca cert key) = elim (Result-cases (r.certs ca)) [
    | inl (cas, e) ↦ rw e (by_ca e)
    | inr (x, e) ↦ rw e (bad_ca e)
  ]
  server_verifier-Verifies false none_auth = platform-Verifies none_auth no_method refl
  server_verifier-Verifies false (user_pass u p) =
      platform-Verifies (user_pass u p) by_password refl

  client_auth-Presents :
      (auth : ResolvedAuth) (v : r.Verifier) → Presents v auth (client_auth r auth v)
  unfolding client_auth parse_pem_certs parse_pem_private_key
  client_auth-Presents none_auth v = anonymous no_method
  client_auth-Presents (user_pass u p) v = anonymous by_password
  client_auth-Presents (mtls ca cert key) v = elim (Result-cases (r.certs cert)) [
    | inr (x, e) ↦ rw e (bad_cert e)
    | inl (chain, c) ↦ rw c (elim (Result-cases (r.private_key key)) [
      | inr (x, e) ↦ rw e (bad_key c e)
      | inl (found, p) ↦ rw p (elim (Option-cases found) [
        | inl missing ↦ rw missing (no_key c (p ∙ ap (ok) missing))
        | inr (k, got) ↦ rw got (elim (Result-cases (r.with_client_auth_cert v chain k)) [
          | inl (cfg, f) ↦ rw f (authenticated c (p ∙ ap (ok) got) f)
          | inr (x, e) ↦ rw e (refused c (p ∙ ap (ok) got) e)
        ])
      ])
    ])
  ]

  build_tls_config-halves :
      (allow : Bool) (auth : ResolvedAuth)
      → build_tls_config r allow auth ≡ (server_verifier r allow auth >>= λ v. client_auth r auth v)
  unfolding build_tls_config
  build_tls_config-halves allow auth = refl

  -- The server's verification is settled before the client's authentication. With the flag nothing of
  -- the server is verified; otherwise it is verified by the configured CA under mutual TLS and by the
  -- platform's roots under any other method. Under mutual TLS the certificate is read before the key,
  -- and the error is that of the first thing that is at fault.
  pub build_tls_config-Verdict :
      (allow : Bool) (auth : ResolvedAuth) → Verdict allow auth (build_tls_config r allow auth)
  build_tls_config-Verdict allow auth = elim (Result-cases (server_verifier r allow auth)) [
    | inl (v, e) ↦
        rw (build_tls_config-halves allow auth, e)
          (verifiable (subst (Verifies allow auth) e (server_verifier-Verifies allow auth))
            (client_auth-Presents auth v))
    | inr (x, e) ↦
        rw (build_tls_config-halves allow auth, e)
          (unverifiable (subst (Verifies allow auth) e (server_verifier-Verifies allow auth)))
  ]
