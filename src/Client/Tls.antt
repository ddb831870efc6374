-- ===== src/Client/Tls.antt =====
-- The TLS part of src/client.rs: how the server is verified and how the client is authenticated.
pub mod Verdict
use rosetta_mq.Prelude.{
  ℕ, Bool, Option, List, [], ◌∷◌, Result, ok, err, ◌>>=◌, map_err, ok_or, if◌then◌else◌, is_empty,
}
use rosetta_mq.Text.{Text, codes}
use rosetta_mq.Auth.{ResolvedAuth, none_auth, mtls, user_pass}

pub data SignatureScheme : Type 0 where
  rsa_pkcs1_sha1 ecdsa_sha1_legacy rsa_pkcs1_sha256 ecdsa_nistp256_sha256 rsa_pkcs1_sha384
        ecdsa_nistp384_sha384 rsa_pkcs1_sha512 ecdsa_nistp521_sha512 rsa_pss_sha256 rsa_pss_sha384
        rsa_pss_sha512 ed25519 ed448 :
      SignatureScheme

-- `ServerCertVerifier`: of the arguments of each check only the certificate, or the message with it,
-- is kept, by its bytes.
pub record ServerCertVerifier (Error : Type 0) : Type 0 where
  pub verify_server_cert : (end_entity : List ℕ) → Result (Unit {0}) Error
  pub verify_tls12_signature : (message cert : List ℕ) → Result (Unit {0}) Error
  pub verify_tls13_signature : (message cert : List ℕ) → Result (Unit {0}) Error
  pub supported_verify_schemes : List SignatureScheme

-- `NoServerCertVerification`
unfoldable pub no_server_cert_verification : {Error : Type 0} → ServerCertVerifier Error
no_server_cert_verification = record {
  verify_server_cert = λ _. ok tt;
  verify_tls12_signature = λ _ _. ok tt;
  verify_tls13_signature = λ _ _. ok tt;
  supported_verify_schemes =
      rsa_pkcs1_sha1 ∷ ecdsa_sha1_legacy ∷ rsa_pkcs1_sha256 ∷ ecdsa_nistp256_sha256
      ∷ rsa_pkcs1_sha384 ∷ ecdsa_nistp384_sha384 ∷ rsa_pkcs1_sha512 ∷ ecdsa_nistp521_sha512
      ∷ rsa_pss_sha256 ∷ rsa_pss_sha384 ∷ rsa_pss_sha512 ∷ ed25519 ∷ ed448 ∷ [];
}

-- What the source calls of `rustls`, `rustls_pemfile` and `rustls_native_certs`. A `Verifier` is a
-- configuration whose way to verify the server is chosen.
pub record Rustls : Type 1 where
  pub Certificate : Type 0
  pub PrivateKey : Type 0
  pub RootCertStore : Type 0
  pub Verifier : Type 0
  pub ClientConfig : Type 0
  pub PemError : Type 0
  pub NativeError : Type 0
  pub TlsError : Type 0
  pub certs : List ℕ → Result (List Certificate) PemError
  pub private_key : List ℕ → Result (Option PrivateKey) PemError
  pub native_certs : List Certificate
  pub native_errors : List NativeError
  pub empty_roots : RootCertStore
  pub add_parsable_certificates : RootCertStore → List Certificate → RootCertStore
  pub with_custom_certificate_verifier : ServerCertVerifier TlsError → Verifier
  pub with_root_certificates : RootCertStore → Verifier
  pub with_client_auth_cert :
      Verifier → List Certificate → PrivateKey → Result ClientConfig TlsError
  pub with_no_client_auth : Verifier → ClientConfig

pub data ClientInitError (r : Rustls) : Type 0 where
  pem_parse : Text → r.PemError → ClientInitError r
  missing_private_key : ClientInitError r
  native_certs_failed : List r.NativeError → ClientInitError r
  invalid_client_cert : r.TlsError → ClientInitError r

module _ (r : Rustls) where
  unfoldable pub parse_pem_certs : List ℕ → Text → Result (List r.Certificate) (ClientInitError r)
  parse_pem_certs pem context = map_err (pem_parse context) (r.certs pem)

  unfoldable pub parse_pem_private_key : List ℕ → Result r.PrivateKey (ClientInitError r)
  parse_pem_private_key pem = do
    found ← map_err (pem_parse (codes "client private key")) (r.private_key pem)
    ok_or missing_private_key found

  -- The roots that verify the server: the configured CA under mutual TLS, the platform's otherwise.
  pub native_roots : Result r.RootCertStore (ClientInitError r)
  native_roots =
      if is_empty r.native_errors
      then ok (r.add_parsable_certificates r.empty_roots r.native_certs)
      else err (native_certs_failed r.native_errors)

  pub root_store : ResolvedAuth → Result r.RootCertStore (ClientInitError r)
  unfolding parse_pem_certs native_roots
  root_store (mtls ca _ _) = do
    parsed ← parse_pem_certs ca (codes "CA certificate")
    ok (r.add_parsable_certificates r.empty_roots parsed)
  root_store none_auth = native_roots
  root_store (user_pass _ _) = native_roots

  -- The first half of `build_tls_config`.
  unfoldable pub server_verifier : Bool → ResolvedAuth → Result r.Verifier (ClientInitError r)
  unfolding root_store no_server_cert_verification
  server_verifier allow_self_signed_certs auth =
      if allow_self_signed_certs
      then ok (r.with_custom_certificate_verifier no_server_cert_verification)
      else (do roots ← root_store auth; ok (r.with_root_certificates roots))

  -- The second half.
  unfoldable pub client_auth : ResolvedAuth → r.Verifier → Result r.ClientConfig (ClientInitError r)
  unfolding parse_pem_certs parse_pem_private_key
  client_auth (mtls _ cert key) verifier = do
    cert_chain ← parse_pem_certs cert (codes "client certificate")
    key_der ← parse_pem_private_key key
    map_err invalid_client_cert (r.with_client_auth_cert verifier cert_chain key_der)
  client_auth none_auth verifier = ok (r.with_no_client_auth verifier)
  client_auth (user_pass _ _) verifier = ok (r.with_no_client_auth verifier)

  unfoldable pub build_tls_config : Bool → ResolvedAuth → Result r.ClientConfig (ClientInitError r)
  unfolding server_verifier client_auth
  build_tls_config allow_self_signed_certs auth = do
    verifier ← server_verifier allow_self_signed_certs auth
    client_auth auth verifier
