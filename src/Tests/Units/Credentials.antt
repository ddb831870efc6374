-- ===== src/Tests/Units/Credentials.antt =====
-- The tests of `AuthConfig::build` at the end of src/auth.rs, over a file system and an environment that
-- are lists. Those that read TOML are in Tests/Units/Tables.
use rosetta_mq.Prelude.{
  ◌≡◌, refl, Bool, true, false, ◌&&◌, List, [], ◌∷◌, Result, ok, err, if◌then◌else◌,
}
use rosetta_mq.Text.{Text, codes, text_eq}
use rosetta_mq.Util.{FilePath, resolve_path}
use rosetta_mq.Auth.{
  PasswordSource, AuthConfig, Host, AuthError, ResolvedAuth, read, read_password, build,
}
use rosetta_mq.Tests.Units.{unwrap_and, unwrap_err_and}

-- Names with their contents; a name that is not there is an error.
abbrev get : List (Text × Text) → Text → Result Text Text
get [] name = err name
get ((key, value) ∷ rest) name =
    let found = get rest name in if text_eq key name then ok value else found

-- The directory that a test writes its files to.
abbrev dir : FilePath
dir = codes "/tmp/rosetta-mq-auth-test"

abbrev host_with : List (Text × Text) → List (Text × Text) → Host
host_with files variables = record {
  IoError = Text;
  VarError = Text;
  read = get files;
  env_var = get variables;
}

abbrev is_mtls_of : ResolvedAuth → (ca cert key : Text) → Bool
is_mtls_of (ResolvedAuth.mtls ca cert key) ca' cert' key' =
    text_eq ca ca' && text_eq cert cert' && text_eq key key'
is_mtls_of _ _ _ _ = false

abbrev is_user_pass_of : ResolvedAuth → (username password : Text) → Bool
is_user_pass_of (ResolvedAuth.user_pass u p) u' p' = text_eq u u' && text_eq p p'
is_user_pass_of _ _ _ = false

abbrev is_io : {h : Host} → AuthError h → Bool
is_io (AuthError.io _ _) = true
is_io (AuthError.env_var _ _) = false

abbrev is_env_var : {h : Host} → AuthError h → Bool
is_env_var (AuthError.io _ _) = false
is_env_var (AuthError.env_var _ _) = true

abbrev mtls_with_ca : Text → AuthConfig
mtls_with_ca ca =
    AuthConfig.mtls
      (record { ca_file = ca; cert_file = codes "client.pem"; key_file = codes "client.key" })

abbrev device_reader : PasswordSource → AuthConfig
device_reader password =
    AuthConfig.user_pass (record { username = codes "device-reader"; password = password })

abbrev build_mtls_reads_cert_bytes_relative_to_base_dir : Bool
build_mtls_reads_cert_bytes_relative_to_base_dir =
    unwrap_and
      (build
        (host_with
          ((codes "/tmp/rosetta-mq-auth-test/ca.pem", codes "ca-bytes")
            ∷ (codes "/tmp/rosetta-mq-auth-test/client.pem", codes "cert-bytes")
            ∷ (codes "/tmp/rosetta-mq-auth-test/client.key", codes "key-bytes")
            ∷ [])
          [])
        (mtls_with_ca (codes "ca.pem")) dir)
      (λ resolved. is_mtls_of resolved (codes "ca-bytes") (codes "cert-bytes") (codes "key-bytes"))

abbrev build_mtls_fails_on_missing_file : Bool
build_mtls_fails_on_missing_file =
    unwrap_err_and (build (host_with [] []) (mtls_with_ca (codes "does-not-exist.pem")) dir) is_io

abbrev build_userpass_resolves_literal_password : Bool
build_userpass_resolves_literal_password =
    unwrap_and
      (build (host_with [] []) (device_reader (PasswordSource.literal (codes "supersecret")))
        (codes "."))
      (λ resolved. is_user_pass_of resolved (codes "device-reader") (codes "supersecret"))

abbrev build_userpass_resolves_password_from_env : Bool
build_userpass_resolves_password_from_env =
    let name = codes "ROSETTA_MQ_TEST_BUILD_USERPASS_RESOLVES_PASSWORD_FROM_ENV" in
    unwrap_and
      (build (host_with [] ((name, codes "env-secret") ∷ []))
        (device_reader (PasswordSource.env name)) (codes "."))
      (λ resolved. is_user_pass_of resolved (codes "device-reader") (codes "env-secret"))

abbrev build_userpass_fails_on_missing_env_var : Bool
build_userpass_fails_on_missing_env_var =
    unwrap_err_and
      (build (host_with [] [])
        (device_reader
          (PasswordSource.env (codes "ROSETTA_MQ_TEST_BUILD_USERPASS_FAILS_ON_MISSING_ENV_VAR")))
        (codes "."))
      is_env_var

auth_tests :
    (build_mtls_reads_cert_bytes_relative_to_base_dir ≡ true)
    × (build_mtls_fails_on_missing_file ≡ true)
    × (build_userpass_resolves_literal_password ≡ true)
    × (build_userpass_resolves_password_from_env ≡ true)
    × (build_userpass_fails_on_missing_env_var ≡ true)
unfolding build read read_password resolve_path text_eq
auth_tests = (refl, refl, refl, refl, refl)
