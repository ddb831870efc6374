-- ===== src/Auth/Files.antt =====
-- `AuthConfig::build` of src/auth.rs: which files and variables are read, and which failure is
-- reported.
use rosetta_mq.Prelude.{
  ℕ, ◌≡◌, refl, inl, inr, List, [], ◌∷◌, ◌++◌, Result, ok, err, Result-cases, All,
}
use rosetta_mq.Text.{Text}
use rosetta_mq.Util.{FilePath, resolve_path}
use rosetta_mq.Auth.{
  MtlsConfig, AuthConfig, PasswordSource, Host, AuthError, ResolvedAuth, read, read_password, build,
}

-- The files of mutual TLS, in the order in which they are read.
abbrev pub files : MtlsConfig → List FilePath
files cfg = cfg.ca_file ∷ cfg.cert_file ∷ cfg.key_file ∷ []

module _ (h : Host) (base_dir : FilePath) where
  -- The file, seen from the directory, can be read.
  abbrev pub IsReadable : FilePath → Type 0
  IsReadable file = (bytes : List ℕ) × (h.read (resolve_path base_dir file) ≡ ok bytes)

  -- What a configuration resolves to, or the failure that is reported.
  pub data Resolved : AuthConfig → Result ResolvedAuth (AuthError h) → Type 0 where
    certificates :
        {cfg : MtlsConfig} {ca cert key : List ℕ}
        → h.read (resolve_path base_dir cfg.ca_file) ≡ ok ca
        → h.read (resolve_path base_dir cfg.cert_file) ≡ ok cert
        → h.read (resolve_path base_dir cfg.key_file) ≡ ok key
        → Resolved (AuthConfig.mtls cfg) (ok (ResolvedAuth.mtls ca cert key))
    unreadable :
        {cfg : MtlsConfig} (before after : List FilePath) (file : FilePath) {e : h.IoError}
        → files cfg ≡ before ++ file ∷ after
        → All IsReadable before
        → h.read (resolve_path base_dir file) ≡ err e
        → Resolved (AuthConfig.mtls cfg) (err (AuthError.io (resolve_path base_dir file) e))
    written_out :
        {username password : Text}
        → Resolved
            (AuthConfig.user_pass
              (record { username = username; password = PasswordSource.literal password }))
            (ok (ResolvedAuth.user_pass username password))
    from_variable :
        {username name password : Text}
        → h.env_var name ≡ ok password
        → Resolved
            (AuthConfig.user_pass
              (record { username = username; password = PasswordSource.env name }))
            (ok (ResolvedAuth.user_pass username password))
    no_variable :
        {username name : Text} {e : h.VarError}
        → h.env_var name ≡ err e
        → Resolved
            (AuthConfig.user_pass
              (record { username = username; password = PasswordSource.env name }))
            (err (AuthError.env_var name e))

  read-ok :
      (file : FilePath) (bytes : List ℕ)
      → h.read (resolve_path base_dir file) ≡ ok bytes
      → read h base_dir file ≡ ok bytes
  unfolding read
  read-ok file bytes e = rw e

  read-err :
      (file : FilePath) (x : h.IoError)
      → h.read (resolve_path base_dir file) ≡ err x
      → read h base_dir file ≡ err (AuthError.io (resolve_path base_dir file) x)
  unfolding read
  read-err file x e = rw e

  build_mtls-Resolved :
      (cfg : MtlsConfig) → Resolved (AuthConfig.mtls cfg) (build h (AuthConfig.mtls cfg) base_dir)
  unfolding build
  build_mtls-Resolved cfg = elim (Result-cases (h.read (resolve_path base_dir cfg.ca_file))) [
    | inr (x, e) ↦
        rw (read-err cfg.ca_file x e)
          (unreadable [] (cfg.cert_file ∷ cfg.key_file ∷ []) cfg.ca_file refl tt e)
    | inl (ca, p) ↦
        rw (read-ok cfg.ca_file ca p)
          (elim (Result-cases (h.read (resolve_path base_dir cfg.cert_file))) [
            | inr (x, e) ↦ rw (read-err cfg.cert_file x e) (
                unreadable (cfg.ca_file ∷ []) (cfg.key_file ∷ []) cfg.cert_file refl ((ca, p), tt)
                  e)
            | inl (cert, q) ↦
                rw (read-ok cfg.cert_file cert q)
                  (elim (Result-cases (h.read (resolve_path base_dir cfg.key_file))) [
                    | inr (x, e) ↦ rw (read-err cfg.key_file x e) (
                        unreadable (cfg.ca_file ∷ cfg.cert_file ∷ []) [] cfg.key_file refl
                          ((ca, p), ((cert, q), tt)) e)
                    | inl (key, r) ↦ rw (read-ok cfg.key_file key r) (certificates p q r)
                  ])
          ])
  ]

  build_user_pass-Resolved :
      (username : Text) (password : PasswordSource)
      → Resolved (AuthConfig.user_pass (record { username = username; password = password })) (
          build h
            (AuthConfig.user_pass (record { username = username; password = password }))
            base_dir)
  unfolding build read_password
  build_user_pass-Resolved username (PasswordSource.literal password) = written_out
  build_user_pass-Resolved username (PasswordSource.env name) =
      elim (Result-cases (h.env_var name)) [
        | inl (password, e) ↦ rw e (from_variable e)
        | inr (x, e) ↦ rw e (no_variable e)
      ]

  -- Under mutual TLS the files are read from the directory of the configuration, each path that is
  -- not absolute below it, in the order CA, certificate, key: the result has the bytes of all three,
  -- or the error is that of the first that cannot be read. A password is the text that is written
  -- out or the value of the variable, and the error names a variable that cannot be read.
  pub build-Resolved : (auth : AuthConfig) → Resolved auth (build h auth base_dir)
  build-Resolved (AuthConfig.mtls cfg) = build_mtls-Resolved cfg
  build-Resolved (AuthConfig.user_pass cfg) = build_user_pass-Resolved cfg.username cfg.password
