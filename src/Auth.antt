-- ===== src/Auth.antt =====
-- src/auth.rs: the authentication method with its files and variables read. The file system and the
-- environment are a parameter, `Host`.
pub mod Files
use rosetta_mq.Prelude.{ℕ, List, Result, ok, ◌>>=◌, map_err}
use rosetta_mq.Text.{Text}
use rosetta_mq.Util.{FilePath, resolve_path}

pub record MtlsConfig : Type 0 where
  pub ca_file : FilePath
  pub cert_file : FilePath
  pub key_file : FilePath

pub data PasswordSource : Type 0 where
  env : Text → PasswordSource
  literal : Text → PasswordSource

pub record UserPassConfig : Type 0 where
  pub username : Text
  pub password : PasswordSource

pub data AuthConfig : Type 0 where
  mtls : MtlsConfig → AuthConfig
  user_pass : UserPassConfig → AuthConfig

-- What the operating system answers while the configuration is read.
pub record Host : Type 1 where
  pub IoError : Type 0
  pub VarError : Type 0
  pub read : FilePath → Result (List ℕ) IoError
  pub env_var : Text → Result Text VarError

pub data AuthError (h : Host) : Type 0 where
  io : FilePath → h.IoError → AuthError h
  env_var : Text → h.VarError → AuthError h

-- The fields of `Mtls` are `ca`, `cert` and `key`, those of `UserPass` the name and the password.
pub data ResolvedAuth : Type 0 where
  none_auth : ResolvedAuth
  mtls : (ca cert key : List ℕ) → ResolvedAuth
  user_pass : (username password : Text) → ResolvedAuth

module _ (h : Host) where
  unfoldable pub read : FilePath → FilePath → Result (List ℕ) (AuthError h)
  unfolding resolve_path
  read base_dir file =
      let path = resolve_path base_dir file in map_err (AuthError.io path) (h.read path)

  -- The `match &cfg.password`.
  unfoldable pub read_password : PasswordSource → Result Text (AuthError h)
  read_password (literal password) = ok password
  read_password (env name) = map_err (AuthError.env_var name) (h.env_var name)

  unfoldable pub build : AuthConfig → FilePath → Result ResolvedAuth (AuthError h)
  unfolding read read_password
  build (AuthConfig.mtls cfg) base_dir = do
    ca ← read base_dir cfg.ca_file
    cert ← read base_dir cfg.cert_file
    key ← read base_dir cfg.key_file
    ok (ResolvedAuth.mtls ca cert key)
  build (AuthConfig.user_pass cfg) base_dir = do
    password ← read_password cfg.password
    ok (ResolvedAuth.user_pass cfg.username password)
