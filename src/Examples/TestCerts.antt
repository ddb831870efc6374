-- ===== src/Examples/TestCerts.antt =====
-- examples/dev_generate_test_certs.rs: a CA, and a server's and a client's certificate that it signs.
-- The certificate library with its random keys, the clock and the file system are parameters.
pub mod Chain
use rosetta_mq.Prelude.{
  ℕ, suc, ◌+◌, ◌*◌, Bool, true, Option, none, some, List, [], ◌∷◌, ◌++◌, Result, ok, err, ◌>>=◌,
  map_err, ok_or,
}
use rosetta_mq.Text.{Text, codes}
use rosetta_mq.Examples.{Panic, panicked, unwrap}
use rosetta_mq.Util.{FilePath, path_join}

pub data IsCa : Type 0 where
  no_ca unconstrained_ca : IsCa

pub data KeyUsagePurpose : Type 0 where
  digital_signature key_cert_sign crl_sign : KeyUsagePurpose

pub data ExtendedKeyUsagePurpose : Type 0 where
  server_auth client_auth : ExtendedKeyUsagePurpose

-- The fields of `rcgen::CertificateParams` that the source sets.
pub record CertificateParams (Time DistinguishedName : Type 0) : Type 0 where
  pub subject_alt_names : List Text
  pub is_ca : IsCa
  pub distinguished_name : DistinguishedName
  pub use_authority_key_identifier_extension : Bool
  pub key_usages : List KeyUsagePurpose
  pub extended_key_usages : List ExtendedKeyUsagePurpose
  pub not_before : Time
  pub not_after : Time

-- What the source calls of `rcgen` and `time`. `generate` and `now_utc` answer the call of that
-- number.
pub record Certs : Type 1 where
  pub Time : Type 0
  pub DistinguishedName : Type 0
  pub now_utc : ℕ → Time
  pub checked_add : Time → ℕ → Option Time
  pub checked_sub : Time → ℕ → Option Time
  pub KeyPair : Type 0
  pub Certificate : Type 0
  pub RcgenError : Type 0
  pub push_common_name : DistinguishedName → Text → DistinguishedName
  pub new_params : List Text → Result (CertificateParams Time DistinguishedName) RcgenError
  pub generate : ℕ → Result KeyPair RcgenError
  pub self_signed :
      CertificateParams Time DistinguishedName → KeyPair → Result Certificate RcgenError
  pub signed_by :
      CertificateParams Time DistinguishedName
      → KeyPair
      → (issuer : CertificateParams Time DistinguishedName × KeyPair)
      → Result Certificate RcgenError
  pub pem : Certificate → Text
  pub serialize_pem : KeyPair → Text

abbrev day_secs : ℕ
day_secs = 86400

abbrev span_secs : ℕ
span_secs = 10 * 365 * 86400

module _ {IoError : Type 0} (write_file : FilePath → Text → Result (Unit {0}) IoError)
    (dir : FilePath) where
  abbrev pub write : (name contents : Text) → Result (Unit {0}) Panic
  write name contents = unwrap (write_file (path_join dir name) contents)

  -- One call after the other: the files that were written, and whether the last call panicked.
  unfoldable pub write_all : List (Text × Text) → List (FilePath × Text) × Result (Unit {0}) Panic
  write_all [] = ([], ok tt)
  write_all ((name, contents) ∷ files) =
      let rest = write_all files in
      elim (write name contents) [
        | ok _ ↦ ((path_join dir name, contents) ∷ rest.0, rest.1)
        | err p ↦ ([], err p)
      ]

-- The second half of `main`, once the certificates are made.
unfoldable pub write_contents :
    {IoError : Type 0}
    → (create_dir_all : FilePath → Result (Unit {0}) IoError)
    → (write_file : FilePath → Text → Result (Unit {0}) IoError) → FilePath
    → Result (List (Text × Text)) Panic
    → List (FilePath × Text) × Result (Unit {0}) Panic
unfolding write_all
write_contents create_dir_all write_file out_dir (err p) = ([], err p)
write_contents create_dir_all write_file out_dir (ok files) = elim (create_dir_all out_dir) [
  | err _ ↦ ([], err panicked)
  | ok _ ↦ write_all write_file out_dir files
]

module _ (c : Certs) where
  abbrev pub Params : Type 0
  Params = CertificateParams c.Time c.DistinguishedName

  -- The assignments of `new_ca`.
  abbrev pub ca_params : Params → (not_before not_after : c.Time) → Params
  ca_params params not_before not_after = record params {
    is_ca = unconstrained_ca;
    distinguished_name = c.push_common_name params.distinguished_name (codes "rosetta-mq test CA");
    key_usages = params.key_usages ++ digital_signature ∷ key_cert_sign ∷ crl_sign ∷ [];
    not_before = not_before;
    not_after = not_after;
  }

  -- The assignments of `new_leaf`.
  abbrev pub leaf_params :
      Params
      → (common_name : Text) → ExtendedKeyUsagePurpose
      → (not_before not_after : c.Time) → Params
  leaf_params params common_name eku not_before not_after = record params {
    distinguished_name = c.push_common_name params.distinguished_name common_name;
    use_authority_key_identifier_extension = true;
    key_usages = params.key_usages ++ digital_signature ∷ [];
    extended_key_usages = params.extended_key_usages ++ eku ∷ [];
    not_before = not_before;
    not_after = not_after;
  }

  abbrev pub Issuer : Type 0
  Issuer = Params × c.KeyPair

  -- `validity_period`, by the numbers of its two readings of the clock.
  unfoldable pub validity_period : ℕ → ℕ → Result (c.Time × c.Time) Panic
  validity_period first second = do
    yesterday ← ok_or panicked (c.checked_sub (c.now_utc first) day_secs)
    far_future ← ok_or panicked (c.checked_add (c.now_utc second) span_secs)
    ok (yesterday, far_future)

  -- `new_ca`, which reads the clock and generates a key first.
  unfoldable pub new_ca : Result (c.Certificate × Issuer) Panic
  new_ca = do
    params ← unwrap (c.new_params [])
    period ← validity_period 0 1
    let params' = ca_params params period.0 period.1
    key_pair ← unwrap (c.generate 0)
    cert ← unwrap (c.self_signed params' key_pair)
    ok (cert, (params', key_pair))

  -- `new_leaf`, the call of this number.
  unfoldable pub new_leaf :
      ℕ
      → Issuer
      → (san common_name : Text) → ExtendedKeyUsagePurpose
      → Result (c.Certificate × c.KeyPair) Panic
  new_leaf n issuer san common_name eku = do
    params ← unwrap (c.new_params (san ∷ []))
    period ← validity_period (2 * n) (2 * n + 1)
    let params' = leaf_params params common_name eku period.0 period.1
    key_pair ← unwrap (c.generate n)
    cert ← unwrap (c.signed_by params' key_pair issuer)
    ok (cert, key_pair)

  -- The certificates and keys of `main`, by the names of their files.
  unfoldable pub contents : Result (List (Text × Text)) Panic
  unfolding new_ca new_leaf validity_period
  contents = do
    ca ← new_ca
    server ← new_leaf 1 ca.1 (codes "127.0.0.1") (codes "rosetta-mq-test-server") server_auth
    client ←
        new_leaf 2 ca.1 (codes "rosetta-mq-test-client") (codes "rosetta-mq-test-client")
          client_auth
    ok (
        (codes "ca.pem", c.pem ca.0)
        ∷ (codes "server-cert.pem", c.pem server.0)
        ∷ (codes "server-key.pem", c.serialize_pem server.1)
        ∷ (codes "client-cert.pem", c.pem client.0)
        ∷ (codes "client-key.pem", c.serialize_pem client.1)
        ∷ [])

  -- `main`, by the answers of the file system.
  unfoldable pub main :
      {IoError : Type 0}
      → (create_dir_all : FilePath → Result (Unit {0}) IoError)
      → (write_file : FilePath → Text → Result (Unit {0}) IoError) → FilePath
      → List (FilePath × Text) × Result (Unit {0}) Panic
  unfolding write_contents contents
  main create_dir_all write_file out_dir = write_contents create_dir_all write_file out_dir contents
