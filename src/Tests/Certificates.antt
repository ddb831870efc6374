-- ===== src/Tests/Certificates.antt =====
-- Tests of the tool for certificates, with a library whose certificates say who signed them.
use rosetta_mq.Prelude.{ℕ, ◌+◌, ◌-◌, ◌≡◌, refl, false, some, List, [], ◌∷◌, map, Result, ok}
use rosetta_mq.Text.{Text, codes}
use rosetta_mq.Util.{FilePath, path_join}
use rosetta_mq.Examples.TestCerts.{
  Certs, no_ca, new_ca, new_leaf, validity_period, contents, write_all, write_contents, main,
}
use rosetta_mq.Examples.TestCerts.Chain.{placed, IsChain, main-IsChain}

-- A key is its number, and a certificate the numbers of its key and its issuer's.
abbrev numbered : Certs
numbered = record {
  Time = ℕ;
  DistinguishedName = Text;
  now_utc = λ n. 1000000 + n;
  checked_add = λ t n. some (t + n);
  checked_sub = λ t n. some (t - n);
  KeyPair = ℕ;
  Certificate = ℕ × ℕ;
  RcgenError = Unit;
  push_common_name = λ _ name. name;
  new_params = λ names. ok (record {
    subject_alt_names = names;
    is_ca = no_ca;
    distinguished_name = [];
    use_authority_key_identifier_extension = false;
    key_usages = [];
    extended_key_usages = [];
    not_before = 0;
    not_after = 0;
  });
  generate = λ n. ok n;
  self_signed = λ _ key. ok (key, key);
  signed_by = λ _ key issuer. ok (key, issuer.1);
  pem = λ cert. cert.0 ∷ cert.1 ∷ [];
  serialize_pem = λ key. key ∷ [];
}

abbrev create_dir : FilePath → Result (Unit {0}) Text
create_dir _ = ok tt

abbrev write_file : FilePath → Text → Result (Unit {0}) Text
write_file _ _ = ok tt

abbrev made : List (FilePath × Text)
made =
    (codes "tls/ca.pem", 0 ∷ 0 ∷ [])
    ∷ (codes "tls/server-cert.pem", 1 ∷ 0 ∷ [])
    ∷ (codes "tls/server-key.pem", 1 ∷ [])
    ∷ (codes "tls/client-cert.pem", 2 ∷ 0 ∷ [])
    ∷ (codes "tls/client-key.pem", 2 ∷ [])
    ∷ []

main_run : main numbered create_dir write_file (codes "tls") ≡ (made, ok tt)
unfolding main write_contents contents write_all new_ca new_leaf validity_period path_join
main_run = refl

main-IsChain_example :
    (files : List (Text × Text)) × (made ≡ map (placed (codes "tls")) files)
    × IsChain numbered files
main-IsChain_example = main-IsChain numbered create_dir write_file (codes "tls") made main_run
