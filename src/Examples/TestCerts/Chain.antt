-- ===== src/Examples/TestCerts/Chain.antt =====
-- examples/dev_generate_test_certs.rs: what the files hold once the tool has returned.
use rosetta_mq.Prelude.{
  ℕ, ◌+◌, ◌*◌, ◌≡◌, refl, sym, ap, ◌∙◌, subst, some, List, [], ◌∷◌, ◌++◌, map, Result, ok, err,
  ok_or, ok_or-eq-ok, >>=-eq-ok, map_err-eq-ok, ok_inj, Result-cases, inl, inr,
}
use rosetta_mq.Text.{Text, codes}
use rosetta_mq.Util.{FilePath, path_join}
use rosetta_mq.Examples.{Panic, panicked, unwrap}
use rosetta_mq.Examples.TestCerts.{
  Params, Certs, ExtendedKeyUsagePurpose, server_auth, client_auth, unconstrained_ca, ca_params,
  leaf_params, day_secs, span_secs, Issuer, validity_period, new_ca, new_leaf, write, write_all,
  write_contents, contents, main,
}

-- The file `f`, in this directory.
abbrev pub placed : FilePath → Text × Text → FilePath × Text
placed dir f = (path_join dir f.0, f.1)

module _ {IoError : Type 0} (write_file : FilePath → Text → Result (Unit {0}) IoError)
    (dir : FilePath) where
  write_all-cons :
      (f : Text × Text) (files : List (Text × Text)) (u : Unit {0})
      → write write_file dir f.0 f.1 ≡ ok u
      → write_all write_file dir (f ∷ files)
        ≡ (placed dir f ∷ (write_all write_file dir files).0, (write_all write_file dir files).1)
  unfolding write_all
  write_all-cons f files u h = rw (h, write_all) refl

  write_all-stops :
      (f : Text × Text) (files : List (Text × Text)) (x : Panic)
      → write write_file dir f.0 f.1 ≡ err x
      → write_all write_file dir (f ∷ files) ≡ ([], err x)
  unfolding write_all
  write_all-stops f files x h = rw (h, write_all) refl

  write_all-placed :
      (files : List (Text × Text))
      → (write_all write_file dir files).1 ≡ ok tt
      → (write_all write_file dir files).0 ≡ map (placed dir) files
  write_all-placed [] e = unfold write_all in refl
  write_all-placed (f ∷ files) e = elim (Result-cases (write write_file dir f.0 f.1)) [
    | inl (u, h) ↦
        ap (λ r. r.0) (write_all-cons f files u h)
        ∙ ap (λ ws. placed dir f ∷ ws)
            (write_all-placed files (sym (ap (λ r. r.1) (write_all-cons f files u h)) ∙ e))
    | inr (x, h) ↦ cc (sym (ap (λ r. r.1) (write_all-stops f files x h)) ∙ e)
  ]

module _ {IoError : Type 0} (create_dir_all : FilePath → Result (Unit {0}) IoError)
    (write_file : FilePath → Text → Result (Unit {0}) IoError) (out_dir : FilePath) where
  write_contents-no_dir :
      (files : List (Text × Text)) (x : IoError)
      → create_dir_all out_dir ≡ err x
      → write_contents create_dir_all write_file out_dir (ok files) ≡ ([], err panicked)
  unfolding write_contents
  write_contents-no_dir files x d = rw (d, write_contents) refl

  write_contents-dir :
      (files : List (Text × Text)) (u : Unit {0})
      → create_dir_all out_dir ≡ ok u
      → write_contents create_dir_all write_file out_dir (ok files)
        ≡ write_all write_file out_dir files
  unfolding write_contents
  write_contents-dir files u d = rw (d, write_contents) refl

  write_contents-placed :
      (made : Result (List (Text × Text)) Panic) (written : List (FilePath × Text))
      → write_contents create_dir_all write_file out_dir made ≡ (written, ok tt)
      → (files : List (Text × Text)) × (made ≡ ok files) × (written ≡ map (placed out_dir) files)
  write_contents-placed (err p) written e = unfold write_contents in cc e
  write_contents-placed (ok files) written e = elim (Result-cases (create_dir_all out_dir)) [
    | inr (x, d) ↦ cc (sym e ∙ write_contents-no_dir files x d)
    | inl (u, d) ↦
        let run = sym (write_contents-dir files u d) ∙ e in
        (
          files,
          refl,
          ap (λ r. r.0) (sym run) ∙ write_all-placed write_file out_dir files (ap (λ r. r.1) run),
        )
  ]

module _ (c : Certs) where
  -- Valid from a day before a reading of the clock to ten years after the next.
  pub record IsValidFrom (n : ℕ) (params : Params c) : Type 0 where
    pub from : c.checked_sub (c.now_utc n) day_secs ≡ some params.not_before
    pub until : c.checked_add (c.now_utc (n + 1)) span_secs ≡ some params.not_after

  -- The certificate of a CA, which may sign certificates.
  pub record IsRoot (cert : c.Certificate) (issuer : Issuer c) : Type 0 where
    pub signed : c.self_signed issuer.0 issuer.1 ≡ ok cert
    pub ca : issuer.0.is_ca ≡ unconstrained_ca
    pub valid : IsValidFrom 0 issuer.0

  -- The certificate for a key, signed by the issuer, with this name and this use.
  pub record IsLeaf (n : ℕ) (issuer : Issuer c) (san : Text) (eku : ExtendedKeyUsagePurpose)
      (cert : c.Certificate) (key : c.KeyPair) : Type 0 where
    pub params : Params c
    pub fresh : Params c
    pub named : c.new_params (san ∷ []) ≡ ok fresh
    pub same_name : params.subject_alt_names ≡ fresh.subject_alt_names
    pub used : params.extended_key_usages ≡ fresh.extended_key_usages ++ eku ∷ []
    pub signed : c.signed_by params key issuer ≡ ok cert
    pub valid : IsValidFrom (2 * n) params

  -- A CA with a server's and a client's certificate.
  pub record IsChain (files : List (Text × Text)) : Type 0 where
    pub issuer : Issuer c
    pub ca_cert : c.Certificate
    pub server_cert : c.Certificate
    pub server_key : c.KeyPair
    pub client_cert : c.Certificate
    pub client_key : c.KeyPair
    pub root : IsRoot ca_cert issuer
    pub server : IsLeaf 1 issuer (codes "127.0.0.1") server_auth server_cert server_key
    pub client : IsLeaf 2 issuer (codes "rosetta-mq-test-client") client_auth client_cert client_key
    pub all :
        files
        ≡ (codes "ca.pem", c.pem ca_cert)
          ∷ (codes "server-cert.pem", c.pem server_cert)
          ∷ (codes "server-key.pem", c.serialize_pem server_key)
          ∷ (codes "client-cert.pem", c.pem client_cert)
          ∷ (codes "client-key.pem", c.serialize_pem client_key)
          ∷ []

  validity_period-IsValid :
      (n : ℕ) (from until : c.Time)
      → validity_period c n (n + 1) ≡ ok (from, until)
      → (c.checked_sub (c.now_utc n) day_secs ≡ some from)
        × (c.checked_add (c.now_utc (n + 1)) span_secs ≡ some until)
  unfolding validity_period
  validity_period-IsValid n from until e =
      let (a, p, e1) = >>=-eq-ok (ok_or panicked (c.checked_sub (c.now_utc n) day_secs)) _ e in
      let (b, q, e2) =
        >>=-eq-ok (ok_or panicked (c.checked_add (c.now_utc (n + 1)) span_secs)) _ e1 in
      (
        ok_or-eq-ok _ _ p ∙ ap (λ x. some x.0) (ok_inj e2),
        ok_or-eq-ok _ _ q ∙ ap (λ x. some x.1) (ok_inj e2),
      )

  new_ca-IsRoot :
      (cert : c.Certificate) (issuer : Issuer c) → new_ca c ≡ ok (cert, issuer) → IsRoot cert issuer
  unfolding new_ca
  new_ca-IsRoot cert issuer e =
      let (params, _, e1) = >>=-eq-ok (unwrap (c.new_params [])) _ e in
      let (period, v, e2) = >>=-eq-ok (validity_period c 0 1) _ e1 in
      let made = ca_params c params period.0 period.1 in
      let (key, _, e3) = >>=-eq-ok (unwrap (c.generate 0)) _ e2 in
      let (signed, s, e4) = >>=-eq-ok (unwrap (c.self_signed made key)) _ e3 in
      let valid = validity_period-IsValid 0 period.0 period.1 v in
      subst (λ (x : c.Certificate × Issuer c). IsRoot x.0 x.1) (ok_inj e4)
        (record {
          signed = map_err-eq-ok _ (c.self_signed made key) s;
          ca = refl;
          valid = record { from = valid.0; until = valid.1 };
        })

  new_leaf-IsLeaf :
      (n : ℕ) (issuer : Issuer c) (san name : Text) (eku : ExtendedKeyUsagePurpose)
      (cert : c.Certificate) (key : c.KeyPair)
      → new_leaf c n issuer san name eku ≡ ok (cert, key)
      → IsLeaf n issuer san eku cert key
  unfolding new_leaf
  new_leaf-IsLeaf n issuer san name eku cert key e =
      let (fresh, p, e1) = >>=-eq-ok (unwrap (c.new_params (san ∷ []))) _ e in
      let (period, v, e2) = >>=-eq-ok (validity_period c (2 * n) (2 * n + 1)) _ e1 in
      let made = leaf_params c fresh name eku period.0 period.1 in
      let (pair, _, e3) = >>=-eq-ok (unwrap (c.generate n)) _ e2 in
      let (signed, s, e4) = >>=-eq-ok (unwrap (c.signed_by made pair issuer)) _ e3 in
      let valid = validity_period-IsValid (2 * n) period.0 period.1 v in
      subst (λ (x : c.Certificate × c.KeyPair). IsLeaf n issuer san eku x.0 x.1) (ok_inj e4)
        (record {
          params = made;
          fresh = fresh;
          named = map_err-eq-ok _ (c.new_params (san ∷ [])) p;
          same_name = refl;
          used = refl;
          signed = map_err-eq-ok _ (c.signed_by made pair issuer) s;
          valid = record { from = valid.0; until = valid.1 };
        })

  contents-IsChain : (files : List (Text × Text)) → contents c ≡ ok files → IsChain files
  unfolding contents
  contents-IsChain files e =
      let (ca, p, e1) = >>=-eq-ok (new_ca c) _ e in
      let (server, q, e2) =
        >>=-eq-ok
          (new_leaf c 1 ca.1 (codes "127.0.0.1") (codes "rosetta-mq-test-server") server_auth) _
          e1 in
      let (client, r, e3) =
        >>=-eq-ok
          (new_leaf c 2 ca.1 (codes "rosetta-mq-test-client") (codes "rosetta-mq-test-client")
            client_auth)
          _ e2 in
      record {
        issuer = ca.1;
        ca_cert = ca.0;
        server_cert = server.0;
        server_key = server.1;
        client_cert = client.0;
        client_key = client.1;
        root = new_ca-IsRoot ca.0 ca.1 p;
        server =
            new_leaf-IsLeaf 1 ca.1 (codes "127.0.0.1") (codes "rosetta-mq-test-server") server_auth
              server.0 server.1 q;
        client =
            new_leaf-IsLeaf 2 ca.1 (codes "rosetta-mq-test-client") (codes "rosetta-mq-test-client")
              client_auth client.0 client.1 r;
        all = sym (ok_inj e3);
      }

  -- Once the tool has returned, it has written five files to the directory, in order: the CA's
  -- certificate, and the certificate and key of a server and of a client. The CA's certificate is
  -- self-signed, for a CA; the other two are signed by it, each for the key beside it, for the
  -- server's address or the client's name and for that use; and each is valid from a day before it
  -- was made to ten years after.
  pub main-IsChain :
      {IoError : Type 0} (create_dir_all : FilePath → Result (Unit {0}) IoError)
      (write_file : FilePath → Text → Result (Unit {0}) IoError) (out_dir : FilePath)
      (written : List (FilePath × Text))
      → main c create_dir_all write_file out_dir ≡ (written, ok tt)
      → (files : List (Text × Text)) × (written ≡ map (placed out_dir) files) × IsChain files
  unfolding main
  main-IsChain create_dir_all write_file out_dir written e =
      let (files, made, same) =
        write_contents-placed create_dir_all write_file out_dir (contents c) written e in
      (files, same, contents-IsChain files made)
