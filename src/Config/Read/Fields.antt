-- ===== src/Config/Read/Fields.antt =====
-- `Config::parse` of src/config.rs: which fields of the document a configuration comes from.
use rosetta_mq.Prelude.{
  ℕ, ◌<◌, ◌^◌, ◌≡◌, refl, ap, ◌∙◌, subst, ◌⊎◌, inl, inr, Bool, true, false, Option, none, some, [],
  arith, some_inj, Bool-cases, ltb, ltb→lt,
}
use rosetta_mq.Text.{Text, codes}
use rosetta_mq.Config.{ConnectionConfig, Config}
use rosetta_mq.Config.Document.{
  Value, Table, string, integer, pos, boolean, table, ◌>>=◌, get, as_table, read_string, read_bool,
  read_u16, required, optional, or_default,
}
use rosetta_mq.Config.Read.{
  OtherShapes, read_protocol, read_auth, read_connection_table, read_connection, read_config_table,
}

pub >>=-eq-some {ℓ κ} :
    {A : Type ℓ} {B : Type κ} (first : Option A) (next : A → Option B) {b : B}
    → first >>= next ≡ some b
    → (a : A) × (first ≡ some a) × (next a ≡ some b)
>>=-eq-some none next e = cc
>>=-eq-some (some a) next e = (a, refl, e)

read_string_inv : (v : Value) {s : Text} → read_string v ≡ some s → v ≡ string s
read_string_inv (string s) e = ap (string) (some_inj e)
read_string_inv _ e = cc

read_bool_inv : (v : Value) {b : Bool} → read_bool v ≡ some b → v ≡ boolean b
read_bool_inv (boolean b) e = ap (boolean) (some_inj e)
read_bool_inv _ e = cc

read_u16_inv : (v : Value) {n : ℕ} → read_u16 v ≡ some n → (v ≡ integer (pos n)) × (n < 2 ^ 16)
read_u16_inv (integer (pos m)) {n} e = by_width (Bool-cases (ltb m (2 ^ 16)))
  where
    by_width :
        (ltb m (2 ^ 16) ≡ true) ⊎ (ltb m (2 ^ 16) ≡ false)
        → (integer (pos m) ≡ integer (pos n)) × (n < 2 ^ 16)
    by_width (inl fits) =
        let same : m ≡ n = some_inj (unfold read_u16 in ground arith) in
        (ap (λ n. integer (pos n)) same, subst (λ n. n < 2 ^ 16) same (ltb→lt m (2 ^ 16) fits))
    by_width (inr wide) = absurd (unfold read_u16 in ground arith)
read_u16_inv _ e = unfold read_u16 in cc

pub as_table_inv : (v : Value) {t : Table} → as_table v ≡ some t → v ≡ table t
unfolding as_table
as_table_inv (table t) e = ap (table) (some_inj e)
as_table_inv _ e = cc

-- The fields of a connection that have no default, and those that are left out.
pub record IsConnection (t : Table) (c : ConnectionConfig) : Type 0 where
  pub host : get t (codes "host") ≡ some (string c.host)
  pub port : get t (codes "port") ≡ some (integer (pos c.port))
  pub port_fits : c.port < 2 ^ 16
  pub client_id : get t (codes "client_id") ≡ some (string c.client_id)
  pub tls : get t (codes "tls") ≡ some (boolean c.tls)
  pub verified : get t (codes "allow_self_signed_certs") ≡ none → c.allow_self_signed_certs ≡ false

required_inv :
    {T : Type 0} (read : Value → Option T) (as_value : T → Value)
    → ((v : Value) (a : T) → read v ≡ some a → v ≡ as_value a)
    → (t : Table) (key : Text) {a : T} → required read t key ≡ some a
    → get t key ≡ some (as_value a)
unfolding required
required_inv read as_value inv t key {a} e =
    let (v, found, e') = >>=-eq-some (get t key) read e in found ∙ ap (λ x. some x) (inv v a e')

or_default-missing :
    {T : Type 0} (read : Value → Option T) (default : T) (t : Table) (key : Text) {a : T}
    → or_default read default t key ≡ some a
    → get t key ≡ none
    → a ≡ default
unfolding or_default
or_default-missing read default t key e missing = ground arith

port_inv :
    (t : Table) (key : Text) {n : ℕ}
    → required read_u16 t key ≡ some n
    → (get t key ≡ some (integer (pos n))) × (n < 2 ^ 16)
unfolding required
port_inv t key e =
    let (v, found, e') = >>=-eq-some (get t key) read_u16 e in
    let (same, fits) = read_u16_inv v e' in (found ∙ ap (λ x. some x) same, fits)

module _ (o : OtherShapes) where
  pub read_connection_table-IsConnection :
      (t : Table) (c : ConnectionConfig)
      → read_connection_table o t ≡ some c
      → IsConnection t c × (read_protocol t ≡ some c.protocol)
  unfolding read_connection_table
  read_connection_table-IsConnection t c e =
      let (host, host_read, e1) = >>=-eq-some (required read_string t (codes "host")) _ e in
      let (port, port_read, e2) = >>=-eq-some (required read_u16 t (codes "port")) _ e1 in
      let (id, id_read, e3) = >>=-eq-some (required read_string t (codes "client_id")) _ e2 in
      let (auth, auth_read, e4) = >>=-eq-some (optional (read_auth o) t (codes "auth")) _ e3 in
      let (tls, tls_read, e5) = >>=-eq-some (required read_bool t (codes "tls")) _ e4 in
      let (protocol, protocol_read, e6) = >>=-eq-some (read_protocol t) _ e5 in
      let (allow, allow_read, e7) =
        >>=-eq-some (or_default read_bool false t (codes "allow_self_signed_certs")) _ e6 in
      let (port_is, fits) = port_inv t (codes "port") port_read in
      subst (λ c. IsConnection t c × (read_protocol t ≡ some c.protocol)) (some_inj e7)
        (
          record {
            host =
                required_inv read_string string (λ v a. read_string_inv v) t (codes "host")
                  host_read;
            port = port_is;
            port_fits = fits;
            client_id =
                required_inv read_string string (λ v a. read_string_inv v) t (codes "client_id")
                  id_read;
            tls = required_inv read_bool boolean (λ v a. read_bool_inv v) t (codes "tls") tls_read;
            verified =
                or_default-missing read_bool false t (codes "allow_self_signed_certs") allow_read;
          },
          protocol_read,
        )

  pub read_config_table-connection :
      (t : Table) (c : Config)
      → read_config_table o t ≡ some c
      → (inner : Table) × (get t (codes "connection") ≡ some (table inner))
        × (read_connection_table o inner ≡ some c.connection)
  unfolding read_config_table required read_connection
  read_config_table-connection t c e =
      let (connection, read, e1) =
        >>=-eq-some (required (read_connection o) t (codes "connection")) _ e in
      let (v, found, e2) = >>=-eq-some (get t (codes "connection")) (read_connection o) read in
      let (inner, is_table, e3) = >>=-eq-some (as_table v) (read_connection_table o) e2 in
      let (topics, _, e4) = >>=-eq-some (or_default _ [] t (codes "topic")) _ e1 in
      let (decoders, _, e5) = >>=-eq-some (or_default _ [] t (codes "decoder")) _ e4 in
      let (engine, _, e6) = >>=-eq-some (or_default _ _ t (codes "engine")) _ e5 in
      (
        inner,
        found ∙ ap (λ x. some x) (as_table_inv v is_table),
        e3 ∙ ap (λ x. some x) (ap (λ (c : Config). c.connection) (some_inj e6)),
      )
