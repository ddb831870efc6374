-- ===== src/Config/Read/Source.antt =====
-- `Config::parse` of src/config.rs: what the connection of a configuration has from the document, with
-- the protocol that is injected where there is none.
use rosetta_mq.Prelude.{
  ◌≡◌, refl, sym, ap, ◌∙◌, subst, inl, inr, Option, none, some, ok, arith, some_inj, ok_inj,
  ok_or-eq-ok, Bool-cases,
}
use rosetta_mq.Text.{Text, codes, text_eq}
use rosetta_mq.Protocol.{Protocol}
use rosetta_mq.Auth.{Host}
use rosetta_mq.Config.{ConnectionConfig, Config, inject_protocol, normalize_config, parse_config}
use rosetta_mq.Config.Parse.{parse_config_inv}
use rosetta_mq.Config.Document.{
  Value, Table, string, table, no_entries, entry, ◌>>=◌, get, replace, as_table, required,
  read_record,
}
use rosetta_mq.Config.Read.{
  OtherShapes, Library, toml_of, read_protocol, read_connection_table, read_config_table,
  read_config,
}
use rosetta_mq.Config.Read.Fields.{
  IsConnection, >>=-eq-some, as_table_inv, read_connection_table-IsConnection,
  read_config_table-connection,
}

table_inj : {t u : Table} → table t ≡ table u → t ≡ u
table_inj {t} e = ap (of_table t) e
  where
    of_table : Table → Value → Table
    of_table d (table t) = t
    of_table d _ = d

get-replace :
    (t : Table) (key : Text) {v : Value} (new : Value)
    → get t key ≡ some v
    → get (replace t key new) key ≡ some new
unfolding get replace
get-replace no_entries key new e = cc
get-replace (entry k v rest) key {v = w} new e = elim (Bool-cases (text_eq k key)) [
  | inl same ↦ rw (same, same) refl
  | inr other ↦ rw (other, other) (get-replace rest key {v = w} new (ground arith))
]

-- The connection's table after the injection: with `mqtt` where there was no protocol.
data Injected : Table → Table → Type 0 where
  kept : {t : Table} {v : Value} → get t (codes "protocol") ≡ some v → Injected t t
  injected :
      {t : Table}
      → get t (codes "protocol") ≡ none
      → Injected t (entry (codes "protocol") (string (codes "mqtt")) t)

module _ (o : OtherShapes) where
  Injected-IsConnection :
      {inner inner' : Table} (c : ConnectionConfig)
      → Injected inner inner'
      → read_connection_table o inner' ≡ some c
      → IsConnection inner c × (get inner (codes "protocol") ≡ none → c.protocol ≡ Protocol.mqtt)
  Injected-IsConnection c (Injected.kept here) e =
      let (is, protocol) = read_connection_table-IsConnection o _ c e in
      (is, λ missing. cc (here, missing))
  Injected-IsConnection {inner = inner} c (Injected.injected missing) e =
      let (is, protocol) = read_connection_table-IsConnection o _ c e in
      (
        unfold get text_eq in
            record {
              host = is.host;
              port = is.port;
              port_fits = is.port_fits;
              client_id = is.client_id;
              tls = is.tls;
              verified = is.verified;
            },
        λ m. sym (some_inj (unfold read_protocol required get text_eq in protocol)),
      )

module _ (h : Host) (l : Library) where
  -- The document after the injection, by the connection's table and by its protocol.
  inject_by : Table → Table → Option Value → Table
  inject_by t inner none =
      replace t (codes "connection")
        (table (entry (codes "protocol") (string (codes "mqtt")) inner))
  inject_by t inner (some v) = t

  inject_at : Table → Option Table → Table
  inject_at t none = t
  inject_at t (some inner) = inject_by t inner (get inner (codes "protocol"))

  inject_at-some :
      (t inner : Table) (p : Option Value)
      → get inner (codes "protocol") ≡ p
      → inject_at t (some inner) ≡ inject_by t inner p
  unfolding inject_at
  inject_at-some t inner p e = ap (inject_by t inner) e

  inject_protocol-at :
      (t : Table)
      → inject_protocol h (toml_of l) (table t)
        ≡ table (inject_at t (get t (codes "connection") >>= as_table))
  unfolding inject_protocol as_table inject_at inject_by
  inject_protocol-at t = ground arith

  normal-IsConnection :
      (t : Table) (c : Config)
      → IsConnection t c.connection
      → IsConnection t (normalize_config h (toml_of l) c).connection
  unfolding normalize_config
  normal-IsConnection t c is = record {
    host = is.host;
    port = is.port;
    port_fits = is.port_fits;
    client_id = is.client_id;
    tls = is.tls;
    verified = is.verified;
  }

  normal-mqtt :
      (c : Config)
      → c.connection.protocol ≡ Protocol.mqtt
      → (normalize_config h (toml_of l) c).connection.protocol ≡ Protocol.mqtt
  unfolding normalize_config
  normal-mqtt c e = rw e refl

  -- Where the connection of a configuration comes from.
  pub record IsReadFrom (t : Table) (c : ConnectionConfig) : Type 0 where
    pub inner : Table
    pub found : get t (codes "connection") ≡ some (table inner)
    pub fields : IsConnection inner c
    pub by_default : get inner (codes "protocol") ≡ none → c.protocol ≡ Protocol.mqtt

  injected-IsReadFrom :
      (t inner : Table) (c : Config)
      → get t (codes "connection") ≡ some (table inner)
      → (p : Option Value) → get inner (codes "protocol") ≡ p
      → read_config_table l.other (inject_by t inner p) ≡ some c
      → IsReadFrom t c.connection
  unfolding inject_by
  injected-IsReadFrom t inner c found none missing e =
      let new = entry (codes "protocol") (string (codes "mqtt")) inner in
      let (inner', found', read) = read_config_table-connection l.other _ c e in
      let same = table_inj (some_inj (sym (get-replace t (codes "connection") _ found) ∙ found')) in
      let (fields, by_default) =
        Injected-IsConnection l.other c.connection (Injected.injected missing)
          (subst (λ u. read_connection_table l.other u ≡ some c.connection) (sym same) read) in
      record { inner = inner; found = found; fields = fields; by_default = by_default }
  injected-IsReadFrom t inner c found (some v) here e =
      let (inner', found', read) = read_config_table-connection l.other t c e in
      let same = table_inj (some_inj (sym found ∙ found')) in
      let (fields, by_default) =
        Injected-IsConnection l.other c.connection (Injected.kept here)
          (subst (λ u. read_connection_table l.other u ≡ some c.connection) (sym same) read) in
      record { inner = inner; found = found; fields = fields; by_default = by_default }

  at-IsReadFrom :
      (t : Table) (c : Config) (x : Option Table)
      → (get t (codes "connection") >>= as_table) ≡ x
      → read_config_table l.other (inject_at t x) ≡ some c
      → IsReadFrom t c.connection
  unfolding inject_at
  at-IsReadFrom t c none missing e =
      let (inner, found, _) = read_config_table-connection l.other t c e in
      absurd (unfold as_table in cc (missing, ap (λ x. x >>= as_table) found))
  at-IsReadFrom t c (some inner) present e =
      let (v, found, is_table) = >>=-eq-some (get t (codes "connection")) as_table present in
      injected-IsReadFrom t inner c (found ∙ ap (λ x. some x) (as_table_inv v is_table))
        (get inner (codes "protocol")) refl e

  read_config-IsReadFrom :
      (t : Table) (c : Config)
      → read_config l.other (inject_protocol h (toml_of l) (table t)) ≡ some c
      → IsReadFrom t c.connection
  unfolding read_config read_record
  read_config-IsReadFrom t c e =
      at-IsReadFrom t c (get t (codes "connection") >>= as_table) refl
        (subst (λ v. read_config l.other v ≡ some c) (inject_protocol-at t) e)

  normal-IsReadFrom :
      (t : Table) (c : Config)
      → IsReadFrom t c.connection
      → IsReadFrom t (normalize_config h (toml_of l) c).connection
  normal-IsReadFrom t c is = record {
    inner = is.inner;
    found = is.found;
    fields = normal-IsConnection is.inner c is.fields;
    by_default = λ missing. normal-mqtt c (is.by_default missing);
  }

  -- If a document is parsed, it has a table of the connection; the host, the port, the client id and
  -- the TLS flag are those that the table gives, and the port fits 16 bits; certificates are verified
  -- where the table does not say otherwise, and the protocol is `mqtt` where the table has none. So a
  -- document that leaves one of the four out, or has a wider port, is refused.
  pub parse_config-IsReadFrom :
      (raw : Text) (t : Table) (c : Config)
      → l.from_str raw ≡ ok (table t)
      → parse_config h (toml_of l) raw ≡ ok c
      → IsReadFrom t c.connection
  parse_config-IsReadFrom raw t c text e =
      let (v, c0, parsed, read, _, normal) = parse_config_inv h (toml_of l) raw c e in
      subst (λ (c : Config). IsReadFrom t c.connection) normal
        (normal-IsReadFrom t c0 (
          read_config-IsReadFrom t c0 (
            subst (λ v. read_config l.other (inject_protocol h (toml_of l) v) ≡ some c0)
              (ok_inj (sym parsed ∙ text)) (ok_or-eq-ok _ _ read))))
