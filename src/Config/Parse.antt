-- ===== src/Config/Parse.antt =====
-- `Config::parse` of src/config.rs: what holds of a configuration that was read.
use rosetta_mq.Prelude.{◌<◌, ◌≡◌, subst, Result, ok, map_err, >>=-eq-ok, map_err-eq-ok, ok_inj, All}
use rosetta_mq.Text.{Text}
use rosetta_mq.Util.{FilePath}
use rosetta_mq.Protocol.{Protocol}
use rosetta_mq.Protocol.Normalize.{IsRooted, normalize-IsRooted}
use rosetta_mq.Auth.{Host}
use rosetta_mq.Config.{
  Config, ConfigError, Toml, inject_protocol, validate, normalize_config, parse_config, load,
  normalize_protocol,
}
use rosetta_mq.Config.Validate.{IsUsable, validate-ok}

abbrev pub HasRootedPath : Protocol → Type 0
HasRootedPath Protocol.mqtt = Unit
HasRootedPath (Protocol.ws cfg) = IsRooted cfg.path

-- What the rest of the program may rely on.
pub record IsReady (c : Config) : Type 0 where
  pub usable : All (IsUsable c.decoders) c.topics
  pub has_room : 0 < c.engine.max_concurrent_decodes
  pub rooted : HasRootedPath c.connection.protocol

module _ (h : Host) (t : Toml) where
  normalize_config-rooted :
      (c : Config) → HasRootedPath (normalize_config h t c).connection.protocol
  unfolding normalize_config
  normalize_config-rooted c = go c.connection.protocol
    where
      go : (p : Protocol) → HasRootedPath (normalize_protocol h t p)
      go Protocol.mqtt = tt
      go (Protocol.ws cfg) = (let (rooted, _) = normalize-IsRooted cfg in rooted)

  normalize_config-IsReady :
      (c : Config) → validate h t c ≡ ok tt → IsReady (normalize_config h t c)
  normalize_config-IsReady c e =
      let (usable, has_room) = validate-ok h t c e in
      record {
        usable = unfold normalize_config in usable;
        has_room = unfold normalize_config in has_room;
        rooted = normalize_config-rooted c;
      }

  -- The parts of one successful reading.
  pub parse_config_inv :
      (raw : Text) (c : Config)
      → parse_config h t raw ≡ ok c
      → (v : t.Value) × (c0 : Config) × (t.from_str raw ≡ ok v)
        × (t.try_into (inject_protocol h t v) ≡ ok c0)
        × (validate h t c0 ≡ ok tt)
        × (normalize_config h t c0 ≡ c)
  unfolding parse_config
  parse_config_inv raw c e =
      let (v, p, e1) = >>=-eq-ok (map_err ConfigError.parse (t.from_str raw)) _ e in
      let (c0, q, e2) =
        >>=-eq-ok (map_err ConfigError.parse (t.try_into (inject_protocol h t v))) _ e1 in
      let (u, r, e3) = >>=-eq-ok (validate h t c0) _ e2 in
      (v, c0, map_err-eq-ok _ _ p, map_err-eq-ok _ _ q, r, ok_inj e3)

  -- A configuration that was read has only filters that parse and references that resolve, a
  -- positive limit of concurrent decodes, and, over websockets, an empty or rooted path.
  pub parse_config-IsReady : (raw : Text) (c : Config) → parse_config h t raw ≡ ok c → IsReady c
  parse_config-IsReady raw c e =
      let (v, c0, p, q, r, n) = parse_config_inv raw c e in
      subst IsReady n (normalize_config-IsReady c0 r)

  pub load-IsReady :
      (read_to_string : FilePath → Result Text h.IoError) (path : FilePath) (c : Config)
      → load h t read_to_string path ≡ ok c
      → IsReady c
  unfolding load
  load-IsReady read_to_string path c e =
      let (raw, _, e1) = >>=-eq-ok (map_err (ConfigError.io path) (read_to_string path)) _ e in
      parse_config-IsReady raw c e1
