-- ===== src/Config/Read/RoundTrip.antt =====
-- `Config::parse` of src/config.rs on a configuration that is written as a document.
use rosetta_mq.Prelude.{◌≡◌, refl, subst, List, Result, ok, arith, All}
use rosetta_mq.Text.{Text, text_eq}
use rosetta_mq.Protocol.{Protocol, WebsocketConfig, normalize}
use rosetta_mq.Protocol.Normalize.{IsRooted}
use rosetta_mq.Auth.{Host}
use rosetta_mq.Config.{
  resolve, TopicMapping, Config, ConfigError, inject_protocol, normalize_config, parse_config,
}
use rosetta_mq.Config.Validate.{
  Decoders, Resolves, IsUsable, Bad, Checked, none_bad, pass, stop_at, Verdict, valid, no_decodes,
  bad_topic, validate-Verdict,
}
use rosetta_mq.Config.Parse.{IsReady, HasRootedPath}
use rosetta_mq.Config.Document.{get, as_table}
use rosetta_mq.Config.Read.{Library, toml_of}
use rosetta_mq.Config.Read.Written.{HasPort, write_connection, write_config, read_config-write}

normalize-rooted : (cfg : WebsocketConfig) → IsRooted cfg.path → normalize cfg ≡ cfg
unfolding normalize
normalize-rooted cfg rooted = ground arith

module _ (h : Host) (l : Library) where
  -- The protocol is written, so nothing is injected.
  inject-write : (c : Config) → inject_protocol h (toml_of l) (write_config c) ≡ write_config c
  unfolding inject_protocol write_config write_connection get as_table text_eq
  inject-write c = go c.connection.protocol
    where
      go :
          (p : Protocol)
          → inject_protocol h
              (toml_of l)
              (write_config (record c { connection = record c.connection { protocol = p } }))
            ≡ write_config (record c { connection = record c.connection { protocol = p } })
      go Protocol.mqtt = refl
      go (Protocol.ws cfg) = refl

  usable_not-Bad :
      {ds : Decoders} {m : TopicMapping} {e : ConfigError h (toml_of l)}
      → IsUsable ds m
      → ¬ Bad h (toml_of l) ds m e
  usable_not-Bad u (Bad.bad_filter x) = cc (u.parses, x)
  usable_not-Bad {ds = ds} u (Bad.bad_ref {name = name} x d missing) =
      let (cfg, found) = subst (Resolves ds) d u.resolves in unfold resolve in cc (found, missing)

  Checked-ok :
      {ds : Decoders} {ms : List TopicMapping} {r : Result (Unit {0}) (ConfigError h (toml_of l))}
      → Checked h (toml_of l) ds ms r
      → All (IsUsable ds) ms
      → r ≡ ok tt
  Checked-ok none_bad us = refl
  Checked-ok (pass u k) us = Checked-ok k us.1
  Checked-ok (stop_at b) us = absurd (usable_not-Bad us.0 b)

  Verdict-IsReady :
      {c : Config} {r : Result (Unit {0}) (ConfigError h (toml_of l))}
      → Verdict h (toml_of l) c r
      → IsReady c
      → r ≡ ok tt
  Verdict-IsReady (valid k p) ready = refl
  Verdict-IsReady (no_decodes k p) ready = absurd (omega (arith, p, ready.has_room))
  Verdict-IsReady (bad_topic k) ready = Checked-ok k ready.usable

  normal : (c : Config) → IsReady c → normalize_config h (toml_of l) c ≡ c
  unfolding normalize_config
  normal c ready = go c.connection.protocol ready.rooted
    where
      go :
          (p : Protocol)
          → HasRootedPath p
          → normalize_config h
              (toml_of l)
              (record c { connection = record c.connection { protocol = p } })
            ≡ record c { connection = record c.connection { protocol = p } }
      go Protocol.mqtt rooted = refl
      go (Protocol.ws cfg) rooted = rw (normalize-rooted cfg rooted) refl

  -- Every configuration that the program can run with can be written: one whose filters parse, whose
  -- references resolve, with a positive limit of concurrent decodes, a port of 16 bits and, over
  -- websockets, an empty or rooted path is read back as itself from its document.
  pub parse_config-write :
      (raw : Text) (c : Config)
      → l.from_str raw ≡ ok (write_config c)
      → HasPort c.connection
      → IsReady c
      → parse_config h (toml_of l) raw ≡ ok c
  unfolding parse_config
  parse_config-write raw c text port ready =
      rw
        (
          text,
          inject-write c,
          read_config-write l.other c port,
          Verdict-IsReady (validate-Verdict h (toml_of l) c) ready,
          normal c ready,
        )
        refl
