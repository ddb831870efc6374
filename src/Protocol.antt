-- ===== src/Protocol.antt =====
-- src/protocol.rs: the protocol that carries the connection.
pub mod Normalize
use rosetta_mq.Prelude.{Bool, not, ◌&&◌, ◌∷◌, is_empty, if◌then◌else◌}
use rosetta_mq.Text.{Text, codes, starts_with}

pub record WebsocketConfig : Type 0 where
  pub path : Text

pub data Protocol : Type 0 where
  mqtt : Protocol
  ws : WebsocketConfig → Protocol

-- `#[default]`
abbrev pub default_protocol : Protocol
default_protocol = mqtt

abbrev pub default_path : Text
default_path = codes "/ws"

-- `WebsocketConfig::normalize`
unfoldable pub normalize : WebsocketConfig → WebsocketConfig
unfolding starts_with
normalize cfg =
    if not (is_empty cfg.path) && not (starts_with cfg.path (codes "/"))
    then record { path = b'/' ∷ cfg.path }
    else cfg
