-- ===== src/Mqtt.antt =====
-- The packet types of the MQTT client library, as far as the source reads their fields.
use rosetta_mq.Prelude.{ℕ, Bool, List}
use rosetta_mq.Text.{Text}

pub data QoS : Type 0 where
  at_most_once at_least_once exactly_once : QoS

-- An incoming publish packet. `pkid` is a `u16`.
pub record Publish : Type 0 where
  pub dup : Bool
  pub qos : QoS
  pub retain : Bool
  pub topic : Text
  pub pkid : ℕ
  pub payload : List ℕ
