-- ===== src/Protocol/Normalize.antt =====
-- `WebsocketConfig::normalize` of src/protocol.rs.
use rosetta_mq.Prelude.{◌≡◌, ◌≢◌, ◌⊎◌, true, false, [], ◌∷◌, arith}
use rosetta_mq.Text.{Text, codes, starts_with}
use rosetta_mq.Protocol.{WebsocketConfig, normalize}

-- A path that needs no slash in front of it.
abbrev pub IsRooted : Text → Type 0
IsRooted path = (path ≡ []) ⊎ (starts_with path (codes "/") ≡ true)

-- The normal form has an empty path or one that begins with a slash; a path that already does is
-- kept, and any other gets exactly one slash in front.
pub normalize-IsRooted :
    (cfg : WebsocketConfig)
    → IsRooted (normalize cfg).path
      × ((IsRooted cfg.path × (normalize cfg ≡ cfg))
          ⊎ ((cfg.path ≢ [])
              × (starts_with cfg.path (codes "/") ≡ false)
              × ((normalize cfg).path ≡ b'/' ∷ cfg.path)))
unfolding normalize
normalize-IsRooted cfg = ground arith

-- Normalizing a path twice is the same as normalizing it once.
normalize_idem : (cfg : WebsocketConfig) → normalize (normalize cfg) ≡ normalize cfg
unfolding normalize
normalize_idem cfg = ground arith
