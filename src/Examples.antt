-- ===== src/Examples.antt =====
-- The developer's tools in examples/.
pub mod TestCerts
pub mod Reading
use rosetta_mq.Prelude.{Result, map_err}

-- Every failure of the tools is a panic.
pub data Panic : Type 0 where
  panicked : Panic

-- `unwrap` and `expect`.
abbrev pub unwrap : {A E : Type 0} → Result A E → Result A Panic
unwrap = map_err (λ _. panicked)
