-- ===== src/Tests/Units.antt =====
-- The unit tests of the source, each as a test under its own name that ends in a Boolean. A library
-- that the tests run with is a concrete instance here.
mod Topics
mod Registrations
mod Outputs
mod Credentials
mod Rooted
mod Transports
pub mod Documents
mod Configs
mod Sections
mod Tables
mod Connects
use rosetta_mq.Prelude.{Bool, true, false, not, Option, none, some, Result, ok, err}

-- `unwrap`, and what is asserted of the value.
abbrev pub unwrap_and : {A E : Type 0} → Result A E → (A → Bool) → Bool
unwrap_and (ok a) asserted = asserted a
unwrap_and (err e) asserted = false

-- `unwrap_err`, and what is asserted of the error.
abbrev pub unwrap_err_and : {A E : Type 0} → Result A E → (E → Bool) → Bool
unwrap_err_and (ok a) asserted = false
unwrap_err_and (err e) asserted = asserted e

abbrev pub is_some_and : {A : Type 0} → Option A → (A → Bool) → Bool
is_some_and none asserted = false
is_some_and (some a) asserted = asserted a

abbrev pub is_none : {A : Type 0} → Option A → Bool
is_none none = true
is_none (some a) = false
