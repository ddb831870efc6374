-- ===== src/Config/Document.antt =====
-- The values of a TOML document, `toml::Value`, and the pieces of a derived `Deserialize` that
-- src/config.rs and the configurations it is made of have in common: a field that is required, one
-- that is optional, one with a default. `none` is a value that is refused.
use rosetta_mq.Prelude.{ℕ, Bool, Option, none, some, List, [], ◌∷◌, ltb, ◌^◌, if◌then◌else◌}
use rosetta_mq.Text.{Text, text_eq}

pub data ℤ : Type 0 where
  pos negsuc : ℕ → ℤ

-- A float and a date are kept as written. A table has each key once.
mutual
  pub data Value : Type 0 where
    string : Text → Value
    integer : ℤ → Value
    float : Text → Value
    boolean : Bool → Value
    datetime : Text → Value
    array : Values → Value
    table : Table → Value

  pub data Values : Type 0 where
    no_values : Values
    item : Value → Values → Values

  pub data Table : Type 0 where
    no_entries : Table
    entry : Text → Value → Table → Table

module _ {ℓ κ} {A : Type ℓ} {B : Type κ} where
  -- `?`
  infixl 5 ◌>>=◌
  abbrev pub ◌>>=◌ : Option A → (A → Option B) → Option B
  none >>= next = none
  some a >>= next = next a

-- The first of two readings that succeeds.
infixl 4 ◌or_else◌
abbrev pub ◌or_else◌ {ℓ} : {A : Type ℓ} → Option A → Option A → Option A
some a or_else second = some a
none or_else second = second

unfoldable pub get : Table → Text → Option Value
unfolding text_eq
get no_entries key = none
get (entry k v rest) key = let found = get rest key in if text_eq k key then some v else found

-- Sets the value of a key that is there.
unfoldable pub replace : Table → Text → Value → Table
unfolding text_eq
replace no_entries key new = no_entries
replace (entry k v rest) key new =
    let kept = replace rest key new in if text_eq k key then entry k new rest else entry k v kept

unfoldable pub as_table : Value → Option Table
as_table (table t) = some t
as_table _ = none

abbrev pub read_string : Value → Option Text
read_string (string s) = some s
read_string _ = none

abbrev pub read_bool : Value → Option Bool
read_bool (boolean b) = some b
read_bool _ = none

-- A `u16`.
unfoldable pub read_u16 : Value → Option ℕ
read_u16 (integer (pos n)) = if ltb n (2 ^ 16) then some n else none
read_u16 _ = none

-- A `usize` of 64 bits, which holds every `i64` that is not negative.
abbrev pub read_usize : Value → Option ℕ
read_usize (integer (pos n)) = some n
read_usize _ = none

module _ {T : Type 0} (read : Value → Option T) where
  unfoldable pub required : Table → Text → Option T
  unfolding get
  required t key = get t key >>= read

  -- A field of type `Option`.
  unfoldable pub optional : Table → Text → Option (Option T)
  unfolding get
  optional t key = elim (get t key) [ none ↦ some none | some v ↦ read v >>= λ a. some (some a) ]

  -- `#[serde(default)]`
  unfoldable pub or_default : T → Table → Text → Option T
  unfolding get
  or_default default t key = elim (get t key) [ none ↦ some default | some v ↦ read v ]

  unfoldable pub each : Values → Option (List T)
  each no_values = some []
  each (item v vs) = do a ← read v; rest ← each vs; some (a ∷ rest)

  unfoldable pub each_entry : Table → Option (List (Text × T))
  each_entry no_entries = some []
  each_entry (entry key v t) = do a ← read v; rest ← each_entry t; some ((key, a) ∷ rest)

  -- A `Vec`.
  unfoldable pub read_vec : Value → Option (List T)
  unfolding each
  read_vec (array vs) = each vs
  read_vec _ = none

  -- A `HashMap` with the keys of the table.
  unfoldable pub read_map : Value → Option (List (Text × T))
  unfolding each_entry
  read_map (table t) = each_entry t
  read_map _ = none

-- A record: by its fields where the value is a table, by position where it is an array.
unfoldable pub read_record :
    {T : Type 0} → (Table → Option T) → (Values → Option T) → Value → Option T
read_record by_field by_position (table t) = by_field t
read_record by_field by_position (array vs) = by_position vs
read_record by_field by_position _ = none
