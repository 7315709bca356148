-- ===== src/Json.antt =====
-- The `serde_json::Value` of the program's records, and the accessors that the program uses on it.
-- Numbers other than a `u64` are `other_number`: `as_u64` has nothing to say of them.
use hayate.Prelude.{ℕ, Bool, Option, none, some, if◌then◌else◌, and_then}
use hayate.Prelude.Text.{Text, text_eq}

mutual
  pub data Json : Type 0 where
    null : Json
    bool : Bool → Json
    number : ℕ → Json
    other_number : ℕ → Json
    string : Text → Json
    array : Items → Json
    object : Fields → Json

  pub data Items : Type 0 where
    nil : Items
    cons : Json → Items → Items

  pub data Fields : Type 0 where
    end : Fields
    field : Text → Json → Fields → Fields

abbrev pub get_field : Text → Fields → Option Json
get_field k end = none
get_field k (field j v fs) = if text_eq j k then some v else get_field k fs

-- `Value::get` with a string key: only an object has fields.
abbrev pub get_key : Text → Json → Option Json
get_key k (object fs) = get_field k fs
get_key k _ = none

-- `Value::as_str`
abbrev pub as_str : Json → Option Text
as_str (string s) = some s
as_str _ = none

-- `Value::as_u64`
abbrev pub as_u64 : Json → Option ℕ
as_u64 (number n) = some n
as_u64 _ = none

-- `v.get(k).and_then(|a| a.as_str())`
abbrev pub str_field : Text → Json → Option Text
str_field k v = and_then (get_key k v) as_str

-- `v.get(k).and_then(|a| a.as_u64())`
abbrev pub u64_field : Text → Json → Option ℕ
u64_field k v = and_then (get_key k v) as_u64

-- `m.insert(k, v)` on a `serde_json::Map`: one entry for each key.
abbrev pub insert_field : Text → Json → Fields → Fields
insert_field k v end = field k v end
insert_field k v (field j w fs) =
    if text_eq j k then field k v fs else field j w (insert_field k v fs)

-- `v[k] = w` on an object.
abbrev pub set_key : Text → Json → Json → Json
set_key k w (object fs) = object (insert_field k w fs)
set_key k w v = v

-- `Option` as JSON: `null` for `none`.
abbrev pub option_string : Option Text → Json
option_string none = null
option_string (some s) = string s
