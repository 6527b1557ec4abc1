-- ===== src/Registry.antt =====
-- core/registry.py: the manifests of the agent types. A section of a manifest is validated key by
-- key, and what is validated is copied. The keys are texts, as JSON has them.
pub mod Sections
pub mod Idempotent
pub mod Manifests
pub mod Load
pub mod Version
pub mod Compatibility
pub mod Latest
pub mod Order
pub mod Fits
pub mod Best
use clawrium.Prelude.{
  String, Bool, Option, none, some, List, [], ◌∷◌, ◌==◌, if◌then◌else◌, Result, ok, err, ◌>>=◌,
  manifest_parse_error,
}
use clawrium.Json.{
  Json, Items, Dict, null, bool, num, str, arr, obj, nil, cons, empty, entry, has, get, get_or,
}

-- `value[key]` that has to be there, `if key in value: …`, and `value.get(key, default)`. All the
-- refusals of a manifest are the same exception.
pub data Presence : Type 0 where
  needed optional : Presence
  otherwise : Json → Presence

pub record Field : Type 0 where
  pub key : String
  pub presence : Presence
  pub check : Json → Result Json

unfoldable pub present : Result Json → Result (Option Json)
present checked = do v ← checked; ok (some v)

unfoldable pub read_as : Presence → String → (Json → Result Json) → Dict → Result (Option Json)
unfolding present
read_as needed key check d = present (check (get key d))
read_as optional key check d = if has key d then present (check (get key d)) else ok none
read_as (otherwise v) key check d = present (check (get_or key v d))

unfoldable pub with_field : String → Option Json → Dict → Dict
with_field key none rest = rest
with_field key (some v) rest = entry key v rest

unfoldable pub section : List Field → Dict → Result Dict
unfolding with_field read_as
section [] d = ok empty
section (f ∷ fs) d = do
  o ← read_as f.presence f.key f.check d
  rest ← section fs d
  ok (with_field f.key o rest)

-- `_as_dict`, and the section of it.
unfoldable pub object_of : List Field → Json → Result Json
object_of fields (obj d) = do validated ← section fields d; ok (obj validated)
object_of fields _ = err manifest_parse_error

-- `isinstance(v, str) and v`
unfoldable pub filled_text : Json → Result Json
filled_text (str s) = if s == "" then err manifest_parse_error else ok (str s)
filled_text _ = err manifest_parse_error

unfoldable pub any_text : Json → Result Json
any_text (str s) = ok (str s)
any_text _ = err manifest_parse_error

unfoldable pub flag : Json → Result Json
flag (bool b) = ok (bool b)
flag _ = err manifest_parse_error

-- `isinstance(v, int) and v >= 0`: `True` is an `int`.
unfoldable pub natural : Json → Result Json
natural (num n) = ok (num n)
natural (bool b) = ok (bool b)
natural _ = err manifest_parse_error

unfoldable pub text_or_flag : Json → Result Json
text_or_flag (str s) = ok (str s)
text_or_flag (bool b) = ok (bool b)
text_or_flag _ = err manifest_parse_error

unfoldable pub any_object : Json → Result Json
any_object (obj d) = ok (obj d)
any_object _ = err manifest_parse_error

unfoldable pub each_item : (Json → Result Json) → Items → Result Items
each_item check nil = ok nil
each_item check (cons x xs) = do v ← check x; vs ← each_item check xs; ok (cons v vs)

unfoldable pub list_of : (Json → Result Json) → Json → Result Json
list_of check (arr xs) = do vs ← each_item check xs; ok (arr vs)
list_of check _ = err manifest_parse_error

-- `for name, value in d.items()`, no name being empty.
unfoldable pub each_entry : (Json → Result Json) → Dict → Result Dict
each_entry check empty = ok empty
each_entry check (entry name value d) =
    if name == ""
    then err manifest_parse_error
    else (do v ← check value; rest ← each_entry check d; ok (entry name v rest))

unfoldable pub table_of : (Json → Result Json) → Json → Result Json
table_of check (obj d) = do entries ← each_entry check d; ok (obj entries)
table_of check _ = err manifest_parse_error
