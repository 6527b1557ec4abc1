-- ===== src/Json.antt =====
-- The values that the files of the configuration directory hold, as `json.load` returns them.
-- A Python dict is a list of entries in insertion order. Numbers are naturals: the modelled code
-- stores and compares numbers and computes with none.
pub mod Laws
pub mod Lists
pub mod Equality
pub mod Subscript
use clawrium.Prelude.{
  ℕ, zero, suc, String, Bool, true, false, ◌&&◌, not, Option, none, some, List, [], ◌∷◌, ◌==◌,
  nat_eq, if◌then◌else◌, Result, ok, err, attribute_error, key_error,
}

mutual
  pub data Json : Type 0 where
    null : Json
    bool : Bool → Json
    num : ℕ → Json
    str : String → Json
    arr : Items → Json
    obj : Dict → Json

  pub data Items : Type 0 where
    nil : Items
    cons : Json → Items → Items

  pub data Dict : Type 0 where
    empty : Dict
    entry : String → Json → Dict → Dict

-- The value under a key, if the key is there.
unfoldable pub find : String → Dict → Option Json
find k empty = none
find k (entry j v d) = if j == k then some v else find k d

-- `k in d`
unfoldable pub has : String → Dict → Bool
unfolding find
has k d = elim (find k d) [ none ↦ false | some _ ↦ true ]

-- `d.get(k, default)`
unfoldable pub get_or : String → Json → Dict → Json
unfolding find
get_or k default d = elim (find k d) [ none ↦ default | some v ↦ v ]

-- `d.get(k)`
unfoldable pub get : String → Dict → Json
unfolding get_or
get k d = get_or k null d

-- `d[k]`
unfoldable pub index : String → Dict → Result Json
unfolding find
index k d = elim (find k d) [ none ↦ err key_error | some v ↦ ok v ]

-- `d[k] = v`: an old key keeps its place.
unfoldable pub put : String → Json → Dict → Dict
put k v empty = entry k v empty
put k v (entry j w d) = if j == k then entry j v d else entry j w (put k v d)

-- `d.pop(k, None)`, `del d[k]`
unfoldable pub pop : String → Dict → Dict
pop k empty = empty
pop k (entry j v d) = let rest = pop k d in if j == k then rest else entry j v rest

-- `d.setdefault(k, v)`
unfoldable pub set_default : String → Json → Dict → Dict
unfolding has put
set_default k v d = if has k d then d else put k v d

-- `list(d)`
unfoldable pub keys : Dict → List String
keys empty = []
keys (entry k v d) = k ∷ keys d

unfoldable pub is_str : Json → String → Bool
is_str (str s) t = s == t
is_str _ t = false

-- `bool(v)`
unfoldable pub truthy : Json → Bool
truthy null = false
truthy (bool b) = b
truthy (num n) = not (nat_eq n 0)
truthy (str s) = not (s == "")
truthy (arr nil) = false
truthy (arr (cons x xs)) = true
truthy (obj empty) = false
truthy (obj (entry k v d)) = true

-- What `v.get(...)` needs: an `AttributeError` unless the value is a dict.
unfoldable pub as_dict : Json → Result Dict
as_dict (obj d) = ok d
as_dict _ = err attribute_error
