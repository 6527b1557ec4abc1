-- ===== src/Json/Lists.antt =====
-- A JSON array as a list of values, and a list of objects as a list of dicts.
use clawrium.Prelude.{
  ◌≡◌, refl, ap, String, Bool, false, ◌||◌, Option, none, some, List, [], ◌∷◌, arith, if◌then◌else◌,
}
use clawrium.Json.{Json, Items, Dict, nil, cons, obj, str, is_str}

unfoldable pub values : Items → List Json
values nil = []
values (cons x xs) = x ∷ values xs

unfoldable pub items : List Json → Items
items [] = nil
items (x ∷ xs) = cons x (items xs)

pub values-items : (xs : List Json) → values (items xs) ≡ xs
unfolding values items
values-items [] = refl
values-items (x ∷ xs) = ap (λ ys. x ∷ ys) (values-items xs)

pub items-values : (xs : Items) → items (values xs) ≡ xs
unfolding values items
items-values nil = refl
items-values (cons x xs) = ap (cons x) (items-values xs)

-- The dicts of a list, if `all(isinstance(x, dict) for x in xs)`.
unfoldable pub dicts : Items → Option (List Dict)
dicts nil = some []
dicts (cons (obj d) xs) = elim (dicts xs) [ none ↦ none | some ds ↦ some (d ∷ ds) ]
dicts (cons _ xs) = none

unfoldable pub of_dicts : List Dict → Items
of_dicts [] = nil
of_dicts (d ∷ ds) = cons (obj d) (of_dicts ds)

pub dicts-of_dicts : (ds : List Dict) → dicts (of_dicts ds) ≡ some ds
unfolding dicts of_dicts
dicts-of_dicts [] = refl
dicts-of_dicts (d ∷ ds) = ground (arith, dicts-of_dicts ds)

-- `s in xs`
unfoldable pub has_item : String → Items → Bool
has_item s nil = false
has_item s (cons x xs) = is_str x s || has_item s xs

-- `xs.append(x)`
unfoldable pub append_item : Json → Items → Items
append_item v nil = cons v nil
append_item v (cons x xs) = cons x (append_item v xs)

-- `xs.remove(s)`: the first occurrence goes.
unfoldable pub remove_str : String → Items → Items
remove_str s nil = nil
remove_str s (cons x xs) = if is_str x s then xs else cons x (remove_str s xs)

unfoldable pub strs : List String → Items
strs [] = nil
strs (s ∷ ss) = cons (str s) (strs ss)
