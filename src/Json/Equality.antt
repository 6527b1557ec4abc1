-- ===== src/Json/Equality.antt =====
-- Python's `==` on the values of a JSON file: `True == 1`, and the order of a dict's keys is
-- ignored.
use clawrium.Prelude.{
  ℕ, suc, ◌≡◌, refl, String, Bool, true, false, ◌&&◌, none, some, ◌==◌, nat_eq, if◌then◌else◌,
}
use clawrium.Json.{
  Json, Items, Dict, null, bool, num, str, arr, obj, nil, cons, empty, entry, find, is_str,
}

abbrev pub of_bool : Bool → ℕ
of_bool b = if b then 1 else 0

unfoldable pub size : Dict → ℕ
size empty = 0
size (entry k v d) = suc (size d)

unfoldable mutual
  pub py_eq : Json → Json → Bool
  py_eq null null = true
  py_eq (bool a) (bool b) = nat_eq (of_bool a) (of_bool b)
  py_eq (bool a) (num n) = nat_eq (of_bool a) n
  py_eq (num n) (bool b) = nat_eq n (of_bool b)
  py_eq (num n) (num m) = nat_eq n m
  py_eq (str s) (str t) = s == t
  py_eq (arr xs) (arr ys) = py_eq_items xs ys
  py_eq (obj d) (obj e) = nat_eq (size d) (size e) && py_eq_within d e
  py_eq _ _ = false

  pub py_eq_items : Items → Items → Bool
  py_eq_items nil nil = true
  py_eq_items (cons x xs) (cons y ys) = py_eq x y && py_eq_items xs ys
  py_eq_items _ _ = false

  -- Every entry of the first dict is one of the second.
  pub py_eq_within : Dict → Dict → Bool
  py_eq_within empty e = true
  py_eq_within (entry k v d) e = elim (find k e) [
    | none ↦ false
    | some w ↦ py_eq v w && py_eq_within d e
  ]

pub py_eq-str : (v : Json) (s : String) → py_eq v (str s) ≡ is_str v s
unfolding py_eq is_str
py_eq-str (str t) s = refl
py_eq-str _ s = refl
