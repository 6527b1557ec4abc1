-- ===== src/Json/Laws.antt =====
-- How reading and writing a dict interact.
use clawrium.Prelude.{
  ◌∙◌, ap, eq_refl, true, String, ◌≡◌, refl, none, some, true, arith, eq_iff, ◌==◌, if◌then◌else◌,
}
use clawrium.Json.{get_or, is_str, str, null, Json, Dict, empty, entry, find, has, get, put, pop}

pub find-put :
    (k j : String) (v : Json) (d : Dict)
    → find j (put k v d) ≡ (if k == j then some v else find j d)
unfolding find put
find-put k j v empty = refl
find-put k j v (entry i w d) = ground (arith, eq_iff k j, eq_iff i k, eq_iff i j, find-put k j v d)

pub find-put_self : (k : String) (v : Json) (d : Dict) → find k (put k v d) ≡ some v
find-put_self k v d = find-put k k v d ∙ rw (eq_refl k) refl

pub find-pop : (k j : String) (d : Dict) → find j (pop k d) ≡ (if k == j then none else find j d)
unfolding find pop
find-pop k j empty = ground arith
find-pop k j (entry i w d) = ground (arith, eq_iff k j, eq_iff i k, eq_iff i j, find-pop k j d)

pub get-put :
    (k j : String) (v : Json) (d : Dict) → get j (put k v d) ≡ (if k == j then v else get j d)
unfolding get
get-put k j v d = ground (arith, find-put k j v d)

pub put-put : (k : String) (v w : Json) (d : Dict) → put k w (put k v d) ≡ put k w d
unfolding put
put-put k v w empty = ground (arith, eq_iff k k)
put-put k v w (entry i u d) = ground (arith, eq_iff i k, put-put k v w d)

-- Removing an absent key changes nothing.
pub pop_of_absent : (k : String) (d : Dict) → find k d ≡ none → pop k d ≡ d
unfolding find pop
pop_of_absent k empty h = refl
pop_of_absent k (entry i v d) h = ground (arith, pop_of_absent k d)

-- Writing back what is there changes nothing.
pub put_of_find : (k : String) (v : Json) (d : Dict) → find k d ≡ some v → put k v d ≡ d
unfolding find put
put_of_find k v empty h = cc
put_of_find k v (entry i w d) h = ground (arith, put_of_find k v d)

pub ruleset dict_laws = (find-put, find-pop, get-put)

pub has-put :
    (k j : String) (v : Json) (d : Dict) → has j (put k v d) ≡ (if k == j then true else has j d)
unfolding has
has-put k j v d = ground (arith, find-put k j v d)

pub has_of_find : (k : String) (v : Json) (d : Dict) → find k d ≡ some v → has k d ≡ true
unfolding has
has_of_find k v d h = ground arith

pub get_of_has : (k : String) (d : Dict) → has k d ≡ true → find k d ≡ some (get k d)
unfolding has get
get_of_has k d h = ground arith

pub is_str_sound : (v : Json) (s : String) → is_str v s ≡ true → v ≡ str s
unfolding is_str
is_str_sound (str t) s h = ap str ((eq_iff t s).0 h)
is_str_sound null s h = cc
is_str_sound _ s h = cc

pub is_str_self : (s : String) → is_str (str s) s ≡ true
unfolding is_str
is_str_self s = eq_refl s

pub get_of_find : (k : String) (v : Json) (d : Dict) → find k d ≡ some v → get k d ≡ v
unfolding get
get_of_find k v d h = ground arith

pub get_or_of_find :
    (k : String) (default v : Json) (d : Dict) → find k d ≡ some v → get_or k default d ≡ v
unfolding get_or
get_or_of_find k default v d h = ground arith

-- A dict whose keys are all different, as every dict of Python is.
abbrev pub DistinctKeys : Dict → Type 0
DistinctKeys empty = Unit
DistinctKeys (entry k v d) = (find k d ≡ none) × DistinctKeys d
