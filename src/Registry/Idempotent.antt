-- ===== src/Registry/Idempotent.antt =====
-- What the validation returns, it accepts, and returns unchanged.
use clawrium.Prelude.{
  inr, inl, err, Bool-cases, ◌≢◌, eq_refl, >>=-eq-ok, eq_iff, ok-injective, arith, Result, ok, ◌≡◌,
  refl, ◌∙◌, sym, String, true, false, Option, none, some, List, [], ◌∷◌, ◌==◌,
}
use clawrium.Json.{
  get_or, get, has, Json, Items, Dict, null, arr, obj, nil, cons, empty, entry, find,
}
use clawrium.Registry.{
  each_item, table_of, list_of, each_entry, Field, Presence, needed, optional, otherwise, section,
  read_as, with_field, present, object_of,
}

abbrev pub IsIdempotent : (Json → Result Json) → Type 0
IsIdempotent check = (v w : Json) → check v ≡ ok w → check w ≡ ok w

-- The key is none of the fields'.
abbrev IsFresh : String → List Field → Type 0
IsFresh k [] = Unit
IsFresh k (f ∷ fs) = ((k == f.key) ≡ false) × IsFresh k fs

abbrev AreDistinct : List Field → Type 0
AreDistinct [] = Unit
AreDistinct (f ∷ fs) = IsFresh f.key fs × AreDistinct fs

differ_sym : (k j : String) → (k == j) ≡ false → (j == k) ≡ false
differ_sym k j e = ground (arith, eq_iff k j, eq_iff j k)

module _ (k j : String) (v : Json) (d : Dict) (other : (j == k) ≡ false) where
  get_or-entry : (w : Json) → get_or k w (entry j v d) ≡ get_or k w d
  unfolding get_or find
  get_or-entry w = ground arith

  has-entry : has k (entry j v d) ≡ has k d
  unfolding has find
  has-entry = ground arith

  read_as-entry :
      (p : Presence) (check : Json → Result Json)
      → read_as p k check (entry j v d) ≡ read_as p k check d
  unfolding read_as get
  read_as-entry needed check = rw (get_or-entry null) refl
  read_as-entry optional check = rw (has-entry, get_or-entry null) refl
  read_as-entry (otherwise w) check = rw (get_or-entry w) refl

find-with_field :
    (k j : String) (o : Option Json) (d : Dict)
    → (j == k) ≡ false
    → find k d ≡ none
    → find k (with_field j o d) ≡ none
unfolding find with_field
find-with_field k j none d f e = e
find-with_field k j (some v) d f e = rw f e

section-entry :
    (fs : List Field) (k : String) (v : Json) (d : Dict)
    → IsFresh k fs
    → section fs (entry k v d) ≡ section fs d
unfolding section
section-entry [] k v d h = refl
section-entry (f ∷ fs) k v d h =
    rw (read_as-entry f.key k v d h.0 f.presence f.check, section-entry fs k v d h.1) refl

section-fresh :
    (fs : List Field) (k : String) (d v : Dict)
    → IsFresh k fs
    → section fs d ≡ ok v
    → find k v ≡ none
unfolding section find with_field
section-fresh [] k d v h e = rw (sym (ok-injective _ _ e)) refl
section-fresh (f ∷ fs) k d v h e =
    let (o, e1, e2) = >>=-eq-ok (read_as f.presence f.key f.check d) _ e in
    let (rest, e3, e4) = >>=-eq-ok (section fs d) _ e2 in
    let there = section-fresh fs k d rest h.1 e3 in
    rw (sym (ok-injective _ _ e4)) (find-with_field k f.key o rest (differ_sym k f.key h.0) there)

present-eq-some : (r : Result Json) (v : Json) → present r ≡ ok (some v) → r ≡ ok v
unfolding present
present-eq-some (ok w) v e = cc
present-eq-some (err x) v e = cc

present-ne-none : (r : Result Json) → present r ≢ ok none
unfolding present
present-ne-none (ok w) e = cc
present-ne-none (err x) e = cc

module _ (k : String) (v : Json) (d : Dict) where
  get_or-entry_self : (w : Json) → get_or k w (entry k v d) ≡ v
  unfolding get_or find
  get_or-entry_self w = rw (eq_refl k, get_or) refl

  has-entry_self : has k (entry k v d) ≡ true
  unfolding has find
  has-entry_self = rw (eq_refl k, has) refl

has-absent : (k : String) (d : Dict) → find k d ≡ none → has k d ≡ false
unfolding has
has-absent k d e = ground arith

module _ (k : String) (check : Json → Result Json) (d rest : Dict) where
  -- A field is read again from what was written for it.
  read_as_idem_some :
      (p : Presence) (v : Json)
      → IsIdempotent check
      → read_as p k check d ≡ ok (some v)
      → read_as p k check (entry k v rest) ≡ ok (some v)
  unfolding read_as get
  read_as_idem_some needed v idem e =
      rw (get_or-entry_self k v rest null, idem _ v (present-eq-some _ v e)) refl
  read_as_idem_some optional v idem e = elim (Bool-cases (has k d)) [
    | inl t ↦
        rw
          (
            has-entry_self k v rest,
            get_or-entry_self k v rest null,
            idem _ v (present-eq-some _ v (rw t at e)),
          )
          refl
    | inr f ↦ let e' = rw f at e in cc
  ]
  read_as_idem_some (otherwise w) v idem e =
      rw (get_or-entry_self k v rest w, idem _ v (present-eq-some _ v e)) refl

  -- A field that was left out is left out again.
  read_as_idem_none :
      (p : Presence)
      → find k rest ≡ none
      → read_as p k check d ≡ ok none
      → read_as p k check rest ≡ ok none
  unfolding read_as has
  read_as_idem_none needed absent e = absurd (present-ne-none _ e)
  read_as_idem_none optional absent e = rw (has-absent k rest absent) refl
  read_as_idem_none (otherwise w) absent e = absurd (present-ne-none _ e)

-- One check after the other.
infixr 3 ◌also◌
abbrev pub ◌also◌ : {A B : Type 0} → A → B → A × B
a also b = (a, b)

abbrev AreIdempotent : List Field → Type 0
AreIdempotent [] = Unit
AreIdempotent (f ∷ fs) = IsIdempotent f.check × AreIdempotent fs

section-again :
    (fs : List Field) (key : String) (p : Presence) (check : Json → Result Json) (d rest : Dict)
    (o : Option Json)
    → IsFresh key fs
    → IsIdempotent check
    → find key rest ≡ none
    → read_as p key check d ≡ ok o
    → section fs rest ≡ ok rest
    → section (record { key = key; presence = p; check = check } ∷ fs) (with_field key o rest)
      ≡ ok (with_field key o rest)
unfolding section with_field
section-again fs key p check d rest none fresh idem absent e again =
    rw (read_as_idem_none key check d rest p absent e, again) refl
section-again fs key p check d rest (some v) fresh idem absent e again =
    rw (read_as_idem_some key check d rest p v idem e, section-entry fs key v rest fresh, again)
      refl

section_idem :
    (fs : List Field) (d v : Dict)
    → AreDistinct fs
    → AreIdempotent fs
    → section fs d ≡ ok v
    → section fs v ≡ ok v
unfolding section
section_idem [] d v h i e = e ∙ cc
section_idem (f ∷ fs) d v h i e =
    let (o, e1, e2) = >>=-eq-ok (read_as f.presence f.key f.check d) _ e in
    let (rest, e3, e4) = >>=-eq-ok (section fs d) _ e2 in
    rw (sym (ok-injective _ _ e4)) (
      section-again fs f.key f.presence f.check d rest o h.0 i.0
        (section-fresh fs f.key d rest h.0 e3) e1 (section_idem fs d rest h.1 i.1 e3))

pub object_of-IsIdempotent :
    (fs : List Field) → AreDistinct fs → AreIdempotent fs → IsIdempotent (object_of fs)
unfolding object_of
object_of-IsIdempotent fs h i (obj d) w e =
    let (v, e1, e2) = >>=-eq-ok (section fs d) _ e in
    rw (sym (ok-injective _ _ e2), section_idem fs d v h i e1) refl
object_of-IsIdempotent fs h i null w e = cc
object_of-IsIdempotent fs h i _ w e = cc

each_item_idem :
    (check : Json → Result Json) (xs ys : Items)
    → IsIdempotent check
    → each_item check xs ≡ ok ys
    → each_item check ys ≡ ok ys
unfolding each_item
each_item_idem check nil ys i e = rw (sym (ok-injective _ _ e)) refl
each_item_idem check (cons x xs) ys i e =
    let (v, e1, e2) = >>=-eq-ok (check x) _ e in
    let (vs, e3, e4) = >>=-eq-ok (each_item check xs) _ e2 in
    rw (sym (ok-injective _ _ e4), i x v e1, each_item_idem check xs vs i e3) refl

pub list_of-IsIdempotent :
    (check : Json → Result Json) → IsIdempotent check → IsIdempotent (list_of check)
unfolding list_of
list_of-IsIdempotent check i (arr xs) w e =
    let (vs, e1, e2) = >>=-eq-ok (each_item check xs) _ e in
    rw (sym (ok-injective _ _ e2), each_item_idem check xs vs i e1) refl
list_of-IsIdempotent check i null w e = cc
list_of-IsIdempotent check i _ w e = cc

each_entry_idem :
    (check : Json → Result Json) (d v : Dict)
    → IsIdempotent check
    → each_entry check d ≡ ok v
    → each_entry check v ≡ ok v
unfolding each_entry
each_entry_idem check empty v i e = rw (sym (ok-injective _ _ e)) refl
each_entry_idem check (entry name x d) v i e = elim (Bool-cases (name == "")) [
  | inl t ↦ let e' = rw t at e in cc
  | inr f ↦
      let (y, e1, e2) = >>=-eq-ok (check x) _ (rw f at e) in
      let (rest, e3, e4) = >>=-eq-ok (each_entry check d) _ e2 in
      rw (sym (ok-injective _ _ e4), f, i x y e1, each_entry_idem check d rest i e3) refl
]

pub table_of-IsIdempotent :
    (check : Json → Result Json) → IsIdempotent check → IsIdempotent (table_of check)
unfolding table_of
table_of-IsIdempotent check i (obj d) w e =
    let (v, e1, e2) = >>=-eq-ok (each_entry check d) _ e in
    rw (sym (ok-injective _ _ e2), each_entry_idem check d v i e1) refl
table_of-IsIdempotent check i null w e = cc
table_of-IsIdempotent check i _ w e = cc
