-- ===== src/Records/Names.antt =====
-- Lists of records under distinct names, as channels.json and integrations.json hold them.
use clawrium.Json.Equality.{py_eq-str}
use clawrium.Json.Laws.{is_str_sound}
use mathlib.Core.Path.{subst, ◌∙◌}
use clawrium.Prelude.{
  sym, ◌≤◌, arith, nat_eq_iff, nat_eq, length, eq_iff, if◌then◌else◌, ap, ◌==◌, not, keep, ◌≡◌,
  refl, String, Bool, true, false, none, some, List, [], ◌∷◌, ◌++◌, ok, Error, Bool-cases, inl, inr,
  All,
}
use clawrium.Json.{str, get, is_str, Dict}
use clawrium.Json.Lists.{dicts-of_dicts}
use clawrium.Records.{same, named, find_first, any_record, parse_records, written}

pub parse-written : (wrong : Error) (ds : List Dict) → parse_records wrong (written ds) ≡ ok ds
unfolding parse_records
parse-written wrong ds = rw dicts-of_dicts

-- No record has the name.
abbrev pub IsUnnamed : String → List Dict → Type 0
IsUnnamed name ds = All (λ d. named "name" name d ≡ false) ds

pub any_record-false :
    (p : Dict → Bool) (ds : List Dict) → any_record p ds ≡ false → All (λ d. p d ≡ false) ds
unfolding any_record
any_record-false p [] e = tt
any_record-false p (d ∷ ds) e = elim (Bool-cases (p d)) [
  | inl t ↦ let e' = rw t at e in cc
  | inr f ↦ (f, any_record-false p ds (rw f at e))
]

pub find_first-append_absent :
    (p : Dict → Bool) (ds : List Dict) (d : Dict)
    → All (λ e. p e ≡ false) ds
    → p d ≡ true
    → find_first p (ds ++ (d ∷ [])) ≡ some d
unfolding find_first
find_first-append_absent p [] d a t = rw t
find_first-append_absent p (e ∷ ds) d a t = rw a.0 (find_first-append_absent p ds d a.1 t)

pub find_first-absent :
    (p : Dict → Bool) (ds : List Dict) → All (λ e. p e ≡ false) ds → find_first p ds ≡ none
unfolding find_first
find_first-absent p [] a = refl
find_first-absent p (e ∷ ds) a = rw a.0 (find_first-absent p ds a.1)

pub find_first-append_other :
    (p : Dict → Bool) (ds : List Dict) (d : Dict)
    → p d ≡ false
    → find_first p (ds ++ (d ∷ [])) ≡ find_first p ds
unfolding find_first
find_first-append_other p [] d f = rw f
find_first-append_other p (e ∷ ds) d f = elim (Bool-cases (p e)) [
  | inl t ↦ rw t
  | inr g ↦ rw g (find_first-append_other p ds d f)
]

named_by :
    (name other : String) (d : Dict)
    → get "name" d ≡ str name
    → named "name" other d ≡ (name == other)
unfolding named is_str
named_by name other d n = ap (λ v. is_str v other) n

-- What a registry is asked after a record has been added at its end.
pub find_named-append :
    (name other : String) (ds : List Dict) (d : Dict)
    → get "name" d ≡ str name
    → IsUnnamed name ds
    → find_first (named "name" other) (ds ++ (d ∷ []))
      ≡ (if name == other then some d else find_first (named "name" other) ds)
unfolding named
find_named-append name other ds d n a = elim (Bool-cases (name == other)) [
  | inl t ↦
      let same : name ≡ other = (eq_iff name other).0 t in
      rw t (
        find_first-append_absent (named "name" other) ds d (subst (λ s. IsUnnamed s ds) same a)
          (named_by name other d n ∙ t))
  | inr f ↦ rw f (find_first-append_other (named "name" other) ds d (named_by name other d n ∙ f))
]

find_first-keep-not :
    (p : Dict → Bool) (ds : List Dict) → find_first p (keep (λ d. not (p d)) ds) ≡ none
unfolding find_first
find_first-keep-not p [] = refl
find_first-keep-not p (d ∷ ds) = elim (Bool-cases (p d)) [
  | inl t ↦ rw t (find_first-keep-not p ds)
  | inr f ↦ rw (f, f) (find_first-keep-not p ds)
]

find_first-keep_other :
    (q p : Dict → Bool)
    → ((d : Dict) → p d ≡ true → q d ≡ false)
    → (ds : List Dict) → find_first q (keep (λ d. not (p d)) ds) ≡ find_first q ds
unfolding find_first
find_first-keep_other q p apart [] = refl
find_first-keep_other q p apart (d ∷ ds) = elim (Bool-cases (p d)) [
  | inl t ↦ rw (t, apart d t) (find_first-keep_other q p apart ds)
  | inr f ↦ rw (f, find_first-keep_other q p apart ds)
]

named-apart :
    (name other : String)
    → (name == other) ≡ false
    → (d : Dict) → named "name" name d ≡ true
    → named "name" other d ≡ false
unfolding named
named-apart name other f d t = named_by name other d (is_str_sound (get "name" d) name t) ∙ f

-- What a registry is asked after the records of a name have been dropped.
pub find_named-keep :
    (name other : String) (ds : List Dict)
    → find_first (named "name" other) (keep (λ d. not (named "name" name d)) ds)
      ≡ (if name == other then none else find_first (named "name" other) ds)
find_named-keep name other ds = elim (Bool-cases (name == other)) [
  | inl t ↦
      let same : name ≡ other = (eq_iff name other).0 t in
      rw t (
        subst (λ s. find_first (named "name" s) (keep (λ d. not (named "name" name d)) ds) ≡ none)
          same (find_first-keep-not (named "name" name) ds))
  | inr f ↦
      rw f (
        find_first-keep_other (named "name" other) (named "name" name) (named-apart name other f)
          ds)
]

pub ok-if : {A : Type 0} (b : Bool) (x y : A) → ok (if b then x else y) ≡ (if b then ok x else ok y)
ok-if true x y = refl
ok-if false x y = refl

module _ (p : Dict → Bool) where
  keep-le : (ds : List Dict) → length (keep p ds) ≤ length ds
  keep-le [] = omega arith
  keep-le (d ∷ ds) = ground (arith, keep-le ds)

  -- A filter that drops nothing has passed everything.
  pub All-of_length-keep :
      (ds : List Dict) → length (keep p ds) ≡ length ds → All (λ d. p d ≡ true) ds
  All-of_length-keep [] e = tt
  All-of_length-keep (d ∷ ds) e = ground (arith, keep-le ds, All-of_length-keep ds)

keep-All : (p : Dict → Bool) (ds : List Dict) → All (λ d. p d ≡ true) ds → keep p ds ≡ ds
keep-All p [] h = refl
keep-All p (d ∷ ds) h = rw h.0 (ap (λ es. d ∷ es) (keep-All p ds h.1))

-- A filter that drops nothing has changed nothing.
pub keep_of_length :
    (p : Dict → Bool) (ds : List Dict)
    → nat_eq (length (keep p ds)) (length ds) ≡ true
    → keep p ds ≡ ds
keep_of_length p ds e = keep-All p ds (All-of_length-keep p ds ((nat_eq_iff _ _).0 e))

same-named : (name : String) (d : Dict) → same "name" (str name) d ≡ named "name" name d
unfolding same named
same-named name d = py_eq-str (get "name" d) name

pub IsUnnamed-of_same :
    (name : String) (ds : List Dict)
    → All (λ d. same "name" (str name) d ≡ false) ds
    → IsUnnamed name ds
IsUnnamed-of_same name [] h = tt
IsUnnamed-of_same name (d ∷ ds) h = (sym (same-named name d) ∙ h.0, IsUnnamed-of_same name ds h.1)
