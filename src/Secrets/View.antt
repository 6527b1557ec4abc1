-- ===== src/Secrets/View.antt =====
-- What each operation does to the secrets, seen as a map from instance and key to an entry.
use clawrium.Prelude.{
  arith, ◌≡◌, refl, ap, ◌∙◌, sym, String, Bool, true, false, ◌&&◌, Option, none, some, ◌==◌,
  if◌then◌else◌, ok, >>=-eq-ok, ok-injective, Bool-cases, Result-cases, inl, inr, eq_iff,
}
use clawrium.Json.{
  index, Json, Dict, null, str, obj, empty, entry, find, has, get, get_or, put, pop,
}
use clawrium.Json.Laws.{get_of_has, find-put, find-pop}
use clawrium.Config.{File, missing, corrupted, holds, Config}
use clawrium.Secrets.{
  parse_secrets, load_secrets, save_secrets, created_at, described, secret_entry, put_entry,
  put_secret, instance_dict, set_instance_secret, validate_secret_key, store_instance,
}

-- The entry under a key of an instance.
abbrev pub entry_in : String → Option Json → Option Json
entry_in key (some (obj d)) = find key d
entry_in key _ = none

abbrev pub entry_at : String → String → Dict → Option Json
entry_at instance_key key secrets = entry_in key (find instance_key secrets)

-- What the file holds; nothing, if it cannot be read.
abbrev pub secrets_of : File → Dict
secrets_of (holds (obj d)) = d
secrets_of _ = empty

abbrev pub secret_at : String → String → Config → Option Json
secret_at instance_key key c = entry_at instance_key key (secrets_of c.secrets)

pub parse-secrets_of : (f : File) (s : Dict) → parse_secrets f ≡ ok s → secrets_of f ≡ s
unfolding parse_secrets
parse-secrets_of missing s e = ok-injective _ _ e
parse-secrets_of corrupted s e = cc
parse-secrets_of (holds (obj d)) s e = ok-injective _ _ e
parse-secrets_of (holds null) s e = cc
parse-secrets_of (holds _) s e = cc

pub find_value :
    (key : String) (o : Option Json) (d : Dict)
    → instance_dict (elim o [ none ↦ obj empty | some v ↦ v ]) ≡ ok d
    → entry_in key o ≡ find key d
unfolding instance_dict find
find_value key none d e = ap (find key) (ok-injective empty d e)
find_value key (some (obj x)) d e = ap (find key) (ok-injective x d e)
find_value key (some null) d e = cc
find_value key (some _) d e = cc

pub find_instance :
    (instance_key key : String) (s d : Dict)
    → instance_dict (get_or instance_key (obj empty) s) ≡ ok d
    → entry_at instance_key key s ≡ find key d
unfolding get_or
find_instance instance_key key s d e = find_value key (find instance_key s) d e

-- Writing an instance changes the entries of that instance alone.
pub entry_at-put :
    (instance_key i k : String) (s d : Dict)
    → entry_at i k (put instance_key (obj d) s)
      ≡ (if instance_key == i then find k d else entry_at i k s)
entry_at-put instance_key i k s d = elim (Bool-cases (instance_key == i)) [
  | inl t ↦ rw (find-put, t)
  | inr f ↦ rw (find-put, f)
]

pub entry_at-pop :
    (instance_key i k : String) (s : Dict)
    → entry_at i k (pop instance_key s) ≡ (if instance_key == i then none else entry_at i k s)
entry_at-pop instance_key i k s = elim (Bool-cases (instance_key == i)) [
  | inl t ↦ rw (find-pop, t)
  | inr f ↦ rw (find-pop, f)
]

pub entry_at-store_instance :
    (instance_key i k : String) (s d : Dict)
    → entry_at i k (store_instance instance_key d s)
      ≡ (if instance_key == i then find k d else entry_at i k s)
unfolding store_instance find
entry_at-store_instance instance_key i k s empty = entry_at-pop instance_key i k s
entry_at-store_instance instance_key i k s (entry j v d) =
    entry_at-put instance_key i k s (entry j v d)

-- The entry that is stored over an old one: it keeps the time of its creation, and its description
-- unless a new one is given.
abbrev pub created_of : Json → Json
created_of (obj e) = get "created_at" e
created_of _ = null

abbrev pub stored_entry : String → String → String → String → Option Json → Json
stored_entry now key value description none = secret_entry key value (str now) now (str description)
stored_entry now key value description (some v) =
    secret_entry key value (created_of v) now (described description v)

abbrev pub is_absent : Option Json → Bool
is_absent none = true
is_absent (some v) = false

index-eq-ok : (k : String) (d : Dict) (v : Json) → index k d ≡ ok v → v ≡ get k d
unfolding index get get_or
index-eq-ok k d v e = ground arith

created_at-eq-ok : (v made : Json) → created_at v ≡ ok made → made ≡ created_of v
unfolding created_at
created_at-eq-ok (obj e) made h = index-eq-ok "created_at" e made h
created_at-eq-ok null made h = cc
created_at-eq-ok _ made h = cc

pub find_of_not_has : (k : String) (d : Dict) → has k d ≡ false → find k d ≡ none
unfolding has
find_of_not_has k d h = ground arith

put_entry-find :
    (now key value description k : String) (d : Dict) (b : Bool) (d' : Dict)
    → put_entry now key value description d ≡ ok (b, d')
    → (b ≡ is_absent (find key d))
      × (find k d' ≡ (
          if key == k
          then some (stored_entry now key value description (find key d))
          else find k d))
unfolding put_entry
put_entry-find now key value description k d b d' e = elim (Bool-cases (has key d)) [
  | inl old ↦
      let (made, e1, e2) = >>=-eq-ok (created_at (get key d)) _ (rw old at e) in
      let same : (b ≡ false)
          × (d' ≡ put key (secret_entry key value made now (described description (get key d))) d) =
        (cc, cc) in
      rw (same.0, same.1, get_of_has key d old, created_at-eq-ok (get key d) made e1)
        (refl, find-put key k _ d)
  | inr new ↦
      let e' = rw new at e in
      let same : (b ≡ true)
          × (d' ≡ put key (secret_entry key value (str now) now (str description)) d) =
        (cc, cc) in
      rw (same.0, same.1, find_of_not_has key d new) (refl, find-put key k _ d)
]

pub both_tests :
    (t u : Bool) (x a y z : Option Json)
    → x ≡ (if u then a else y)
    → (t ≡ true → z ≡ y)
    → (if t then x else z) ≡ (if t && u then a else z)
both_tests true true x a y z h k = h
both_tests true false x a y z h k = h ∙ sym (k refl)
both_tests false u x a y z h k = refl

pub same_instance :
    (instance_key i k : String) (s d : Dict)
    → instance_dict (get_or instance_key (obj empty) s) ≡ ok d
    → (instance_key == i) ≡ true
    → entry_at i k s ≡ find k d
same_instance instance_key i k s d e t =
    ap (λ j. entry_at j k s) (sym ((eq_iff instance_key i).0 t))
    ∙ find_instance instance_key k s d e

put_secret-entry_at :
    (now instance_key key value description i k : String) (s : Dict) (b : Bool) (s' : Dict)
    → put_secret now instance_key key value description s ≡ ok (b, s')
    → (b ≡ is_absent (entry_at instance_key key s))
      × (entry_at i k s' ≡ (
          if (instance_key == i) && (key == k)
          then some (stored_entry now key value description (entry_at instance_key key s))
          else entry_at i k s))
unfolding put_secret
put_secret-entry_at now instance_key key value description i k s b s' e =
    let (d, e1, e2) = >>=-eq-ok (instance_dict (get_or instance_key (obj empty) s)) _ e in
    let (r, e3, e4) = >>=-eq-ok (put_entry now key value description d) _ e2 in
    let (new, f) = put_entry-find now key value description k d r.0 r.1 e3 in
    let q = ok-injective _ _ e4 in
    let before = find_instance instance_key key s d e1 in
    (
      sym (ap (λ (x : Bool × Dict). x.0) q) ∙ new ∙ ap is_absent (sym before),
      rw (sym (ap (λ (x : Bool × Dict). x.1) q), before)
          (entry_at-put instance_key i k s r.1
            ∙ both_tests _ _ _ _ _ _ f (same_instance instance_key i k s d e1)),
    )

-- Setting a secret. The answer is whether it was absent. Then it is there under its instance and
-- key, with its value and the time of the update, and, if it was there before, with the time of its
-- creation and the description that is not replaced; no other secret of the file is changed.
pub secret_at-set_instance_secret :
    (now instance_key key value description i k : String) (c : Config) (b : Bool)
    → (set_instance_secret now instance_key key value description c).0 ≡ ok b
    → (b ≡ is_absent (secret_at instance_key key c))
      × (secret_at i k (set_instance_secret now instance_key key value description c).1 ≡ (
          if (instance_key == i) && (key == k)
          then some (stored_entry now key value description (secret_at instance_key key c))
          else secret_at i k c))
unfolding set_instance_secret load_secrets save_secrets
secret_at-set_instance_secret now instance_key key value description i k c b e =
    elim (Result-cases (validate_secret_key key)) [
      | inr (x, p) ↦ let e' = rw p at e in cc
      | inl (y, p) ↦ elim (Result-cases (parse_secrets c.secrets)) [
        | inr (x, q) ↦ let e' = rw (p, q) at e in cc
        | inl (s, q) ↦ elim (Result-cases (put_secret now instance_key key value description s)) [
          | inr (x, r) ↦ let e' = rw (p, q, r) at e in cc
          | inl (s', r) ↦
              let same : s'.0 ≡ b = ok-injective _ _ (rw (p, q, r) at e) in
              rw (sym same, p, q, r, parse-secrets_of c.secrets s q)
                (put_secret-entry_at now instance_key key value description i k s s'.0 s'.1 r)
        ]
      ]
    ]
