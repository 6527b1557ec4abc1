-- ===== src/Secrets/Batch.antt =====
-- core/secrets.py: several secrets of an instance replaced or removed at once.
use clawrium.Prelude.{
  Result-cases, false, ◌≡◌, refl, ap, ◌∙◌, sym, String, Option, none, some, List, [], ◌∷◌, ◌==◌,
  if◌then◌else◌, Result, ok, err, type_error, attribute_error, >>=-eq-ok, ok-injective, Bool-cases,
  inl, inr, eq_iff, ◌>>=◌ as ◌>>=ʳ◌,
}
use clawrium.Json.{
  entry, Json, Dict, null, str, arr, obj, empty, find, get, get_or, put, pop, truthy,
}
use clawrium.Json.Laws.{find-put, find-pop}
use clawrium.Config.{Config, Exec, lift, ◌>>=◌, ◌>>◌}
use clawrium.Secrets.{parse_secrets, load_secrets, save_secrets, secret_entry, validate_secret_key}
use clawrium.Secrets.View.{parse-secrets_of, entry_at-pop, secret_at, entry_at, entry_in}

-- What `replacements` asks for a key: a value, or the removal.
abbrev pub Replacements : Type 0
Replacements = List (String × Option String)

unfoldable pub validate_keys : Replacements → Result (Unit {0})
validate_keys [] = ok tt
validate_keys (r ∷ rs) = validate_secret_key r.0 >>=ʳ λ _. validate_keys rs

-- `descriptions.get(key) or …`
unfoldable pub or_description : Option String → Json → Json
or_description none old = old
or_description (some d) old = if d == "" then old else str d

-- The entry over an existing one, which may be no dict.
unfoldable pub replaced : String → String → String → Option String → Json → Json
replaced now key value description (obj e) =
    secret_entry key value (get_or "created_at" (str now) e) now
      (or_description description (get_or "description" (str "") e))
replaced now key value description _ =
    secret_entry key value (str now) now (or_description description (str ""))

unfoldable pub replace_one :
    String → (String → Option String) → String → Option String → Json → Result Json
replace_one now descriptions key none (obj d) = ok (obj (pop key d))
replace_one now descriptions key none (arr xs) = err type_error
replace_one now descriptions key none _ = err attribute_error
replace_one now descriptions key (some value) (obj d) =
    ok (obj (put key (replaced now key value (descriptions key) (get key d)) d))
replace_one now descriptions key (some value) _ = err attribute_error

unfoldable pub replace_each : String → (String → Option String) → Replacements → Json → Result Json
replace_each now descriptions [] instance_secrets = ok instance_secrets
replace_each now descriptions (r ∷ rs) instance_secrets =
    replace_one now descriptions r.0 r.1 instance_secrets >>=ʳ replace_each now descriptions rs

unfoldable pub replace_instance_secrets :
    String → String → Replacements → (String → Option String) → Exec (Unit {0})
replace_instance_secrets now instance_key replacements descriptions = do
  lift (validate_keys replacements)
  secrets ← load_secrets
  instance_secrets ←
      lift (replace_each now descriptions replacements (get_or instance_key (obj empty) secrets))
  save_secrets (
      if truthy instance_secrets
      then put instance_key instance_secrets secrets
      else pop instance_key secrets)

-- A field of the entry that was there, if it was a dict with the field.
abbrev pub old_field : String → String → Option Json → Json
old_field name default none = str default
old_field name default (some (obj e)) = elim (find name e) [ none ↦ str default | some v ↦ v ]
old_field name default (some _) = str default

-- The entry that has to be there: the new value and the time of the change, the time of creation of
-- the old entry, and the old description unless there is another one.
abbrev pub new_entry : String → String → String → Option String → Option Json → Json
new_entry now key value description old = obj (
    entry "key" (str key) (
      entry "value" (str value) (
        entry "created_at" (old_field "created_at" now old) (
          entry "updated_at" (str now) (
            entry "description"
              (elim description [
                | none ↦ old_field "description" "" old
                | some d ↦ if d == "" then old_field "description" "" old else str d
              ])
              empty)))))

-- What one replacement puts in the place of an entry.
abbrev pub new_value :
    String → (String → Option String) → String → Option String → Option Json → Option Json
new_value now descriptions key none old = none
new_value now descriptions key (some value) old =
    some (new_entry now key value (descriptions key) old)

-- What is under one key after the replacements, from what was there before.
abbrev pub replaced_at :
    String → (String → Option String) → Replacements → String → Option Json → Option Json
replaced_at now descriptions [] k old = old
replaced_at now descriptions (r ∷ rs) k old =
    replaced_at now descriptions rs k
      (if r.0 == k then new_value now descriptions r.0 r.1 old else old)

replaced-new_entry :
    (now key value : String) (description : Option String) (v : Json)
    → replaced now key value description v ≡ new_entry now key value description (some v)
unfolding replaced secret_entry or_description get_or
replaced-new_entry now key value none (obj e) = refl
replaced-new_entry now key value (some d) (obj e) = refl
replaced-new_entry now key value none null = refl
replaced-new_entry now key value (some d) null = refl
replaced-new_entry now key value none _ = refl
replaced-new_entry now key value (some d) _ = refl

found_entry :
    (now key value : String) (description : Option String) (o : Option Json)
    → replaced now key value description (elim o [ none ↦ null | some v ↦ v ])
      ≡ new_entry now key value description o
unfolding replaced secret_entry or_description
found_entry now key value none none = refl
found_entry now key value (some d) none = refl
found_entry now key value description (some v) = replaced-new_entry now key value description v

get-find :
    (now key value : String) (descriptions : String → Option String) (d : Dict)
    → some (replaced now key value (descriptions key) (get key d))
      ≡ new_value now descriptions key (some value) (find key d)
unfolding get get_or
get-find now key value descriptions d =
    ap some (found_entry now key value (descriptions key) (find key d))

replace_one-find :
    (now key k : String) (descriptions : String → Option String) (value : Option String)
    (v w : Json)
    → replace_one now descriptions key value v ≡ ok w
    → entry_in k (some w) ≡ (
        if key == k
        then new_value now descriptions key value (entry_in k (some v))
        else entry_in k (some v))
unfolding replace_one
replace_one-find now key k descriptions none (obj d) w e =
    rw (sym (ok-injective _ _ e)) (find-pop key k d)
replace_one-find now key k descriptions none null w e = cc
replace_one-find now key k descriptions none (arr xs) w e = cc
replace_one-find now key k descriptions none _ w e = cc
replace_one-find now key k descriptions (some value) (obj d) w e = elim (Bool-cases (key == k)) [
  | inl t ↦ rw (sym (ok-injective _ _ e)) (
      find-put key k _ d
      ∙ rw t (
          get-find now key value descriptions d
          ∙ ap (λ j. new_value now descriptions key (some value) (find j d)) ((eq_iff key k).0 t)))
  | inr f ↦ rw (sym (ok-injective _ _ e), f) (find-put key k _ d ∙ rw f refl)
]
replace_one-find now key k descriptions (some value) null w e = cc
replace_one-find now key k descriptions (some value) _ w e = cc

replace_each-find :
    (now k : String) (descriptions : String → Option String) (rs : Replacements) (v w : Json)
    → replace_each now descriptions rs v ≡ ok w
    → entry_in k (some w) ≡ replaced_at now descriptions rs k (entry_in k (some v))
unfolding replace_each
replace_each-find now k descriptions [] v w e =
    ap (λ x. entry_in k (some x)) (sym (ok-injective _ _ e))
replace_each-find now k descriptions (r ∷ rs) v w e =
    let (x, e1, e2) = >>=-eq-ok (replace_one now descriptions r.0 r.1 v) _ e in
    replace_each-find now k descriptions rs x w e2
    ∙ ap (replaced_at now descriptions rs k) (replace_one-find now r.0 k descriptions r.1 v x e1)

entry_in-default :
    (k : String) (o : Option Json)
    → entry_in k (some (elim o [ none ↦ obj empty | some v ↦ v ])) ≡ entry_in k o
unfolding find
entry_in-default k none = refl
entry_in-default k (some v) = refl

entry_in-get_or :
    (instance_key k : String) (s : Dict)
    → entry_in k (some (get_or instance_key (obj empty) s)) ≡ entry_at instance_key k s
unfolding get_or
entry_in-get_or instance_key k s = entry_in-default k (find instance_key s)

entry_in-falsy : (k : String) (w : Json) → truthy w ≡ false → none ≡ entry_in k (some w)
unfolding truthy find
entry_in-falsy k (obj empty) e = refl
entry_in-falsy k (obj (entry j v d)) e = cc
entry_in-falsy k null e = refl
entry_in-falsy k _ e = refl

-- The instance as it is stored: without a secret it goes.
entry_at-stored :
    (instance_key i k : String) (w : Json) (s : Dict)
    → entry_at i k (if truthy w then put instance_key w s else pop instance_key s)
      ≡ (if instance_key == i then entry_in k (some w) else entry_at i k s)
entry_at-stored instance_key i k w s = elim (Bool-cases (truthy w)) [
  | inl t ↦ rw t (elim (Bool-cases (instance_key == i)) [
    | inl y ↦ rw (find-put, y) refl
    | inr n ↦ rw (find-put, n) refl
  ])
  | inr f ↦ rw f (
      entry_at-pop instance_key i k s
      ∙ ap (λ (o : Option Json). if instance_key == i then o else entry_at i k s)
          (entry_in-falsy k w f))
]

-- After several replacements at once, each key of the instance has what they put there, one after
-- the other: an entry with the new value, the time of the change, the time of creation that was
-- there, and the new description or else the old one; or nothing. All other secrets of the file are
-- as they were.
pub secret_at-replace_instance_secrets :
    (now instance_key i k : String) (replacements : Replacements)
    (descriptions : String → Option String) (c : Config)
    → (replace_instance_secrets now instance_key replacements descriptions c).0 ≡ ok tt
    → secret_at i k (replace_instance_secrets now instance_key replacements descriptions c).1 ≡ (
        if instance_key == i
        then replaced_at now descriptions replacements k (secret_at instance_key k c)
        else secret_at i k c)
unfolding replace_instance_secrets load_secrets save_secrets
secret_at-replace_instance_secrets now instance_key i k replacements descriptions c e =
    elim (Result-cases (validate_keys replacements)) [
      | inr (x, p) ↦ let e' = rw p at e in cc
      | inl (y, p) ↦ elim (Result-cases (parse_secrets c.secrets)) [
        | inr (x, q) ↦ let e' = rw (p, q) at e in cc
        | inl (s, q) ↦
            elim (Result-cases
              (replace_each now descriptions replacements (get_or instance_key (obj empty) s))) [
                | inr (x, r) ↦ let e' = rw (p, q, r) at e in cc
                | inl (w, r) ↦
                    let f : entry_in k (some w)
                        ≡ replaced_at now descriptions replacements k (entry_at instance_key k s) =
                      replace_each-find now k descriptions replacements
                        (get_or instance_key (obj empty) s) w r
                      ∙ ap (replaced_at now descriptions replacements k)
                          (entry_in-get_or instance_key k s) in
                    rw (p, q, r, parse-secrets_of c.secrets s q)
                      (entry_at-stored instance_key i k w s
                        ∙ ap (λ (o : Option Json). if instance_key == i then o else entry_at i k s)
                            f)
              ]
      ]
    ]
