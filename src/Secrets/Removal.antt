-- ===== src/Secrets/Removal.antt =====
-- Removing secrets: by key, by key and expected value, and a whole instance.
use clawrium.Prelude.{
  eq_iff, ◌≡◌, refl, ap, ◌∙◌, sym, String, Bool, true, false, ◌&&◌, Option, none, some, ◌==◌,
  if◌then◌else◌, ok, ok-injective, arith, Bool-cases, Result-cases, inl, inr,
}
use clawrium.Json.{Json, Dict, null, obj, empty, find, has, get, get_or, pop, as_dict}
use clawrium.Json.Laws.{find-pop}
use clawrium.Config.{Config}
use clawrium.Secrets.{
  parse_secrets, load_secrets, save_secrets, instance_dict, validate_secret_key, store_instance,
  remove_instance_secret_if_matches, remove_instance_secrets, has_value,
}
use clawrium.Secrets.View.{
  find_of_not_has, entry_in, entry_at-pop, secret_at, entry_at, both_tests, same_instance,
  parse-secrets_of, entry_at-store_instance, find_instance,
}

abbrev pub is_value : String → Option Json → Bool
is_value value none = false
is_value value (some v) = has_value value v

as_dict-instance_dict : (v : Json) (d : Dict) → as_dict v ≡ ok d → instance_dict v ≡ ok d
unfolding as_dict instance_dict
as_dict-instance_dict (obj x) d e = e
as_dict-instance_dict null d e = cc
as_dict-instance_dict _ d e = cc

has_value-find :
    (value key : String) (d : Dict) → has_value value (get key d) ≡ is_value value (find key d)
unfolding get get_or has_value
has_value-find value key d = ground arith

entry_at-dropped :
    (instance_key key i k : String) (s d : Dict)
    → instance_dict (get_or instance_key (obj empty) s) ≡ ok d
    → entry_at i k (store_instance instance_key (pop key d) s)
      ≡ (if (instance_key == i) && (key == k) then none else entry_at i k s)
entry_at-dropped instance_key key i k s d e =
    entry_at-store_instance instance_key i k s (pop key d)
    ∙ both_tests _ _ _ _ _ _ (find-pop key k d) (same_instance instance_key i k s d e)

-- Compare and delete. The answer is `True` exactly if the secret has the expected value at the
-- time; then that secret is gone and no other is changed. Otherwise no file is changed.
pub remove_instance_secret_if_matches_lem :
    (instance_key key value i k : String) (c : Config) (b : Bool)
    → (remove_instance_secret_if_matches instance_key key value c).0 ≡ ok b
    → (b ≡ is_value value (secret_at instance_key key c))
      × (secret_at i k (remove_instance_secret_if_matches instance_key key value c).1
          ≡ (if b && (instance_key == i) && (key == k) then none else secret_at i k c))
      × (b ≡ false → (remove_instance_secret_if_matches instance_key key value c).1 ≡ c)
unfolding remove_instance_secret_if_matches load_secrets save_secrets
remove_instance_secret_if_matches_lem instance_key key value i k c b e =
    elim (Result-cases (validate_secret_key key)) [
      | inr (x, p) ↦ let e' = rw p at e in cc
      | inl (y, p) ↦ elim (Result-cases (parse_secrets c.secrets)) [
        | inr (x, q) ↦ let e' = rw (p, q) at e in cc
        | inl (s, q) ↦ elim (Result-cases (as_dict (get_or instance_key (obj empty) s))) [
          | inr (x, r) ↦ let e' = rw (p, q, r) at e in cc
          | inl (d, r) ↦
              let there = find_instance instance_key key s d (as_dict-instance_dict _ d r) in
              let now_there : has_value value (get key d)
                  ≡ is_value value (secret_at instance_key key c) =
                has_value-find value key d
                ∙ ap (is_value value) (
                    sym
                      (ap (entry_at instance_key key) (parse-secrets_of c.secrets s q) ∙ there)) in
              elim (Bool-cases (has_value value (get key d))) [
                | inl t ↦
                    let same : true ≡ b = ok-injective _ _ (rw (p, q, r, t) at e) in
                    rw (sym same, p, q, r, t)
                      (
                        sym t ∙ now_there,
                        entry_at-dropped instance_key key i k s d (as_dict-instance_dict _ d r)
                            ∙ ap
                                (λ (o : Option Json).
                                  if (instance_key == i) && (key == k) then none else o)
                                (sym (ap (entry_at i k) (parse-secrets_of c.secrets s q))),
                        λ f. cc,
                      )
                | inr f ↦
                    let same : false ≡ b = ok-injective _ _ (rw (p, q, r, f) at e) in
                    rw (sym same, p, q, r, f) (sym f ∙ now_there, refl, λ _. refl)
              ]
        ]
      ]
    ]

entry_at-absent :
    (instance_key i k : String) (s : Dict)
    → has instance_key s ≡ false
    → entry_at i k s ≡ (if instance_key == i then none else entry_at i k s)
entry_at-absent instance_key i k s h = elim (Bool-cases (instance_key == i)) [
  | inl t ↦
      let same : instance_key ≡ i = (eq_iff instance_key i).0 t in
      let gone : find i s ≡ none =
        ap (λ (j : String). find j s) (sym same) ∙ find_of_not_has instance_key s h in
      rw t (ap (entry_in k) gone)
  | inr f ↦ rw f refl
]

-- Removing an instance removes all its secrets, and changes no other secret and no other file.
pub remove_instance_secrets_lem :
    (instance_key i k : String) (c : Config) (b : Bool)
    → (remove_instance_secrets instance_key c).0 ≡ ok b
    → (secret_at i k (remove_instance_secrets instance_key c).1
        ≡ (if instance_key == i then none else secret_at i k c))
      × ((remove_instance_secrets instance_key c).1
          ≡ record c { secrets = (remove_instance_secrets instance_key c).1.secrets })
unfolding remove_instance_secrets load_secrets save_secrets
remove_instance_secrets_lem instance_key i k c b e = elim (Result-cases (parse_secrets c.secrets)) [
  | inr (x, q) ↦ let e' = rw q at e in cc
  | inl (s, q) ↦
      let before : entry_at i k s ≡ secret_at i k c =
        sym (ap (entry_at i k) (parse-secrets_of c.secrets s q)) in
      let same = ap (λ (o : Option Json). if instance_key == i then none else o) before in
      elim (Bool-cases (has instance_key s)) [
        | inl t ↦ rw (q, t) (entry_at-pop instance_key i k s ∙ same, refl)
        | inr f ↦ rw (q, f) (sym before ∙ entry_at-absent instance_key i k s f ∙ same, refl)
      ]
]
