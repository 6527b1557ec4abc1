-- ===== src/Secrets/Restore.antt =====
-- Restoring a secret, which must not replace a newer one.
use clawrium.Json.Laws.{find-put}
use clawrium.Json.Subscript.{holds_key}
use clawrium.Prelude.{
  inl, inr, ◌∙◌, Result-cases, some, ◌&&◌, ◌==◌, sym, if◌then◌else◌, ok-injective, none, true,
  false, ok, Bool, ◌≡◌, refl, String,
}
use clawrium.Json.{null, str, find, put, empty, get_or, Json, Dict, obj}
use clawrium.Config.{Config}
use clawrium.Secrets.{
  parse_secrets, validate_secret_key, instance_dict, holds_key, load_secrets, save_secrets,
  restore_instance_secret_if_absent, secret_entry,
}
use clawrium.Secrets.View.{
  find_instance, parse-secrets_of, same_instance, both_tests, entry_at-put, find_of_not_has,
  secret_at, entry_at,
}

holds_key-find :
    (key : String) (v : Json) (d : Dict)
    → holds_key key v ≡ ok false
    → instance_dict v ≡ ok d
    → find key d ≡ none
unfolding holds_key instance_dict
holds_key-find key (obj x) d h e =
    let same : x ≡ d = ok-injective x d e in
    rw (sym same) (find_of_not_has key x (ok-injective _ _ h))
holds_key-find key null d h e = cc
holds_key-find key _ d h e = cc

entry_at-added :
    (instance_key key i k : String) (v : Json) (s d : Dict)
    → instance_dict (get_or instance_key (obj empty) s) ≡ ok d
    → entry_at i k (put instance_key (obj (put key v d)) s)
      ≡ (if (instance_key == i) && (key == k) then some v else entry_at i k s)
entry_at-added instance_key key i k v s d e =
    entry_at-put instance_key i k s (put key v d)
    ∙ both_tests _ _ _ _ _ _ (find-put key k v d) (same_instance instance_key i k s d e)

-- Restoring a secret that was taken away. If the answer is `True`, there was no such secret, it is
-- there now, new, and no other secret is changed. If it is `False`, nothing is changed.
pub restore_instance_secret_if_absent_lem :
    (now instance_key key value description i k : String) (c : Config) (b : Bool)
    → (restore_instance_secret_if_absent now instance_key key value description c).0 ≡ ok b
    → (b ≡ true → secret_at instance_key key c ≡ none)
      × (secret_at i k
            (restore_instance_secret_if_absent now instance_key key value description c).1
          ≡ (if b && (instance_key == i) && (key == k)
              then some (secret_entry key value (str now) now (str description))
              else secret_at i k c))
      × (b ≡ false
          → (restore_instance_secret_if_absent now instance_key key value description c).1 ≡ c)
unfolding restore_instance_secret_if_absent load_secrets save_secrets
restore_instance_secret_if_absent_lem now instance_key key value description i k c b e =
    elim (Result-cases (validate_secret_key key)) [
      | inr (x, p) ↦ let e' = rw p at e in cc
      | inl (y, p) ↦ elim (Result-cases (parse_secrets c.secrets)) [
        | inr (x, q) ↦ let e' = rw (p, q) at e in cc
        | inl (s, q) ↦ elim (Result-cases (holds_key key (get_or instance_key (obj empty) s))) [
          | inr (x, r) ↦ let e' = rw (p, q, r) at e in cc
          | inl (true, r) ↦
              let same : false ≡ b = ok-injective _ _ (rw (p, q, r) at e) in
              rw (sym same, p, q, r) (λ t. cc, refl, λ _. refl)
          | inl (false, r) ↦
              elim (Result-cases (instance_dict (get_or instance_key (obj empty) s))) [
                | inr (x, t) ↦ let e' = rw (p, q, r, t) at e in cc
                | inl (d, t) ↦
                    let same : true ≡ b = ok-injective _ _ (rw (p, q, r, t) at e) in
                    rw (sym same, p, q, r, t, parse-secrets_of c.secrets s q)
                      (
                        λ _. find_instance instance_key key s d t ∙ holds_key-find key _ d r t,
                        entry_at-added instance_key key i k _ s d t,
                        λ f. cc,
                      )
              ]
        ]
      ]
    ]
