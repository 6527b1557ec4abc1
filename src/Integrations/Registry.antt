-- ===== src/Integrations/Registry.antt =====
-- integrations.json as a map from names to records, and the credentials that go with them.
use clawrium.Prelude.{
  ◌≡◌, refl, ap, ◌∙◌, sym, String, Bool, true, false, not, none, some, List, [], ◌∷◌, ◌==◌,
  if◌then◌else◌, ◌&&◌, ok, ok-injective, Bool-cases, Result-cases, inl, inr, length, keep, nat_eq,
  integrations_corrupted,
}
use clawrium.Json.{Json, Dict, null, str, get}
use clawrium.Config.{Config}
use clawrium.Records.{named, same, any_record, parse_records}
use clawrium.Records.Names.{parse-written}
use clawrium.Hosts.Store.{load_hosts, parse_hosts}
use clawrium.Secrets.{remove_instance_secrets}
use clawrium.Secrets.View.{secret_at}
use clawrium.Secrets.Removal.{remove_instance_secrets_lem}
use clawrium.Channels.{stamp}
use clawrium.Channels.Registry.{found_after}
use clawrium.Channels.Removal.{after_removal, none_removed}
use clawrium.Integrations.{
  validate_integration_name, check_integration_type, load_integrations, save_integrations,
  add_integration, get_integration, get_integration_instance_key, find_agents_using_integration,
  refuse_assigned, check_unassigned, remove_integration, remove_integration_credentials,
}

text_of_valid : (v : Json) → validate_integration_name v ≡ ok tt → (name : String) × (v ≡ str name)
unfolding validate_integration_name
text_of_valid (str name) e = (name, refl)
text_of_valid null e = cc
text_of_valid _ e = cc

-- An integration that `add_integration` accepts has a text as its name; that name then leads to the
-- record, with the time in it, and every other name to what it led to before.
pub get_integration-add_integration :
    (now other : String) (integration : Dict) (c : Config)
    → (add_integration now integration c).0 ≡ ok tt
    → (name : String) × (get "name" integration ≡ str name)
      × ((get_integration other (add_integration now integration c).1).0 ≡ (
          if name == other then ok (some (stamp now integration)) else (get_integration other c).0))
unfolding add_integration get_integration load_integrations save_integrations
get_integration-add_integration now other integration c e =
    elim (Result-cases (validate_integration_name (get "name" integration))) [
      | inr (x, p) ↦ let e' = rw p at e in cc
      | inl (u, p) ↦ elim (Result-cases (check_integration_type (get "type" integration))) [
        | inr (x, q) ↦ let e' = rw (p, q) at e in cc
        | inl (v, q) ↦ elim (Result-cases (parse_records integrations_corrupted c.integrations)) [
          | inr (x, l) ↦ let e' = rw (p, q, l) at e in cc
          | inl (ds, l) ↦
              let (name, n) = text_of_valid _ p in
              elim (Bool-cases (any_record (same "name" (get "name" integration)) ds)) [
                | inl t ↦ let e' = rw (p, q, l, t) at e in cc
                | inr f ↦ (
                  name,
                  n,
                  rw (p, q, l, f, parse-written) (found_after now name other integration ds n f),
                )
              ]
        ]
      ]
    ]

find_agents_using_integration-config :
    (now name : String) (c : Config) → (find_agents_using_integration now name c).1 ≡ c
unfolding find_agents_using_integration load_hosts
find_agents_using_integration-config now name c = elim (Result-cases (parse_hosts now c.hosts)) [
  | inr (x, p) ↦ rw p refl
  | inl (hs, p) ↦ rw p refl
]

check_unassigned-config :
    (now name : String) (force : Bool) (c : Config) → (check_unassigned now name force c).1 ≡ c
unfolding check_unassigned
check_unassigned-config now name true c = refl
check_unassigned-config now name false c =
    let same = find_agents_using_integration-config now name c in
    elim (Result-cases (find_agents_using_integration now name c).0) [
      | inr (x, p) ↦ rw (p, same) refl
      | inl (xs, p) ↦ rw (p, same) refl
    ]

refuse_assigned-eq-ok :
    (xs : List (Json × String)) (u : Unit {0}) → refuse_assigned xs ≡ ok u → xs ≡ []
unfolding refuse_assigned
refuse_assigned-eq-ok [] u e = refl
refuse_assigned-eq-ok (x ∷ xs) u e = cc

check_unassigned-users :
    (now name : String) (c : Config) (u : Unit {0})
    → (check_unassigned now name false c).0 ≡ ok u
    → (find_agents_using_integration now name c).0 ≡ ok []
unfolding check_unassigned
check_unassigned-users now name c u e =
    elim (Result-cases (find_agents_using_integration now name c).0) [
      | inr (x, p) ↦ let e' = rw p at e in cc
      | inl (xs, p) ↦ p ∙ ap ok (refuse_assigned-eq-ok xs u (rw p at e))
    ]

-- What `remove_integration` returns `True` or `False` for: afterwards the name leads to no
-- integration, and every other name to what it led to before. If one was removed, its credentials
-- are gone and all other secrets are as they were; else no file has changed. hosts.json never
-- changes, and without `force` no agent has used the integration.
pub remove_integration_lem :
    (now name other i k : String) (force : Bool) (c : Config) (b : Bool)
    → (remove_integration now name force c).0 ≡ ok b
    → ((get_integration other (remove_integration now name force c).1).0
        ≡ (if name == other then ok none else (get_integration other c).0))
      × (secret_at i k (remove_integration now name force c).1
          ≡ (if b && (get_integration_instance_key name == i) then none else secret_at i k c))
      × (b ≡ false → (remove_integration now name force c).1 ≡ c)
      × ((remove_integration now name force c).1.hosts ≡ c.hosts)
      × (force ≡ false → (find_agents_using_integration now name c).0 ≡ ok [])
unfolding remove_integration remove_integration_credentials load_integrations save_integrations
    get_integration
remove_integration_lem now name other i k force c b e =
    let same = check_unassigned-config now name force c in
    elim (Result-cases (check_unassigned now name force c).0) [
      | inr (x, p) ↦ let e' = rw p at e in cc
      | inl (u, p) ↦ elim (Result-cases (parse_records integrations_corrupted c.integrations)) [
        | inr (x, q) ↦ let e' = rw (p, same, q) at e in cc
        | inl (ds, q) ↦
            let used : force ≡ false → (find_agents_using_integration now name c).0 ≡ ok [] =
              λ f. check_unassigned-users now name c u (rw f at p) in
            elim (Bool-cases
              (nat_eq (length (keep (λ d. not (named "name" name d)) ds)) (length ds))) [
                | inl t ↦
                    let kept : false ≡ b = ok-injective _ _ (rw (p, same, q, t) at e) in
                    rw (sym kept, p, same, q, t)
                      (rw q (none_removed name other ds t), refl, λ f. refl, refl, used)
                | inr f ↦
                    elim (Result-cases
                      (remove_instance_secrets (get_integration_instance_key name) c).0) [
                        | inr (x, r) ↦ let e' = rw (p, same, q, f, r) at e in cc
                        | inl (removed, r) ↦
                            let (secrets, files) =
                              remove_instance_secrets_lem (get_integration_instance_key name) i k c
                                removed r in
                            let gone : true ≡ b = ok-injective _ _ (rw (p, same, q, f, r) at e) in
                            rw (sym gone, p, same, q, f, r, parse-written)
                              (
                                after_removal name other ds,
                                secrets,
                                (λ g. cc),
                                ap (λ (d : Config). d.hosts) files,
                                used,
                              )
                      ]
              ]
      ]
    ]
