-- ===== src/Hosts/Migrate/Idempotent.antt =====
-- The migrations of `load_hosts` are idempotent, and touch only their own fields.
use clawrium.Prelude.{
  ◌==◌, ◌≡◌, refl, ap, ◌∙◌, sym, String, true, false, none, some, arith, ◌==◌, ok, ◌⊎◌, >>=-eq-ok,
  ok-injective, Bool-cases, inl, inr,
}
use clawrium.Json.{
  Json, Dict, empty, entry, str, arr, obj, nil, find, has, get, get_or, put, set_default, truthy,
  as_dict,
}
use clawrium.Json.Laws.{find-put, find-pop, get-put, put-put, has-put, pop_of_absent}
use clawrium.Hosts.Migrate.{
  ensure_addresses, prune_keys, prune_config, prune_record, prune_records, prune_agents,
  prune_agent_config_mirror, apply_legacy_defaults, migrate, IsMigrated,
}

-- `ensure_addresses` leaves the record alone, or adds the one field.
pub ensure_addresses-cases :
    (now : String) (h h' : Dict)
    → ensure_addresses now h ≡ ok h'
    → ((has "addresses" h ≡ true) × (h' ≡ h))
      ⊎ ((v : Json) × (has "addresses" h ≡ false) × (h' ≡ put "addresses" v h))
unfolding ensure_addresses
ensure_addresses-cases now h h' e = elim (Bool-cases (has "addresses" h)) [
  | inl there ↦ inl (there, ground arith)
  | inr absent ↦ elim (Bool-cases (truthy (get_or "hostname" (str "") h))) [
    | inl named ↦
        let e' = rw (absent, named) at e in
        let (m, _, e'') = >>=-eq-ok (as_dict (get_or "metadata" (obj empty) h)) _ e' in
        inr (_, absent, sym (ok-injective _ _ e''))
    | inr unnamed ↦ inr (arr nil, absent, ground arith)
  ]
]

addressed-ensure_addresses :
    (now : String) (h h' : Dict) → ensure_addresses now h ≡ ok h' → has "addresses" h' ≡ true
addressed-ensure_addresses now h h' e = elim (ensure_addresses-cases now h h' e) [
  | inl (there, same) ↦ rw same there
  | inr (v, absent, same) ↦ rw same (has-put "addresses" "addresses" v h)
]

ensure_addresses_of_addressed :
    (now : String) (h : Dict) → has "addresses" h ≡ true → ensure_addresses now h ≡ ok h
unfolding ensure_addresses
ensure_addresses_of_addressed now h a = rw a

pub find-prune_agent_config_mirror :
    (k : String) (h : Dict)
    → ("agents" == k) ≡ false
    → find k (prune_agent_config_mirror h) ≡ find k h
unfolding prune_agent_config_mirror
find-prune_agent_config_mirror k h ne =
    elim (get "agents" h) as (λ a. find k (prune_agents a h) ≡ find k h) [
      | obj agents ↦ rw find-put (rw ne)
      | _ ↦ refl
    ]

pub find-apply_legacy_defaults :
    (k : String) (h : Dict)
    → ("os_family" == k) ≡ false
    → find k (apply_legacy_defaults h) ≡ find k h
unfolding apply_legacy_defaults set_default
find-apply_legacy_defaults k h ne = ground (arith, find-put "os_family" k (str "linux") h)

family-apply_legacy_defaults : (h : Dict) → has "os_family" (apply_legacy_defaults h) ≡ true
unfolding apply_legacy_defaults set_default
family-apply_legacy_defaults h = ground (arith, has-put "os_family" "os_family" (str "linux") h)

prune_keys_idem : (c : Dict) → prune_keys (prune_keys c) ≡ prune_keys c
unfolding prune_keys
prune_keys_idem c = rw (
  pop_of_absent "channels" (prune_keys c) (simp find-pop),
  pop_of_absent "providers" (prune_keys c) (simp find-pop),
  pop_of_absent "provider" (prune_keys c) (simp find-pop),
)

prune_config_idem :
    (v : Json) (r : Dict)
    → v ≡ get "config" r
    → prune_config (get "config" (prune_config v r)) (prune_config v r) ≡ prune_config v r
unfolding prune_config
prune_config_idem (obj c) r e = simp get-put (rw (put-put, prune_keys_idem))
prune_config_idem _ r e = rw (← e)

prune_record_idem : (v : Json) → prune_record (prune_record v) ≡ prune_record v
unfolding prune_record
prune_record_idem (obj r) = ap obj (prune_config_idem (get "config" r) r refl)
prune_record_idem _ = refl

prune_records_idem : (d : Dict) → prune_records (prune_records d) ≡ prune_records d
unfolding prune_records
prune_records_idem empty = refl
prune_records_idem (entry k v d) = cc (prune_record_idem v, prune_records_idem d)

prune_agents_idem :
    (v : Json) (h : Dict)
    → v ≡ get "agents" h
    → prune_agents (get "agents" (prune_agents v h)) (prune_agents v h) ≡ prune_agents v h
unfolding prune_agents
prune_agents_idem (obj a) r e = simp get-put (rw (put-put, prune_records_idem))
prune_agents_idem _ r e = rw (← e)

prune_idem :
    (h : Dict)
    → prune_agent_config_mirror (prune_agent_config_mirror h) ≡ prune_agent_config_mirror h
unfolding prune_agents prune_agent_config_mirror
prune_idem h = prune_agents_idem (get "agents" h) h refl

has_of_same : (k : String) (g h : Dict) → find k g ≡ find k h → has k g ≡ has k h
unfolding has
has_of_same k g h e = ap (λ o. elim o [ none ↦ false | some _ ↦ true ]) e

-- A successful migration ends in a migrated record.
pub migrate-IsMigrated : (now : String) (h h' : Dict) → migrate now h ≡ ok h' → IsMigrated h'
unfolding migrate
migrate-IsMigrated now h h' e =
    let (g, e1, e2) = >>=-eq-ok (ensure_addresses now h) _ e in
    let same = sym (ok-injective _ _ e2) in
    rw same (record {
      addressed =
          has_of_same "addresses" _ g (
            find-prune_agent_config_mirror "addresses" (apply_legacy_defaults g) refl
            ∙ find-apply_legacy_defaults "addresses" g refl)
          ∙ addressed-ensure_addresses now h g e1;
      family =
          has_of_same "os_family" _ (apply_legacy_defaults g)
            (find-prune_agent_config_mirror "os_family" (apply_legacy_defaults g) refl)
          ∙ family-apply_legacy_defaults g;
      pruned = prune_idem (apply_legacy_defaults g);
    })

-- Migrating a migrated record changes nothing, whatever the clock shows.
pub migrate_of_IsMigrated : (now : String) (h : Dict) → IsMigrated h → migrate now h ≡ ok h
unfolding migrate ensure_addresses apply_legacy_defaults set_default
migrate_of_IsMigrated now h m = rw (m.addressed, m.family, m.pruned)

-- A field that no migration writes.
abbrev pub IsUntouched : String → Type 0
IsUntouched k =
    (("addresses" == k) ≡ false) × (("os_family" == k) ≡ false) × (("agents" == k) ≡ false)

pub find-ensure_addresses :
    (now k : String) (h h' : Dict)
    → ensure_addresses now h ≡ ok h'
    → ("addresses" == k) ≡ false
    → find k h' ≡ find k h
find-ensure_addresses now k h h' e ne = elim (ensure_addresses-cases now h h' e) [
  | inl (there, same) ↦ rw same
  | inr (v, absent, same) ↦ rw (same, find-put) (rw ne)
]

pub find-migrate :
    (now k : String) (h h' : Dict) → IsUntouched k → migrate now h ≡ ok h' → find k h' ≡ find k h
unfolding migrate
find-migrate now k h h' (ne1, ne2, ne3) e =
    let (g, e1, e2) = >>=-eq-ok (ensure_addresses now h) _ e in
    rw (sym (ok-injective _ _ e2)) (
      find-prune_agent_config_mirror k (apply_legacy_defaults g) ne3
      ∙ find-apply_legacy_defaults k g ne2
      ∙ find-ensure_addresses now k h g e1 ne1)

pub has-migrate :
    (now k : String) (h h' : Dict) → IsUntouched k → migrate now h ≡ ok h' → has k h' ≡ has k h
unfolding has
has-migrate now k h h' u e = ground (arith, find-migrate now k h h' u e)

-- A record whose addresses are there already migrates as the one that it was made from, at any
-- later time.
pub migrate-ensure_addresses :
    (now later : String) (h g h' : Dict)
    → ensure_addresses now h ≡ ok g
    → migrate now h ≡ ok h'
    → migrate later g ≡ ok h'
unfolding migrate
migrate-ensure_addresses now later h g h' e m =
    rw (ensure_addresses_of_addressed later g (addressed-ensure_addresses now h g e)) (rw e at m)

pub has-ensure_addresses :
    (now k : String) (h h' : Dict)
    → ensure_addresses now h ≡ ok h'
    → ("addresses" == k) ≡ false
    → has k h' ≡ has k h
unfolding has
has-ensure_addresses now k h h' e ne = ground (arith, find-ensure_addresses now k h h' e ne)

pub ensure_addresses_of_migrate :
    (now : String) (h h' : Dict)
    → migrate now h ≡ ok h'
    → (g : Dict) × (ensure_addresses now h ≡ ok g)
unfolding migrate
ensure_addresses_of_migrate now h h' m =
    let (g, e, _) = >>=-eq-ok (ensure_addresses now h) _ m in (g, e)

-- Addresses that are there stay.
pub find-migrate_addresses :
    (now : String) (h h' : Dict)
    → migrate now h ≡ ok h'
    → has "addresses" h ≡ true
    → find "addresses" h' ≡ find "addresses" h
unfolding migrate
find-migrate_addresses now h h' e there =
    let same : prune_agent_config_mirror (apply_legacy_defaults h) ≡ h' =
      ok-injective _ _ (rw (ensure_addresses_of_addressed now h there) at e) in
    rw (sym same) (
      find-prune_agent_config_mirror "addresses" (apply_legacy_defaults h) refl
      ∙ find-apply_legacy_defaults "addresses" h refl)
