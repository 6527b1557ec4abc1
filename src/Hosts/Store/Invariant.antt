-- ===== src/Hosts/Store/Invariant.antt =====
-- Properties of every host record, and what keeps them.
use clawrium.Prelude.{
  ◌≡◌, sym, String, Bool, List, [], ◌∷◌, Result, ok, >>=-eq-ok, ok-injective, All, Bool-cases, inl,
  inr,
}
use clawrium.Json.{Json, Dict}
use clawrium.Json.Lists.{dicts-of_dicts}
use clawrium.Config.{Config}
use clawrium.Config.Keeps.{Keeps}
use clawrium.Records.Updates.{UpdatesFirst-All}
use clawrium.Hosts.Migrate.{migrate}
use clawrium.Hosts.Store.{any_claws, migrate_all, check_schema, parse_hosts, saved, update_host}
use clawrium.Hosts.Store.Reload.{UpdateOutcome, update_host-outcome}

-- Whenever hosts.json is read, its records have the property.
abbrev pub AllHosts : (Dict → Type 0) → Config → Type 0
AllHosts P c = (now : String) (hs : List Dict) → parse_hosts now c.hosts ≡ ok hs → All P hs

module _ (P : Dict → Type 0)
    (migrated : (now : String) (h h' : Dict) → migrate now h ≡ ok h' → P h → P h') where
  migrate_all-All :
      (now : String) (ds hs : List Dict) → migrate_all now ds ≡ ok hs → All P ds → All P hs
  unfolding migrate_all
  migrate_all-All now [] hs e h = rw (sym (ok-injective _ _ e)) tt
  migrate_all-All now (d ∷ ds) hs e h =
      let (d', e1, e2) = >>=-eq-ok (migrate now d) _ e in
      let (ds', e3, e4) = >>=-eq-ok (migrate_all now ds) _ e2 in
      rw (sym (ok-injective _ _ e4)) (migrated now d d' e1 h.0, migrate_all-All now ds ds' e3 h.1)

  pub saved-All :
      (now : String) (ds hs : List Dict) → parse_hosts now (saved ds) ≡ ok hs → All P ds → All P hs
  unfolding parse_hosts check_schema
  saved-All now ds hs e h = elim (Bool-cases (any_claws ds)) [
    | inl old ↦ let e' = rw (dicts-of_dicts, old) at e in cc
    | inr fresh ↦ migrate_all-All now ds hs (rw (dicts-of_dicts, fresh) at e) h
  ]

  -- An update whose updater keeps the property of a record.
  pub update_host-AllHosts :
      {A : Type 0} (now : String) (hostname : Json) (unset : A) (updater : Dict → Result (A × Dict))
      → ((h h' : Dict) (a : A) → updater h ≡ ok (a, h') → P h → P h')
      → Keeps (AllHosts P) (update_host now hostname unset updater)
  update_host-AllHosts {A} now hostname unset updater keeps = record {
    at = λ c all. ended c all _ (update_host-outcome now hostname unset updater c);
  }
    where
      ended :
          (c : Config)
          → AllHosts P c
          → (r : Result (Bool × A) × Config) → UpdateOutcome now hostname unset updater c r
          → AllHosts P r.1
      ended c all _ (UpdateOutcome.unreadable e) = all
      ended c all _ (UpdateOutcome.raised e u) = all
      ended c all _ (UpdateOutcome.absent e u) = all
      ended c all _ (UpdateOutcome.changed {hs} {hs'} e u) = λ later hs'' e'.
          saved-All later hs' hs'' e' (UpdatesFirst-All _ _ P keeps u (all now hs e))
