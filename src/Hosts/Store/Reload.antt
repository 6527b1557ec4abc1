-- ===== src/Hosts/Store/Reload.antt =====
-- What is saved is what the next load returns.
use clawrium.Prelude.{
  ◌++◌, ◌≡◌, refl, ◌∙◌, sym, String, Bool, true, false, Option, none, some, List, [], ◌∷◌, Result,
  ok, err, Error, >>=-eq-ok, ok-injective, arith, All, Bool-cases, inl, inr,
}
use clawrium.Json.{Json, Dict, arr, has, null}
use clawrium.Json.Lists.{dicts, dicts-of_dicts}
use clawrium.Config.{File, missing, holds, Config, continue}
use clawrium.Records.{same, update_first}
use clawrium.Records.Updates.{
  UpdatesFirst, update_first_complete, update_first_sound, absent_of_update_first,
}
use clawrium.Hosts.Migrate.{migrate, IsMigrated}
use clawrium.Hosts.Migrate.Idempotent.{migrate-IsMigrated, migrate_of_IsMigrated, has-migrate}
use clawrium.Hosts.Store.{
  any_claws, migrate_all, check_schema, parse_hosts, load_hosts, saved, save_hosts, commit_hosts,
  update_host,
}

-- A record that a load returns as it stands in the file.
pub record IsCurrent (h : Dict) : Type 0 where
  pub migrated : IsMigrated h
  pub schema : has "claws" h ≡ false

migrate_all_of_IsCurrent :
    (now : String) (hs : List Dict) → All IsCurrent hs → migrate_all now hs ≡ ok hs
unfolding migrate_all
migrate_all_of_IsCurrent now [] h = refl
migrate_all_of_IsCurrent now (d ∷ ds) h =
    rw (migrate_of_IsMigrated now d h.0.migrated, migrate_all_of_IsCurrent now ds h.1)

any_claws_of_IsCurrent : (hs : List Dict) → All IsCurrent hs → any_claws hs ≡ false
unfolding any_claws
any_claws_of_IsCurrent [] h = refl
any_claws_of_IsCurrent (d ∷ ds) h = rw (h.0.schema, any_claws_of_IsCurrent ds h.1)

migrate_all-append :
    (now : String) (hs : List Dict) (d h : Dict)
    → All IsCurrent hs
    → migrate now d ≡ ok h
    → migrate_all now (hs ++ (d ∷ [])) ≡ ok (hs ++ (h ∷ []))
unfolding migrate_all
migrate_all-append now [] d h a e = rw e
migrate_all-append now (g ∷ hs) d h a e =
    rw (migrate_of_IsMigrated now g a.0.migrated, migrate_all-append now hs d h a.1 e)

any_claws-append :
    (hs : List Dict) (d : Dict)
    → All IsCurrent hs
    → has "claws" d ≡ false
    → any_claws (hs ++ (d ∷ [])) ≡ false
unfolding any_claws
any_claws-append [] d a e = rw e
any_claws-append (g ∷ hs) d a e = rw (a.0.schema, any_claws-append hs d a.1 e)

-- A load of current records with one more behind them.
pub parse_hosts-append :
    (now : String) (hs : List Dict) (d h : Dict)
    → All IsCurrent hs
    → has "claws" d ≡ false
    → migrate now d ≡ ok h
    → parse_hosts now (saved (hs ++ (d ∷ []))) ≡ ok (hs ++ (h ∷ []))
unfolding parse_hosts check_schema
parse_hosts-append now hs d h a c e =
    rw (dicts-of_dicts, any_claws-append hs d a c) (migrate_all-append now hs d h a e)

-- Loading what was saved gives it back, whatever the clock shows.
pub parse_hosts-saved :
    (now : String) (hs : List Dict) → All IsCurrent hs → parse_hosts now (saved hs) ≡ ok hs
unfolding parse_hosts check_schema
parse_hosts-saved now hs h =
    rw (dicts-of_dicts, any_claws_of_IsCurrent hs h, migrate_all_of_IsCurrent now hs h)

migrate_all-IsCurrent :
    (now : String) (ds hs : List Dict)
    → any_claws ds ≡ false
    → migrate_all now ds ≡ ok hs
    → All IsCurrent hs
unfolding migrate_all any_claws
migrate_all-IsCurrent now [] hs old e = rw (sym (ok-injective _ _ e)) tt
migrate_all-IsCurrent now (d ∷ ds) hs old e =
    let (h, e1, e2) = >>=-eq-ok (migrate now d) _ e in
    let (hs', e3, e4) = >>=-eq-ok (migrate_all now ds) _ e2 in
    let q : (has "claws" d ≡ false) × (any_claws ds ≡ false) = ground arith in
    rw (sym (ok-injective _ _ e4)) (
      record {
        migrated = migrate-IsMigrated now d h e1;
        schema = has-migrate now "claws" d h (refl, refl, refl) e1 ∙ q.0;
      },
      migrate_all-IsCurrent now ds hs' q.1 e3,
    )

check_schema-IsCurrent :
    (now : String) (o : Option (List Dict)) (hs : List Dict)
    → check_schema now o ≡ ok hs
    → All IsCurrent hs
unfolding check_schema
check_schema-IsCurrent now none hs e = cc
check_schema-IsCurrent now (some ds) hs e = elim (Bool-cases (any_claws ds)) [
  | inl old ↦ let e' = rw old at e in cc
  | inr fresh ↦ migrate_all-IsCurrent now ds hs fresh (rw fresh at e)
]

-- Every record that a load returns would be returned unchanged by the next.
pub parse_hosts-IsCurrent :
    (now : String) (f : File) (hs : List Dict) → parse_hosts now f ≡ ok hs → All IsCurrent hs
unfolding parse_hosts
parse_hosts-IsCurrent now missing hs e = rw (sym (ok-injective _ _ e)) tt
parse_hosts-IsCurrent now (holds (arr xs)) hs e = check_schema-IsCurrent now (dicts xs) hs e
parse_hosts-IsCurrent now (holds null) hs e = cc
parse_hosts-IsCurrent now _ hs e = cc

-- A load, and a save of what it returned, settle the file: whatever the file was and whatever the
-- clocks show, the next load returns the same records.
pub load-save-load :
    (now later : String) (c : Config) (hs : List Dict)
    → (load_hosts now c).0 ≡ ok hs
    → load_hosts later (save_hosts hs c).1 ≡ (ok hs, record c { hosts = saved hs })
unfolding load_hosts save_hosts
load-save-load now later c hs e =
    rw (parse_hosts-saved later hs (parse_hosts-IsCurrent now c.hosts hs e))

module _ {A : Type 0} (now : String) (hostname : Json) (unset : A)
    (updater : Dict → Result (A × Dict)) where
  -- An update that finds its host.
  pub update_host_found :
      (c : Config) (hs hs' : List Dict) (a : A)
      → parse_hosts now c.hosts ≡ ok hs
      → UpdatesFirst (same "hostname" hostname) updater hs a hs'
      → update_host now hostname unset updater c ≡ (ok (true, a), record c { hosts = saved hs' })
  unfolding update_host load_hosts save_hosts commit_hosts
  update_host_found c hs hs' a e u = rw (e, update_first_complete _ _ u)

  -- How an update ends, with the files that it leaves.
  pub data UpdateOutcome (c : Config) : Result (Bool × A) × Config → Type 0 where
    unreadable : {e : Error} → parse_hosts now c.hosts ≡ err e → UpdateOutcome c (err e, c)
    raised :
        {e : Error} {hs : List Dict}
        → parse_hosts now c.hosts ≡ ok hs
        → update_first (same "hostname" hostname) updater hs ≡ err e
        → UpdateOutcome c (err e, c)
    absent :
        {hs : List Dict}
        → parse_hosts now c.hosts ≡ ok hs
        → All (λ h. same "hostname" hostname h ≡ false) hs
        → UpdateOutcome c (ok (false, unset), c)
    changed :
        {hs hs' : List Dict} {a : A}
        → parse_hosts now c.hosts ≡ ok hs
        → UpdatesFirst (same "hostname" hostname) updater hs a hs'
        → UpdateOutcome c (ok (true, a), record c { hosts = saved hs' })

  commit-outcome :
      (c : Config) (hs : List Dict)
      → parse_hosts now c.hosts ≡ ok hs
      → (r : Result (Option (A × List Dict)))
      → update_first (same "hostname" hostname) updater hs ≡ r
      → UpdateOutcome c (continue r (commit_hosts unset) c)
  unfolding commit_hosts save_hosts
  commit-outcome c hs e (err x) u = raised e u
  commit-outcome c hs e (ok none) u = absent e (absent_of_update_first _ _ hs u)
  commit-outcome c hs e (ok (some (a, hs'))) u = changed e (update_first_sound _ _ hs hs' a u)

  parsed-outcome :
      (c : Config) (r : Result (List Dict))
      → parse_hosts now c.hosts ≡ r
      → UpdateOutcome c (update_host now hostname unset updater c)
  unfolding update_host load_hosts
  parsed-outcome c (err x) e = rw e (unreadable e)
  parsed-outcome c (ok hs) e = rw e (commit-outcome c hs e _ refl)

  -- An update raises, finds no host, or replaces the first host of that name by what the updater
  -- returns; only in the last case does a file change, and then hosts.json alone.
  pub update_host-outcome :
      (c : Config) → UpdateOutcome c (update_host now hostname unset updater c)
  update_host-outcome c = parsed-outcome c (parse_hosts now c.hosts) refl
