-- ===== src/Hosts/Registry/Hostnames.antt =====
-- Adding and removing hosts: no two hosts come to share a hostname.
use clawrium.Prelude.{
  ◌≡◌, refl, ◌∙◌, sym, String, Bool, true, false, not, List, [], ◌∷◌, ◌++◌, ok, eq_iff, >>=-eq-ok,
  ok-injective, arith, All, All-append, All-keep, ◌⊎◌, Result-cases, Bool-cases, inl, inr, length,
  keep, nat_eq,
}
use clawrium.Json.{Json, Dict, get, str, is_str}
use clawrium.Json.Equality.{py_eq-str}
use clawrium.Json.Lists.{dicts-of_dicts}
use clawrium.Config.{Config}
use clawrium.Records.{named}
use clawrium.Hosts.Migrate.{migrate, ensure_addresses}
use clawrium.Hosts.Migrate.Idempotent.{find-migrate, find-ensure_addresses, IsUntouched}
use clawrium.Hosts.Store.{
  parse_hosts, load_hosts, saved, save_hosts, migrate_all, check_schema, any_claws,
}
use clawrium.Hosts.Registry.{add_host, same_hostname, remove_host}

-- No two records have the same text for a hostname.
abbrev pub Unique : List Dict → Type 0
Unique [] = Unit
Unique (h ∷ hs) =
    ((s : String) → named "hostname" s h ≡ true → All (λ g. named "hostname" s g ≡ false) hs)
    × Unique hs

-- However the file is read, its hostnames are distinct.
abbrev pub HasUniqueHosts : Config → Type 0
HasUniqueHosts c = (now : String) (hs : List Dict) → parse_hosts now c.hosts ≡ ok hs → Unique hs

pub named-migrate :
    (now k s : String) (h h' : Dict)
    → IsUntouched k
    → migrate now h ≡ ok h'
    → named k s h' ≡ named k s h
unfolding named get
named-migrate now k s h h' u e = ground (arith, find-migrate now k h h' u e)

migrate_all-absent :
    (now s : String) (ds hs : List Dict)
    → migrate_all now ds ≡ ok hs
    → All (λ g. named "hostname" s g ≡ false) ds
    → All (λ g. named "hostname" s g ≡ false) hs
unfolding migrate_all
migrate_all-absent now s [] hs e h = rw (sym (ok-injective _ _ e)) tt
migrate_all-absent now s (d ∷ ds) hs e h =
    let (d', e1, e2) = >>=-eq-ok (migrate now d) _ e in
    let (ds', e3, e4) = >>=-eq-ok (migrate_all now ds) _ e2 in
    rw (sym (ok-injective _ _ e4)) (
      named-migrate now "hostname" s d d' (refl, refl, refl) e1 ∙ h.0,
      migrate_all-absent now s ds ds' e3 h.1,
    )

migrate_all-Unique :
    (now : String) (ds hs : List Dict) → migrate_all now ds ≡ ok hs → Unique ds → Unique hs
unfolding migrate_all
migrate_all-Unique now [] hs e h = rw (sym (ok-injective _ _ e)) tt
migrate_all-Unique now (d ∷ ds) hs e h =
    let (d', e1, e2) = >>=-eq-ok (migrate now d) _ e in
    let (ds', e3, e4) = >>=-eq-ok (migrate_all now ds) _ e2 in
    rw (sym (ok-injective _ _ e4)) (
      (λ s n.
          migrate_all-absent now s ds ds' e3
            (h.0 s (sym (named-migrate now "hostname" s d d' (refl, refl, refl) e1) ∙ n))),
      migrate_all-Unique now ds ds' e3 h.1,
    )

saved-Unique :
    (now : String) (ds hs : List Dict) → parse_hosts now (saved ds) ≡ ok hs → Unique ds → Unique hs
unfolding parse_hosts check_schema
saved-Unique now ds hs e h = elim (Bool-cases (any_claws ds)) [
  | inl old ↦ let e' = rw (dicts-of_dicts, old) at e in cc
  | inr fresh ↦ migrate_all-Unique now ds hs (rw (dicts-of_dicts, fresh) at e) h
]

is_str_same : (s t : String) (v : Json) → v ≡ str t → is_str v s ≡ true → t ≡ s
unfolding is_str
is_str_same s t v e h = (eq_iff t s).0 (rw e at h)

same_hostname-absent :
    (hs : List Dict) (name : String)
    → same_hostname (str name) hs ≡ false
    → All (λ g. named "hostname" name g ≡ false) hs
unfolding same_hostname named
same_hostname-absent [] name e = tt
same_hostname-absent (h ∷ hs) name e =
    ground (arith, py_eq-str (get "hostname" h) name, same_hostname-absent hs name)

other_hostname :
    (g h : Dict) (name s : String)
    → get "hostname" h ≡ str name
    → named "hostname" name g ≡ false
    → named "hostname" s g ≡ true
    → named "hostname" s h ≡ false
unfolding named
other_hostname g h name s e a n = elim (Bool-cases (is_str (get "hostname" h) s)) [
  | inl t ↦ let q : name ≡ s = is_str_same s name (get "hostname" h) e t in cc q
  | inr f ↦ f
]

append-Unique :
    (hs : List Dict) (h : Dict) (name : String)
    → get "hostname" h ≡ str name
    → All (λ g. named "hostname" name g ≡ false) hs
    → Unique hs
    → Unique (hs ++ (h ∷ []))
append-Unique [] h name e a u = ((λ s n. tt), tt)
append-Unique (g ∷ hs) h name e a u = (
  (λ s n.
      All-append (λ x. named "hostname" s x ≡ false) hs (h ∷ []) (u.0 s n)
        (other_hostname g h name s e a.0 n, tt)),
  append-Unique hs h name e a.1 u.1,
)

hostname-ensure_addresses :
    (now : String) (h h' : Dict)
    → ensure_addresses now h ≡ ok h'
    → get "hostname" h' ≡ get "hostname" h
unfolding get
hostname-ensure_addresses now h h' e =
    ground (arith, find-ensure_addresses now "hostname" h h' e refl)

-- The files after an addition: as they were, or hosts.json with one record more.
add_host-config :
    (now name : String) (host : Dict) (c : Config)
    → get "hostname" host ≡ str name
    → ((add_host now host c).1 ≡ c)
      ⊎ ((hs : List Dict) × (host' : Dict) × (parse_hosts now c.hosts ≡ ok hs)
          × (same_hostname (str name) hs ≡ false)
          × (ensure_addresses now host ≡ ok host')
          × ((add_host now host c).1 ≡ record c { hosts = saved (hs ++ (host' ∷ [])) }))
unfolding add_host load_hosts save_hosts
add_host-config now name host c n = elim (Result-cases (parse_hosts now c.hosts)) [
  | inr (e, p) ↦ inl (rw p)
  | inl (hs, p) ↦ elim (Bool-cases (same_hostname (str name) hs)) [
    | inl same ↦ inl (rw (p, n, same))
    | inr fresh ↦ elim (Result-cases (ensure_addresses now host)) [
      | inr (e, q) ↦ inl (rw (p, n, fresh, q))
      | inl (host', q) ↦ inr (hs, host', p, fresh, q, rw (p, n, fresh, q))
    ]
  ]
]

-- Adding a host under a text as its hostname keeps the hostnames distinct, whether it succeeds
-- or not.
pub add_host-HasUniqueHosts :
    (now name : String) (host : Dict) (c : Config)
    → get "hostname" host ≡ str name
    → HasUniqueHosts c
    → HasUniqueHosts (add_host now host c).1
add_host-HasUniqueHosts now name host c n u = elim (add_host-config now name host c n) [
  | inl same ↦ rw same u
  | inr (hs, host', p, fresh, q, wrote) ↦ rw wrote (λ later hs' e.
      saved-Unique later (hs ++ (host' ∷ [])) hs' e (
        append-Unique hs host' name (hostname-ensure_addresses now host host' q ∙ n)
          (same_hostname-absent hs name fresh) (u now hs p)))
]

keep-Unique : (p : Dict → Bool) (hs : List Dict) → Unique hs → Unique (keep p hs)
keep-Unique p [] u = tt
keep-Unique p (h ∷ hs) u = elim (Bool-cases (p h)) [
  | inl t ↦
      rw t
        ((λ s n. All-keep (λ g. named "hostname" s g ≡ false) p hs (u.0 s n)), keep-Unique p hs u.1)
  | inr f ↦ rw f (keep-Unique p hs u.1)
]

-- Removing a host keeps the hostnames distinct.
pub remove_host-HasUniqueHosts :
    (now hostname : String) (c : Config)
    → HasUniqueHosts c
    → HasUniqueHosts (remove_host now hostname c).1
unfolding remove_host load_hosts save_hosts
remove_host-HasUniqueHosts now hostname c u = elim (Result-cases (parse_hosts now c.hosts)) [
  | inr (e, p) ↦ rw p u
  | inl (hs, p) ↦
      elim (Bool-cases
        (nat_eq (length (keep (λ h. not (named "hostname" hostname h)) hs)) (length hs))) [
          | inl same ↦ rw (p, same) u
          | inr fewer ↦
              rw (p, fewer)
                (λ later hs' e. saved-Unique later _ hs' e (keep-Unique _ hs (u now hs p)))
        ]
]
