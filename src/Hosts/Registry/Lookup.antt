-- ===== src/Hosts/Registry/Lookup.antt =====
-- What the lookups of the host registry find after an addition or a removal.
use clawrium.Prelude.{
  nat_eq_iff, ◌⊎◌, Option-cases, suc, ◌≡◌, refl, ap, ◌∙◌, String, Bool, true, false, not, none,
  some, List, [], ◌∷◌, ◌++◌, ok, ◌≢◌, eq_refl, arith, All, All-keep, Bool-cases, inl, inr, length,
  keep, nat_eq,
}
use clawrium.Json.{Dict, has, get, str, is_str}
use clawrium.Json.Equality.{py_eq-str}
use clawrium.Config.{Config}
use clawrium.Records.Names.{All-of_length-keep}
use clawrium.Records.{named, find_first}
use clawrium.Hosts.Migrate.{migrate, ensure_addresses}
use clawrium.Hosts.Migrate.Idempotent.{
  ensure_addresses_of_migrate, migrate-ensure_addresses, has-ensure_addresses,
}
use clawrium.Hosts.Store.{parse_hosts, load_hosts, saved, save_hosts}
use clawrium.Hosts.Store.Reload.{
  IsCurrent, parse_hosts-IsCurrent, parse_hosts-saved, parse_hosts-append,
}
use clawrium.Hosts.Registry.Hostnames.{named-migrate}
use clawrium.Hosts.Registry.{add_host, same_hostname, remove_host, get_host, answers_to}

module _ (p : Dict → Bool) where
  All-keep_self : (ds : List Dict) → All (λ d. p d ≡ true) (keep p ds)
  All-keep_self [] = tt
  All-keep_self (d ∷ ds) = elim (Bool-cases (p d)) [
    | inl t ↦ rw t (t, All-keep_self ds)
    | inr f ↦ rw f (All-keep_self ds)
  ]

All-not :
    (q : Dict → Bool) (ds : List Dict) → All (λ d. not (q d) ≡ true) ds → All (λ d. q d ≡ false) ds
All-not q [] h = tt
All-not q (d ∷ ds) h = (ground arith, All-not q ds h.1)

find_first_of_mem :
    (p : Dict → Bool) (ds : List Dict) → find_first p ds ≡ none → All (λ d. p d ≡ false) ds
unfolding find_first
find_first_of_mem p [] e = tt
find_first_of_mem p (d ∷ ds) e = ground (arith, find_first_of_mem p ds)

find_first-some-ne_absent :
    (p : Dict → Bool) (ds : List Dict) (d : Dict)
    → find_first p ds ≡ some d
    → All (λ x. p x ≡ false) ds
    → ⊥
unfolding find_first
find_first-some-ne_absent p [] d e h = cc
find_first-some-ne_absent p (x ∷ ds) d e h = find_first-some-ne_absent p ds d (rw (h.0) at e) h.1

keep_of_none :
    (q : Dict → Bool) (ds : List Dict)
    → All (λ d. q d ≡ false) ds
    → length (keep (λ d. not (q d)) ds) ≡ length ds
keep_of_none q [] h = refl
keep_of_none q (d ∷ ds) h = rw (h.0) (ap suc (keep_of_none q ds h.1))

module _ (now hostname : String) (c : Config) (hs : List Dict)
    (e : parse_hosts now c.hosts ≡ ok hs) where
  remove_host-none :
      find_first (named "hostname" hostname) hs ≡ none → remove_host now hostname c ≡ (ok false, c)
  unfolding remove_host load_hosts
  remove_host-none gone = rw (
    e,
    (nat_eq_iff _ _).1 (keep_of_none (named "hostname" hostname) hs (find_first_of_mem _ hs gone)),
  )

  remove_host-some :
      (h : Dict)
      → find_first (named "hostname" hostname) hs ≡ some h
      → remove_host now hostname c
        ≡ (ok true, record c { hosts = saved (keep (λ g. not (named "hostname" hostname g)) hs) })
  unfolding remove_host load_hosts save_hosts
  remove_host-some h there =
      elim (Bool-cases
        (nat_eq (length (keep (λ g. not (named "hostname" hostname g)) hs)) (length hs))) [
          | inr fewer ↦ rw (e, fewer)
          | inl same ↦ absurd (
              find_first-some-ne_absent _ hs h there
                (All-not _ hs (All-of_length-keep _ hs ((nat_eq_iff _ _).0 same))))
        ]

-- Removing a host from a file that can be read. If no host has the hostname, the answer is
-- `False` and nothing changes. If one has it, the answer is `True`, and any later load returns the
-- other hosts, in their order, and none of that hostname.
pub remove_host_lem :
    (now later hostname : String) (c : Config) (hs : List Dict)
    → parse_hosts now c.hosts ≡ ok hs
    → ((find_first (named "hostname" hostname) hs ≡ none)
        × (remove_host now hostname c ≡ (ok false, c)))
      ⊎ ((hs' : List Dict) × (find_first (named "hostname" hostname) hs ≢ none)
          × ((remove_host now hostname c).0 ≡ ok true)
          × (parse_hosts later (remove_host now hostname c).1.hosts ≡ ok hs')
          × (hs' ≡ keep (λ h. not (named "hostname" hostname h)) hs)
          × All (λ h. named "hostname" hostname h ≡ false) hs')
remove_host_lem now later hostname c hs e =
    elim (Option-cases (find_first (named "hostname" hostname) hs)) [
      | inl gone ↦ inl (gone, remove_host-none now hostname c hs e gone)
      | inr (h, there) ↦
          let p = λ (g : Dict). not (named "hostname" hostname g) in
          rw (remove_host-some now hostname c hs e h there) (
            inr (
              keep p hs,
              (λ gone. cc),
              refl,
              parse_hosts-saved later (keep p hs)
                  (All-keep IsCurrent p hs (parse_hosts-IsCurrent now c.hosts hs e)),
              refl,
              All-not (named "hostname" hostname) (keep p hs) (All-keep_self p hs),
            ))
    ]

answers-find :
    (name : String) (hs : List Dict) (h : Dict)
    → All (λ g. answers_to name g ≡ false) hs
    → named "hostname" name h ≡ true
    → find_first (answers_to name) (hs ++ (h ∷ [])) ≡ some h
unfolding find_first answers_to
answers-find name [] h a n = rw n
answers-find name (g ∷ hs) h a n = rw (a.0) (answers-find name hs h a.1 n)

hostname_absent :
    (name : String) (hs : List Dict)
    → All (λ g. answers_to name g ≡ false) hs
    → same_hostname (str name) hs ≡ false
unfolding answers_to same_hostname named
hostname_absent name [] a = refl
hostname_absent name (h ∷ hs) a =
    ground (arith, py_eq-str (get "hostname" h) name, hostname_absent name hs)

named_self :
    (name : String) (h : Dict) → get "hostname" h ≡ str name → named "hostname" name h ≡ true
unfolding named is_str
named_self name h e = rw e (eq_refl name)

add_host_new :
    (now name : String) (host g : Dict) (c : Config) (hs : List Dict)
    → parse_hosts now c.hosts ≡ ok hs
    → All (λ g. answers_to name g ≡ false) hs
    → get "hostname" host ≡ str name
    → ensure_addresses now host ≡ ok g
    → add_host now host c ≡ (ok tt, record c { hosts = saved (hs ++ (g ∷ [])) })
unfolding add_host load_hosts save_hosts
add_host_new now name host g c hs e a n p = rw (e, n, hostname_absent name hs a, p)

-- A host that is added under a name to which no other answers is the one that `get_host` then
-- returns for the name, migrated as a load migrates it.
pub get_host-add_host :
    (now later name : String) (host host' : Dict) (c : Config) (hs : List Dict)
    → parse_hosts now c.hosts ≡ ok hs
    → All (λ g. answers_to name g ≡ false) hs
    → get "hostname" host ≡ str name
    → has "claws" host ≡ false
    → migrate now host ≡ ok host'
    → ((add_host now host c).0 ≡ ok tt)
      × ((get_host later name (add_host now host c).1).0 ≡ ok (some host'))
unfolding get_host load_hosts
get_host-add_host now later name host host' c hs e a n k m =
    let (g, p) = ensure_addresses_of_migrate now host host' m in
    let current = parse_hosts-IsCurrent now c.hosts hs e in
    let found = answers-find name hs host' a (
      named-migrate now "hostname" name host host' (refl, refl, refl) m ∙ named_self name host n) in
    rw (add_host_new now name host g c hs e a n p) (
      refl,
      rw
          (parse_hosts-append later hs g host' current
            (has-ensure_addresses now "claws" host g p refl ∙ k)
            (migrate-ensure_addresses now later host g host' p m))
          (ap ok found),
    )
