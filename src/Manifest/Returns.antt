-- ===== src/Manifest/Returns.antt =====
-- When no exception escapes from `execute_apply`: no key is asked for, and every stored host has a
-- hostname.
use mathlib.Core.Path.{subst}
use clawrium.Prelude.{
  ◌≡◌, refl, ap, String, Bool, true, false, Option, none, some, List, [], ◌∷◌, ◌==◌, All,
  Bool-cases, inl, inr, ok,
}
use clawrium.Json.{Json, Dict, obj, find, truthy, is_str, index}
use clawrium.Config.{Config}
use clawrium.Manifest.{
  ManifestResource, HostResource, AgentResource, ActualState, Records, Op, ChangeSet, hosts,
  host_kind, agent_kind,
}
use clawrium.Manifest.Steps.{
  Remote, Run, later_or, by_name, find_record, resolved_host, resolve_hostname, added_host,
  create_host, named_host, same_kind,
}
use clawrium.Manifest.Executor.{
  Attempt, and_then, created, apply_host, create_hosts, installed_on, apply_install, install_agents,
  create_providers, finish_apply, execute_apply, fresh_run,
}

-- No host of the manifest asks for a key, and every stored host has a hostname.
abbrev pub IsPlain : List ManifestResource → ActualState → Type 0
IsPlain doc actual =
    All (λ h. h.spec.bootstrap ≡ false) (hosts doc)
    × All (λ (r : Json × Dict). (v : Json) × (find "hostname" r.1 ≡ some v)) actual.hosts

abbrev Returns : Attempt → Type 0
Returns attempt = (run : Run) × (attempt ≡ (ok tt, run))

and_then-Returns :
    (attempt : Attempt) (next : Run → Attempt)
    → Returns attempt
    → ((run : Run) → Returns (next run))
    → Returns (and_then attempt next)
unfolding and_then
and_then-Returns attempt next (run, e) h = rw e (h run)

-- What is found by its name is in the list.
module _ {A : Type 0} (P : A → Type 0) (name_of : A → String) where
  later_or_sound :
      (later : Option A) (same : Bool) (y x : A)
      → P y
      → ((z : A) → later ≡ some z → P z)
      → later_or later same y ≡ some x
      → P x
  unfolding later_or
  later_or_sound (some z) same y x here there e = there x e
  later_or_sound none true y x here there e = let found : y ≡ x = cc in subst P found here
  later_or_sound none false y x here there e = cc

  by_name_sound :
      (name : String) (xs : List A) (x : A) → All P xs → by_name name_of name xs ≡ some x → P x
  unfolding by_name
  by_name_sound name [] x h e = cc
  by_name_sound name (y ∷ ys) x h e =
      later_or_sound (by_name name_of name ys) (name_of y == name) y x h.0
        (λ z f. by_name_sound name ys z h.1 f) e

find_record_sound :
    (name : Option String) (rs : Records) (d : Dict)
    → All (λ (r : Json × Dict). (v : Json) × (find "hostname" r.1 ≡ some v)) rs
    → find_record name rs ≡ some d
    → (v : Json) × (find "hostname" d ≡ some v)
unfolding find_record
find_record_sound none rs d h e = cc
find_record_sound (some name) [] d h e = cc
find_record_sound (some name) ((key, r) ∷ rs) d h e = elim (Bool-cases (is_str key name)) [
  | inl t ↦
      let same : some r ≡ some d = rw t at e in
      let found : r ≡ d = cc in subst (λ x. (v : Json) × (find "hostname" x ≡ some v)) found h.0
  | inr f ↦ find_record_sound (some name) rs d h.1 (rw f at e)
]

resolved_host-ok :
    (spec_host : Option String) (o : Option Dict)
    → ((d : Dict) → o ≡ some d → (v : Json) × (find "hostname" d ≡ some v))
    → (v : Json) × (resolved_host spec_host o ≡ ok v)
unfolding resolved_host index
resolved_host-ok spec_host none h = (_, refl)
resolved_host-ok spec_host (some d) h = elim (Bool-cases (truthy (obj d))) [
  | inl t ↦ let there = h d refl in (there.0, rw t (rw (there.1, index) refl))
  | inr f ↦ (named_host spec_host, rw f refl)
]

module _ (remote : Remote) (now : String) where
  added_host-Returns :
      (failure : Option String) (h : HostResource) (run : Run)
      → h.spec.bootstrap ≡ false
      → (e : Option String) × (after : Run) × (added_host remote now failure h run ≡ (ok e, after))
  unfolding added_host
  added_host-Returns none h run b = (none, run, rw b refl)
  added_host-Returns (some e) h run b = (some e, run, refl)

  apply_host-Returns :
      (name : String) (o : Option HostResource) (run : Run)
      → ((h : HostResource) → o ≡ some h → h.spec.bootstrap ≡ false)
      → Returns (apply_host remote now name o run)
  unfolding apply_host created create_host
  apply_host-Returns name none run h = (_, refl)
  apply_host-Returns name (some r) run h =
      let host_after = added_host-Returns _ r _ (h r refl) in (_, ap (created name) host_after.2)

  create_hosts-Returns :
      (doc : List ManifestResource) (ops : List Op) (run : Run)
      → All (λ h. h.spec.bootstrap ≡ false) (hosts doc)
      → Returns (create_hosts remote now doc ops run)
  unfolding create_hosts
  create_hosts-Returns doc [] run h = (run, refl)
  create_hosts-Returns doc (o ∷ ops) run h =
      and_then-Returns _ _
        (elim (Bool-cases (same_kind o.kind host_kind)) [
          | inl t ↦ rw t (
              apply_host-Returns o.name _ run (λ r e.
                by_name_sound (λ x. x.spec.bootstrap ≡ false) (λ x. x.metadata.name) o.name
                  (hosts doc) r h e))
          | inr f ↦ rw f (run, refl)
        ])
        (λ later. create_hosts-Returns doc ops later h)

  apply_install-Returns :
      (actual : ActualState) (name : String) (o : Option AgentResource) (run : Run)
      → All (λ (r : Json × Dict). (v : Json) × (find "hostname" r.1 ≡ some v)) actual.hosts
      → Returns (apply_install remote now actual name o run)
  unfolding apply_install installed_on resolve_hostname
  apply_install-Returns actual name none run h = (run, refl)
  apply_install-Returns actual name (some a) run h =
      let resolved =
        resolved_host-ok a.spec.host (find_record a.spec.host actual.hosts)
          (λ d e. find_record_sound a.spec.host actual.hosts d h e) in
      (_, ap (λ x. installed_on remote now x a name run) resolved.1)

  install_agents-Returns :
      (doc : List ManifestResource) (actual : ActualState) (ops : List Op) (run : Run)
      → All (λ (r : Json × Dict). (v : Json) × (find "hostname" r.1 ≡ some v)) actual.hosts
      → Returns (install_agents remote now doc actual ops run)
  unfolding install_agents
  install_agents-Returns doc actual [] run h = (run, refl)
  install_agents-Returns doc actual (o ∷ ops) run h =
      and_then-Returns _ _
        (elim (Bool-cases (same_kind o.kind agent_kind)) [
          | inl t ↦ rw t (apply_install-Returns actual o.name _ run h)
          | inr f ↦ rw f (run, refl)
        ])
        (λ later. install_agents-Returns doc actual ops later h)

  pub execute_apply-Returns :
      (doc : List ManifestResource) (cs : ChangeSet) (actual : ActualState) (c : Config)
      → IsPlain doc actual
      → (errors : List String) × ((execute_apply remote now doc cs actual false c).0 ≡ ok errors)
  unfolding execute_apply finish_apply
  execute_apply-Returns doc cs actual c plain =
      let done_run =
        and_then-Returns (create_hosts remote now doc cs.creates (fresh_run c))
          (λ run.
            install_agents remote now doc actual cs.creates
              (create_providers remote now doc cs.creates run))
          (create_hosts-Returns doc cs.creates (fresh_run c) plain.0)
          (λ run. install_agents-Returns doc actual cs.creates _ plain.1) in
      (_, ap (λ r. (finish_apply remote now doc cs actual r).0) done_run.1)
