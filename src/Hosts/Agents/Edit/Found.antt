-- ===== src/Hosts/Agents/Edit/Found.antt =====
-- An edit of an agent that the host registry resolves: the later loads find the edited record.
use clawrium.Hosts.Migrate.Agents.{IsPruned-of_IsMigrated, IsMigrated-put_agent, IsPruned}
use clawrium.Hosts.Store.{load_hosts, parse_hosts}
use clawrium.Config.{Config}
use mathlib.Core.Path.{◌∙◌}
use clawrium.Prelude.{
  err, Error, arith, ap, none, ◌≡◌, refl, sym, String, Bool, true, false, some, List, [], ◌∷◌, ◌==◌,
  Bool-cases, inl, inr, Result, ok, All,
}
use clawrium.Json.{is_str, Json, index, Dict, empty, str, obj, find, get, get_or, put}
use clawrium.Json.Laws.{has-put, is_str_self, get-put, get_of_find, get_or_of_find, has_of_find}
use clawrium.Json.Equality.{py_eq-str}
use clawrium.Json.Subscript.{holds_key, mapping}
use clawrium.Records.{update_first, named, same, find_first}
use clawrium.Records.Updates.{UpdatesFirst}
use clawrium.Hosts.Store.Reload.{
  parse_hosts-saved, update_host_found, parse_hosts-IsCurrent, IsCurrent,
}
use clawrium.Hosts.Registry.{get_host, answers_to}
use clawrium.Hosts.Registry.Hostnames.{Unique}
use clawrium.Hosts.Agents.Edit.{
  edit_host, none, store_agent, get_host, edit_found, edit_agent_of, edit_agent, Json, index,
  Option, find_agent, agent_record,
}

-- The host to which an identifier leads, and one of its agents.
pub record Resolves (host agent_key : String) (hs : List Dict) : Type 0 where
  pub name : String
  pub host_data : Dict
  pub agents : Dict
  pub agent : Dict
  pub found : find_first (answers_to host) hs ≡ some host_data
  pub hostname : find "hostname" host_data ≡ some (str name)
  pub agents_there : find "agents" host_data ≡ some (obj agents)
  pub agent_there : find agent_key agents ≡ some (obj agent)

-- The host with another record of the agent.
abbrev pub with_agent : String → Dict → Dict → Dict → Dict
with_agent agent_key r agents h = put "agents" (obj (put agent_key (obj r) agents)) h

pub find_agent_found :
    (agent_key : String) (h agents agent : Dict)
    → find "agents" h ≡ some (obj agents)
    → find agent_key agents ≡ some (obj agent)
    → find_agent agent_key (get_or "agents" (obj empty) h) ≡ ok (some (agents, agent))
unfolding find_agent holds_key mapping agent_record
find_agent_found agent_key h agents agent a f = rw (
  get_or_of_find "agents" (obj empty) (obj agents) h a,
  has_of_find agent_key (obj agent) agents f,
  get_of_find agent_key (obj agent) agents f,
)

pub find_first-All :
    (P : Dict → Type 0) (p : Dict → Bool) (ds : List Dict) (d : Dict)
    → find_first p ds ≡ some d
    → All P ds
    → P d
unfolding find_first
find_first-All P p [] d e h = cc
find_first-All P p (x ∷ ds) d e h = elim (Bool-cases (p x)) [
  | inl t ↦ let e' = rw t at e in let q : x ≡ d = cc in rw (sym q) h.0
  | inr f ↦ find_first-All P p ds d (rw f at e) h.1
]

pub find_first_passes :
    (p : Dict → Bool) (ds : List Dict) (d : Dict) → find_first p ds ≡ some d → p d ≡ true
unfolding find_first
find_first_passes p [] d e = cc
find_first_passes p (x ∷ ds) d e = elim (Bool-cases (p x)) [
  | inl t ↦ let e' = rw t at e in let q : x ≡ d = cc in rw (sym q) t
  | inr f ↦ find_first_passes p ds d (rw f at e)
]

same-named : (name : String) (d : Dict) → same "hostname" (str name) d ≡ named "hostname" name d
unfolding same named
same-named name d = py_eq-str (get "hostname" d) name

-- Under distinct hostnames the first host that passes the test is the first of its hostname.
pub find_first-UpdatesFirst :
    {A : Type 0} (p : Dict → Bool) (f : Dict → Result (A × Dict)) (name : String) (hs : List Dict)
    (b : A) (h h' : Dict)
    → Unique hs
    → find_first p hs ≡ some h
    → named "hostname" name h ≡ true
    → p h' ≡ true
    → f h ≡ ok (b, h')
    → IsCurrent h'
    → All IsCurrent hs
    → (hs' : List Dict) × UpdatesFirst (same "hostname" (str name)) f hs b hs'
      × (find_first p hs' ≡ some h')
      × All IsCurrent hs'
unfolding find_first
find_first-UpdatesFirst p f name [] b h h' u e n t' g c cs = cc
find_first-UpdatesFirst p f name (d ∷ ds) b h h' u e n t' g c cs = elim (Bool-cases (p d)) [
  | inl t ↦
      let e' = rw t at e in
      let q : h ≡ d = cc in
      (
        h' ∷ ds,
        UpdatesFirst.here (same-named name d ∙ rw q at n) (rw q at g),
        rw t' refl,
        (c, cs.1),
      )
  | inr k ↦
      let e' = rw k at e in
      let (hs', v, found, current) =
        find_first-UpdatesFirst p f name ds b h h' u.1 e' n t' g c cs.1 in
      elim (Bool-cases (named "hostname" name d)) [
        | inl twice ↦
            let once =
              find_first-All (λ g. named "hostname" name g ≡ false) p ds h e' (u.0 name twice) in
            let no : true ≡ false = sym n ∙ once in cc
        | inr other ↦
            (d ∷ hs', UpdatesFirst.later (same-named name d ∙ other) v, rw k found, (cs.0, current))
      ]
]

-- An updater that raises at that host raises for the list.
pub update_first-raises :
    {A : Type 0} (p : Dict → Bool) (f : Dict → Result (A × Dict)) (name : String) (hs : List Dict)
    (x : Error) (h : Dict)
    → Unique hs
    → find_first p hs ≡ some h
    → named "hostname" name h ≡ true
    → f h ≡ err x
    → update_first (same "hostname" (str name)) f hs ≡ err x
unfolding find_first update_first
update_first-raises p f name [] x h u e n g = cc
update_first-raises p f name (d ∷ ds) x h u e n g = elim (Bool-cases (p d)) [
  | inl t ↦
      let e' = rw t at e in let q : h ≡ d = cc in rw (same-named name d ∙ rw q at n, rw q at g) refl
  | inr k ↦
      let e' = rw k at e in
      elim (Bool-cases (named "hostname" name d)) [
        | inl twice ↦
            let once =
              find_first-All (λ y. named "hostname" name y ≡ false) p ds h e' (u.0 name twice) in
            let no : true ≡ false = sym n ∙ once in cc
        | inr other ↦
            rw (same-named name d ∙ other, update_first-raises p f name ds x h u.1 e' n g) refl
      ]
]

named-with_agent :
    (k s agent_key : String) (r agents h : Dict)
    → ("agents" == k) ≡ false
    → named k s (with_agent agent_key r agents h) ≡ named k s h
unfolding named
named-with_agent k s agent_key r agents h ne = rw (get-put, ne) refl

pub answers-with_agent :
    (host agent_key : String) (r agents h : Dict)
    → answers_to host (with_agent agent_key r agents h) ≡ answers_to host h
unfolding answers_to
answers-with_agent host agent_key r agents h =
    rw
      (
        named-with_agent "hostname" host agent_key r agents h refl,
        named-with_agent "alias" host agent_key r agents h refl,
        named-with_agent "key_id" host agent_key r agents h refl,
      )
      refl

pub index_found : (k : String) (v : Json) (d : Dict) → find k d ≡ some v → index k d ≡ ok v
unfolding index
index_found k v d e = ground arith

module _ (now later host agent_key : String) (edit : Dict → Option Dict) (c : Config)
    (hs : List Dict) (e : parse_hosts now c.hosts ≡ ok hs) (u : Unique hs)
    (a : Resolves host agent_key hs) where
  -- The flag of the edit is the answer, and the later load finds the edited host.
  edit_agent_of_found :
      (b : Bool) (h' : Dict)
      → edit_agent edit agent_key a.host_data ≡ ok (b, h')
      → answers_to host h' ≡ true
      → IsCurrent h'
      → ((edit_agent_of now host agent_key edit c).0 ≡ ok b)
        × (hs' : List Dict) × (parse_hosts later (edit_agent_of now host agent_key edit c).1.hosts
            ≡ ok hs')
        × (find_first (answers_to host) hs' ≡ some h')
  unfolding edit_agent_of get_host load_hosts edit_host named
  edit_agent_of_found b h' g t k =
      let name_here : named "hostname" a.name a.host_data ≡ true =
        ap (λ v. is_str v a.name) (get_of_find "hostname" (str a.name) a.host_data a.hostname)
        ∙ is_str_self a.name in
      let (hs', v, found, current) =
        find_first-UpdatesFirst (answers_to host) (edit_agent edit agent_key) a.name hs b
          a.host_data h' u a.found name_here t g k (parse_hosts-IsCurrent now c.hosts hs e) in
      rw
        (
          e,
          a.found,
          index_found "hostname" (str a.name) a.host_data a.hostname,
          update_host_found now (str a.name) false (edit_agent edit agent_key) c hs hs' b e v,
        )
        (refl, hs', parse_hosts-saved later hs' current, found)

  IsCurrent-here : IsCurrent a.host_data
  IsCurrent-here =
      find_first-All IsCurrent (answers_to host) hs a.host_data a.found
        (parse_hosts-IsCurrent now c.hosts hs e)

  -- An edit that returns a record.
  pub edit_agent_of-some :
      (r : Dict)
      → edit a.agent ≡ some r
      → (IsPruned a.agent → IsPruned r)
      → ((edit_agent_of now host agent_key edit c).0 ≡ ok true)
        × (hs' : List Dict) × (parse_hosts later (edit_agent_of now host agent_key edit c).1.hosts
            ≡ ok hs')
        × (find_first (answers_to host) hs' ≡ some (with_agent agent_key r a.agents a.host_data))
  unfolding edit_agent edit_found store_agent
  edit_agent_of-some r ed keeps =
      edit_agent_of_found true (with_agent agent_key r a.agents a.host_data)
        (rw
          (find_agent_found agent_key a.host_data a.agents a.agent a.agents_there a.agent_there, ed)
          refl)
        (answers-with_agent host agent_key r a.agents a.host_data
          ∙ find_first_passes (answers_to host) hs a.host_data a.found)
        (record {
          migrated =
              IsMigrated-put_agent agent_key r a.agents a.host_data IsCurrent-here.migrated
                a.agents_there
                (keeps (
                  IsPruned-of_IsMigrated agent_key a.host_data a.agents a.agent
                    IsCurrent-here.migrated a.agents_there a.agent_there));
          schema = has-put "agents" "claws" _ a.host_data ∙ IsCurrent-here.schema;
        })

  -- An edit that returns the host as it is.
  pub edit_agent_of-none :
      edit a.agent ≡ none
      → ((edit_agent_of now host agent_key edit c).0 ≡ ok false)
        × (hs' : List Dict) × (parse_hosts later (edit_agent_of now host agent_key edit c).1.hosts
            ≡ ok hs')
        × (find_first (answers_to host) hs' ≡ some a.host_data)
  unfolding edit_agent edit_found store_agent
  edit_agent_of-none ed =
      edit_agent_of_found false a.host_data
        (rw
          (find_agent_found agent_key a.host_data a.agents a.agent a.agents_there a.agent_there, ed)
          refl)
        (find_first_passes (answers_to host) hs a.host_data a.found) IsCurrent-here
