-- ===== src/Integrations/Agents/Added.antt =====
-- `add_agent_integration`: its answer, what a later reading finds, and the singleton rule.
use clawrium.Integrations.Agents.Attempts.{
  attach_on_host_raises, attempted, name_here, after_attempt,
}
use clawrium.Integrations.{integrations_corrupted, parse_records, false, load_integrations}
use clawrium.Prelude.{
  sym, integrations_corrupted, ok-injective, false, inr, if◌then◌else◌, ◌==◌, inl, Bool-cases,
  Result-cases, not, Bool, Error, ◌≡◌, refl, ◌∙◌, String, true, Option, List, ok, err,
}
use clawrium.Json.{Json, Dict, str}
use clawrium.Json.Lists.{has_item, append_item}
use clawrium.Config.{Config}
use clawrium.Records.{parse_records}
use clawrium.Hosts.Store.{parse_hosts, load_hosts, update_host}
use clawrium.Hosts.Registry.{get_host, answers_to}
use clawrium.Hosts.Registry.Hostnames.{Unique}
use clawrium.Hosts.Agents.Edit.Found.{update_first-raises, index_found, Resolves}
use clawrium.Integrations.Agents.{
  has_item, load_integrations, not, add_on_host, target_type_of, add_agent_integration, report,
  Bool, Attempt, attach_integration, attach_on_host, get_agent_integrations,
}
use clawrium.Integrations.Agents.Singleton.{
  check_singleton-IsFreeOf, IsFreeOf, integrations_in, Attached, attach_integration-Attached,
}

target_type_of-config : (name : String) (c : Config) → (target_type_of name c).1 ≡ c
unfolding target_type_of load_integrations
target_type_of-config name c = elim (Bool-cases (name == "")) [
  | inl t ↦ rw t refl
  | inr f ↦ elim (Result-cases (parse_records integrations_corrupted c.integrations)) [
    | inr (x, p) ↦ rw (f, p) refl
    | inl (is, p) ↦ rw (f, p) refl
  ]
]

module _ (now later host claw_name name : String) (c : Config) (hs : List Dict)
    (e : parse_hosts now c.hosts ≡ ok hs) (u : Unique hs) (a : Resolves host claw_name hs) where
  added_as :
      (target_type : Json) (t : Attempt) (m : Option Dict)
      → (target_type_of name c).0 ≡ ok target_type
      → attach_integration target_type (load_integrations c).0 name a.agent ≡ ok (t, m)
      → (d : Config) × (add_agent_integration now host claw_name name c ≡ report t d)
        × ((get_agent_integrations later host claw_name d).0
            ≡ ok (after_attempt t name (integrations_in a.agent)))
  unfolding add_agent_integration add_on_host get_host load_hosts
  added_as target_type t m p at =
      let (d, upd, read) =
        attempted host claw_name name hs a target_type (load_integrations c).0 now later c e u t m
          at in
      (
        d,
        rw
            (
              e,
              a.found,
              index_found "hostname" (str a.name) a.host_data a.hostname,
              p,
              target_type_of-config name c,
              upd,
            )
            refl,
        read,
      )

  not_raised :
      (target_type : Json) (b : Bool)
      → (target_type_of name c).0 ≡ ok target_type
      → (add_agent_integration now host claw_name name c).0 ≡ ok b
      → (t : Attempt) × (m : Option Dict) × (attach_integration target_type
            (load_integrations c).0
            name
            a.agent
          ≡ ok (t, m))
  unfolding add_agent_integration add_on_host get_host load_hosts update_host
  not_raised target_type b p k =
      elim (Result-cases (attach_integration target_type (load_integrations c).0 name a.agent)) [
        | inl (r, at) ↦ (r.0, r.1, at)
        | inr (x, at) ↦
            let raises =
              update_first-raises (answers_to host)
                (attach_on_host target_type (load_integrations c).0 name claw_name) a.name hs x
                a.host_data u a.found
                (name_here host claw_name name hs a target_type (load_integrations c).0 now later c
                  e u)
                (attach_on_host_raises host claw_name name hs a target_type (load_integrations c).0
                  x at) in
            let k' =
              rw
                (
                  e,
                  a.found,
                  index_found "hostname" (str a.name) a.host_data a.hostname,
                  p,
                  target_type_of-config name c,
                  e,
                  raises,
                )
                at k in
            cc
      ]

  no_target :
      (b : Bool) (x : Error)
      → (target_type_of name c).0 ≡ err x
      → (add_agent_integration now host claw_name name c).0 ≡ ok b
      → ⊥
  unfolding add_agent_integration add_on_host get_host load_hosts
  no_target b x p k =
      let k' =
        rw (e, a.found, index_found "hostname" (str a.name) a.host_data a.hostname, p) at k in
      cc

  finish :
      (target_type : Json) (t : Attempt) (m : Option Dict) (b : Bool) (d : Config)
      → (target_type_of name c).0 ≡ ok target_type
      → Attached target_type (load_integrations c).0 name a.agent t m
      → (report t d).0 ≡ ok b
      → (get_agent_integrations later host claw_name d).0
        ≡ ok (after_attempt t name (integrations_in a.agent))
      → (b ≡ not (has_item name (integrations_in a.agent)))
        × ((get_agent_integrations later host claw_name (report t d).1).0
            ≡ ok (
                if b
                then append_item (str name) (integrations_in a.agent)
                else integrations_in a.agent))
        × (b ≡ true
            → (target_type_of name c).0 ≡ ok (str "git")
            → (is : List Dict) → (load_integrations c).0 ≡ ok is
            → IsFreeOf (str "git") is (integrations_in a.agent))
  unfolding report
  finish target_type _ _ b d p (Attached.as_before y) k read =
      let was_there : false ≡ b = ok-injective _ _ k in rw (sym was_there, y) (refl, read, λ t. cc)
  finish target_type _ _ b d p Attached.in_conflict k read = cc
  finish target_type _ _ b d p (Attached.added n free) k read =
      let was_added : true ≡ b = ok-injective _ _ k in
      rw (sym was_added, n)
        (
          refl,
          read,
          λ t git is l.
              let same : target_type ≡ str "git" = ok-injective _ _ (sym p ∙ git) in
              check_singleton-IsFreeOf (load_integrations c).0 is (integrations_in a.agent) l
                (rw same at free),
        )

  -- An addition that does not raise, to an agent under its own key on a host that the identifier
  -- leads to, in a file of distinct hostnames: the answer is whether the agent did not have the
  -- integration, and a later reading finds it behind the ones from before, or these alone. If it is
  -- added and is of type git, none of the ones from before is of type git.
  pub add_agent_integration_lem :
      (b : Bool)
      → (add_agent_integration now host claw_name name c).0 ≡ ok b
      → (b ≡ not (has_item name (integrations_in a.agent)))
        × ((get_agent_integrations later host claw_name
              (add_agent_integration now host claw_name name c).1).0
            ≡ ok (
                if b
                then append_item (str name) (integrations_in a.agent)
                else integrations_in a.agent))
        × (b ≡ true
            → (target_type_of name c).0 ≡ ok (str "git")
            → (is : List Dict) → (load_integrations c).0 ≡ ok is
            → IsFreeOf (str "git") is (integrations_in a.agent))
  add_agent_integration_lem b k = elim (Result-cases (target_type_of name c).0) [
    | inr (x, p) ↦ absurd (no_target b x p k)
    | inl (target_type, p) ↦
        let (t, m, at) = not_raised target_type b p k in
        let (d, done, read) = added_as target_type t m p at in
        let l : (report t d).0 ≡ ok b = rw done at k in
        rw done (
          finish target_type t m b d p
            (attach_integration-Attached target_type (load_integrations c).0 name a.agent t m at) l
            read)
  ]
