-- ===== src/Install/Choice.antt =====
-- The name of a new agent: an installation replaces no agent but one that it is asked for.
use clawrium.Json.Laws.{get_of_find, has_of_find}
use mathlib.Core.Path.{subst}
use clawrium.Install.{as_dict}
use clawrium.Json.Subscript.{holds_key}
use clawrium.Install.Records.{choose_name, first_available, may_replace}
use clawrium.Names.{is_name_available_on_host}
use clawrium.Prelude.{
  String, true, false, ◌||◌, Option, none, some, List, [], ◌∷◌, ◌≡◌, refl, Bool-cases, inl, inr, ok,
  >>=-eq-ok, arith, ok-injective, sym, ◌∙◌, if◌then◌else◌, Option-cases, ap, ◌>>=◌,
}
use clawrium.Json.{as_dict, Json, Dict, obj, empty, get, get_or, has, find, is_str}

available_unless :
    (name : String) (h agents : Dict)
    → get_or "agents" (obj empty) h ≡ obj agents
    → has name agents ≡ true
    → is_name_available_on_host name h ≡ ok false
unfolding is_name_available_on_host holds_key
available_unless name h agents g t = rw g (rw t refl)

available-absent :
    (name : String) (h agents : Dict)
    → get_or "agents" (obj empty) h ≡ obj agents
    → is_name_available_on_host name h ≡ ok true
    → find name agents ≡ none
available-absent name h agents g e = elim (Option-cases (find name agents)) [
  | inl n ↦ n
  | inr v ↦ let taken = available_unless name h agents g (has_of_find name v.0 agents v.1) in cc
]

first_available-absent :
    (generated : List String) (name : String) (h agents : Dict)
    → get_or "agents" (obj empty) h ≡ obj agents
    → first_available h generated ≡ ok name
    → find name agents ≡ none
unfolding first_available
first_available-absent [] name h agents g e = ground arith
first_available-absent (candidate ∷ more) name h agents g e =
    let step =
      >>=-eq-ok (is_name_available_on_host candidate h)
        (λ free. if free then ok candidate else first_available h more) e in
    elim (Bool-cases step.0) [
      | inl t ↦
          let chosen : ok candidate ≡ ok name = rw t at step.2 in
          subst (λ n. find n agents ≡ none) (ok-injective _ _ chosen)
            (available-absent candidate h agents g (step.1 ∙ ap ok t))
      | inr f ↦ first_available-absent more name h agents g (rw f at step.2)
    ]

may_replace-status :
    (name n : String) (v : Json)
    → may_replace name v ≡ ok n
    → (name ≡ n)
      × (a : Dict) × (v ≡ obj a)
      × ((is_str (get "status" a) "installed" || is_str (get "status" a) "failed") ≡ true)
unfolding may_replace
may_replace-status name n (obj a) e =
    elim (Bool-cases (is_str (get "status" a) "installed" || is_str (get "status" a) "failed")) [
      | inl t ↦ (ok-injective _ _ (sym (rw t refl) ∙ e), a, refl, t)
      | inr f ↦ ground arith
    ]
may_replace-status name n v e = ground arith

replaced_of :
    (name n : String) (h agents : Dict)
    → get_or "agents" (obj empty) h ≡ obj agents
    → (do d ← as_dict (get_or "agents" (obj empty) h); may_replace name (get name d)) ≡ ok n
    → may_replace name (get name agents) ≡ ok n
unfolding as_dict
replaced_of name n h agents g e = rw g at e

-- Given a dict of agents, and no resumption: where the host has an agent of the name that is
-- chosen, the caller has asked for this name, and the agent is installed or its installation has
-- failed. An installation that is under way, and an agent that the caller did not name, are never
-- replaced.
pub choose_name_lem :
    (generated : List String) (name : Option String) (n : String) (h agents : Dict) (v : Json)
    → get_or "agents" (obj empty) h ≡ obj agents
    → choose_name generated name false h ≡ ok n
    → find n agents ≡ some v
    → (name ≡ some n)
      × (a : Dict) × (v ≡ obj a)
      × ((is_str (get "status" a) "installed" || is_str (get "status" a) "failed") ≡ true)
unfolding choose_name
choose_name_lem generated none n h agents v g e f =
    let absent = first_available-absent generated n h agents g e in ground arith
choose_name_lem generated (some name) n h agents v g e f =
    let step =
      >>=-eq-ok (is_name_available_on_host name h)
        (λ free. if free then ok name else (do
          agents ← as_dict (get_or "agents" (obj empty) h)
          may_replace name (get name agents)))
        e in
    elim (Bool-cases step.0) [
      | inl t ↦
          let chosen : ok name ≡ ok n = rw t at step.2 in
          let absent = available-absent name h agents g (step.1 ∙ ap ok t) in
          let same = ok-injective _ _ chosen in cc
      | inr b ↦
          let replaced : may_replace name (get name agents) ≡ ok n =
            replaced_of name n h agents g (rw b at step.2) in
          let status = may_replace-status name n (get name agents) replaced in
          (
            ap some status.0,
            status.1,
            sym (get_of_find name v agents (subst (λ m. find m agents ≡ some v) (sym status.0) f))
                ∙ status.2,
            status.3,
          )
    ]
