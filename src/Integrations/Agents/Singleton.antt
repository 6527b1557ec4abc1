-- ===== src/Integrations/Agents/Singleton.antt =====
-- At most one integration of a singleton type, and what a later reading finds.
use clawrium.Prelude.{
  ◌≡◌, ap, ◌∙◌, sym, String, true, false, Option, none, some, List, Result, ok, inl, inr,
  Bool-cases, >>=-eq-ok, ok-injective,
}
use clawrium.Json.{Json, Items, Dict, str, arr, nil, cons, get_or, put}
use clawrium.Json.Equality.{py_eq}
use clawrium.Json.Lists.{has_item, append_item}
use clawrium.Hosts.Agents.Edit.{list_or_empty}
use clawrium.Integrations.Agents.{
  Attempt, skipped, refused, attached, hashable, in_map, type_of, conflicts, is_singleton,
  all_hashable, check_singleton, attach_integration,
}

-- The names that the agent's record holds.
abbrev pub integrations_in : Dict → Items
integrations_in agent = list_or_empty (get_or "integrations" (arr nil) agent)

-- No name of the list leads to an integration of the type.
abbrev pub IsFreeOf : Json → List Dict → Items → Type 0
IsFreeOf target_type is nil = Unit
IsFreeOf target_type is (cons x xs) =
    (py_eq (type_of (in_map x is)) target_type ≡ false) × IsFreeOf target_type is xs

conflicts-IsFreeOf :
    (target_type : Json) (is : List Dict) (xs : Items)
    → conflicts target_type is xs ≡ ok false
    → IsFreeOf target_type is xs
unfolding conflicts
conflicts-IsFreeOf target_type is nil e = tt
conflicts-IsFreeOf target_type is (cons x xs) e =
    let (u, e1, e2) = >>=-eq-ok (hashable x) _ e in
    elim (Bool-cases (py_eq (type_of (in_map x is)) target_type)) [
      | inl t ↦ let e' = rw t at e2 in cc
      | inr f ↦ (f, conflicts-IsFreeOf target_type is xs (rw f at e2))
    ]

pub check_singleton-IsFreeOf :
    (loaded : Result (List Dict)) (is : List Dict) (xs : Items)
    → loaded ≡ ok is
    → check_singleton (str "git") loaded xs ≡ ok false
    → IsFreeOf (str "git") is xs
unfolding check_singleton is_singleton
check_singleton-IsFreeOf loaded is xs l e =
    let e' = rw l at e in
    let (u, e1, e2) = >>=-eq-ok (all_hashable is) _ e' in conflicts-IsFreeOf (str "git") is xs e2

-- What the updater does to the record of the agent.
pub data Attached (target_type : Json) (loaded : Result (List Dict)) (name : String) (agent : Dict)
    : Attempt → Option Dict → Type 0 where
  as_before :
      has_item name (integrations_in agent) ≡ true
      → Attached target_type loaded name agent skipped none
  in_conflict : Attached target_type loaded name agent refused none
  added :
      has_item name (integrations_in agent) ≡ false
      → check_singleton target_type loaded (integrations_in agent) ≡ ok false
      → Attached target_type loaded name agent attached
          (some (put "integrations" (arr (append_item (str name) (integrations_in agent))) agent))

pub attach_integration-Attached :
    (target_type : Json) (loaded : Result (List Dict)) (name : String) (agent : Dict) (t : Attempt)
    (m : Option Dict)
    → attach_integration target_type loaded name agent ≡ ok (t, m)
    → Attached target_type loaded name agent t m
unfolding attach_integration
attach_integration-Attached target_type loaded name agent t m e =
    elim (Bool-cases (has_item name (integrations_in agent))) [
      | inl y ↦
          let q = ok-injective _ _ (rw y at e) in
          rw
            (
              sym (ap (λ (p : Attempt × Option Dict). p.0) q),
              sym (ap (λ (p : Attempt × Option Dict). p.1) q),
            )
            (Attached.as_before y)
      | inr n ↦
          let (b, e1, e2) =
            >>=-eq-ok (check_singleton target_type loaded (integrations_in agent)) _ (rw n at e) in
          elim (Bool-cases b) [
            | inl y ↦
                let q = ok-injective _ _ (rw y at e2) in
                rw
                  (
                    sym (ap (λ (p : Attempt × Option Dict). p.0) q),
                    sym (ap (λ (p : Attempt × Option Dict). p.1) q),
                  )
                  Attached.in_conflict
            | inr f ↦
                let q = ok-injective _ _ (rw f at e2) in
                rw
                  (
                    sym (ap (λ (p : Attempt × Option Dict). p.0) q),
                    sym (ap (λ (p : Attempt × Option Dict). p.1) q),
                  )
                  (Attached.added n (e1 ∙ ap ok f))
          ]
    ]
