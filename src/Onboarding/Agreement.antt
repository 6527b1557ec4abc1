-- ===== src/Onboarding/Agreement.antt =====
-- `_get_claw_record` and `_resolve_agent_key`, two searches that have to agree: the state is checked
-- on the record of the one, and written under the key of the other.
use clawrium.Prelude.{
  ◌↔◌, ◌≡◌, refl, ap, ◌∙◌, sym, String, Bool, true, false, ◌&&◌, Option, none, some, List, [], ◌∷◌,
  ◌==◌, eq_iff, eq_refl, Bool-cases, inl, inr,
}
use clawrium.Json.{Json, Dict, empty, entry, find, has, get}
use clawrium.Json.Laws.{get_of_has}
use clawrium.Hosts.Agents.{has_type, keys_where}
use clawrium.Onboarding.{
  has_name, is_record, only, resolve_in, records_where, only_record, record_in,
}

-- No key twice, as in every Python dict.
abbrev pub HasDistinctKeys : Dict → Type 0
HasDistinctKeys empty = Unit
HasDistinctKeys (entry k v d) = (find k d ≡ none) × HasDistinctKeys d

-- The value under a key, if there is a key.
abbrev pub at_key : Dict → Option String → Option Json
at_key d none = none
at_key d (some k) = find k d

-- The records are the ones under the keys.
abbrev IsPaired : Dict → List String → List Json → Type 0
IsPaired d [] [] = Unit
IsPaired d (k ∷ ks) (v ∷ vs) = (find k d ≡ some v) × IsPaired d ks vs
IsPaired d _ _ = ⊥

find-entry_later :
    (k j : String) (v w : Json) (d : Dict)
    → find j d ≡ none
    → find k d ≡ some v
    → find k (entry j w d) ≡ some v
unfolding find
find-entry_later k j v w d absent there = elim (Bool-cases (j == k)) [
  | inl t ↦
      let same : j ≡ k = (eq_iff j k).0 t in
      let no : none ≡ some v = sym absent ∙ ap (λ i. find i d) same ∙ there in cc
  | inr f ↦ rw f there
]

IsPaired-entry :
    (j : String) (w : Json) (d : Dict) (ks : List String) (vs : List Json)
    → find j d ≡ none
    → IsPaired d ks vs
    → IsPaired (entry j w d) ks vs
IsPaired-entry j w d [] [] absent h = tt
IsPaired-entry j w d [] (v ∷ vs) absent h = absurd h
IsPaired-entry j w d (k ∷ ks) [] absent h = absurd h
IsPaired-entry j w d (k ∷ ks) (v ∷ vs) absent h =
    (find-entry_later k j v w d absent h.0, IsPaired-entry j w d ks vs absent h.1)

find-entry_here : (k : String) (v : Json) (d : Dict) → find k (entry k v d) ≡ some v
unfolding find
find-entry_here k v d = rw (eq_refl k) refl

where-IsPaired :
    (p : Json → Bool) (d : Dict)
    → HasDistinctKeys d
    → IsPaired d (keys_where p d) (records_where p d)
unfolding keys_where records_where
where-IsPaired p empty h = tt
where-IsPaired p (entry k v d) h =
    let rest =
      IsPaired-entry k v d (keys_where p d) (records_where p d) h.0 (where-IsPaired p d h.1) in
    elim (Bool-cases (p v)) [ inl t ↦ rw t (find-entry_here k v d, rest) | inr f ↦ rw f rest ]

only_record-only :
    (d : Dict) (ks : List String) (vs : List Json) (k : Option String)
    → IsPaired d ks vs
    → only_record vs (at_key d k) ≡ at_key d (only ks k)
unfolding only_record only
only_record-only d [] [] k h = refl
only_record-only d [] (v ∷ vs) k h = absurd h
only_record-only d (j ∷ js) [] k h = absurd h
only_record-only d (j ∷ []) (v ∷ []) k h = sym h.0
only_record-only d (j ∷ []) (v ∷ w ∷ vs) k h = absurd h.1
only_record-only d (j ∷ i ∷ js) (v ∷ []) k h = absurd h.1
only_record-only d (j ∷ i ∷ js) (v ∷ w ∷ vs) k h = refl

first_true : (a b : Bool) → (a && b) ≡ true → a ≡ true
first_true true b e = refl
first_true false b e = e

-- A key that the search returns has a record.
abbrev IsPresent : Dict → Option String → Type 0
IsPresent d none = Unit
IsPresent d (some k) = (v : Json) × (find k d ≡ some v)

only-IsPresent :
    (d : Dict) (ks : List String) (vs : List Json) (k : Option String)
    → IsPaired d ks vs
    → IsPresent d k
    → IsPresent d (only ks k)
unfolding only
only-IsPresent d [] vs k h there = there
only-IsPresent d (j ∷ []) (v ∷ vs) k h there = (v, h.0)
only-IsPresent d (j ∷ []) [] k h there = absurd h
only-IsPresent d (j ∷ i ∷ js) vs k h there = there

resolve_in-IsPresent :
    (claw_name : String) (agents : Dict)
    → HasDistinctKeys agents
    → IsPresent agents (resolve_in claw_name agents)
unfolding resolve_in
resolve_in-IsPresent claw_name agents h =
    elim (Bool-cases (has claw_name agents && is_record (get claw_name agents))) [
      | inl t ↦ rw t (get claw_name agents, get_of_has claw_name agents (first_true _ _ t))
      | inr f ↦ rw f (
          only-IsPresent agents (keys_where (has_name claw_name) agents) _ _
            (where-IsPaired (has_name claw_name) agents h)
            (only-IsPresent agents (keys_where (has_type claw_name) agents) _ none
              (where-IsPaired (has_type claw_name) agents h) tt))
    ]

at_key-none : (d : Dict) (k : Option String) → IsPresent d k → (at_key d k ≡ none) ↔ (k ≡ none)
at_key-none d none there = (λ e. refl, λ e. refl)
at_key-none d (some k) there = (λ e. let q = there.1 in cc, λ e. cc)

record_in-at_key :
    (claw_name : String) (agents : Dict)
    → HasDistinctKeys agents
    → record_in claw_name agents ≡ at_key agents (resolve_in claw_name agents)
unfolding record_in resolve_in
record_in-at_key claw_name agents h =
    elim (Bool-cases (has claw_name agents && is_record (get claw_name agents))) [
      | inl t ↦ rw t (sym (get_of_has claw_name agents (first_true _ _ t)))
      | inr f ↦ rw f (
          ap (only_record (records_where (has_name claw_name) agents)) (
            only_record-only agents (keys_where (has_type claw_name) agents) _ none
              (where-IsPaired (has_type claw_name) agents h))
          ∙ only_record-only agents (keys_where (has_name claw_name) agents) _
              (only (keys_where (has_type claw_name) agents) none)
              (where-IsPaired (has_name claw_name) agents h))
    ]

-- In a dict of distinct keys, the record that `_get_claw_record` finds for a name is the one under
-- the key that `_resolve_agent_key` finds for it, and the one finds none exactly if the other does.
pub record_in-resolve_in :
    (claw_name : String) (agents : Dict)
    → HasDistinctKeys agents
    → (record_in claw_name agents ≡ at_key agents (resolve_in claw_name agents))
      × ((record_in claw_name agents ≡ none) ↔ (resolve_in claw_name agents ≡ none))
record_in-resolve_in claw_name agents h =
    let same = record_in-at_key claw_name agents h in
    let both = at_key-none agents _ (resolve_in-IsPresent claw_name agents h) in
    (same, (λ e. both.0 (sym same ∙ e), λ e. same ∙ both.1 e))
