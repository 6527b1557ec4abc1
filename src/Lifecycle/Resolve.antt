-- ===== src/Lifecycle/Resolve.antt =====
-- The agent that a lifecycle operation acts on is the only one it can mean.
use mathlib.Core.Path.{subst}
use clawrium.Lifecycle.{
  Found, typed, typed_record, wanted_type, with_match, matches, only_match, as_expected,
  resolve_among, resolve_agents, resolve_agent_record,
}
use clawrium.Json.Laws.{DistinctKeys}
use clawrium.Prelude.{
  String, true, Option, none, some, List, [], ◌∷◌, ◌==◌, ◌≡◌, ◌⊎◌, inl, inr, refl, sym, ap, ◌∙◌,
  eq_iff, eq_refl, Bool-cases, Option-cases, ok, arith, ok-injective,
}
use clawrium.Json.{null, Json, Dict, str, obj, empty, entry, get, get_or, find}

-- What the search keeps of an entry.
with_match-cons :
    (wanted key : String) (v : Json) (rest : List Found) (f : Found)
    → typed_record key v ≡ some f
    → (f.agent_type == wanted) ≡ true
    → with_match wanted (typed_record key v) rest ≡ f ∷ rest
unfolding with_match
with_match-cons wanted key v rest f t w = rw t (rw w refl)

typed_parts :
    (key : String) (r : Dict) (w : Json) (f : Found)
    → typed key r w ≡ some f
    → (f.agent_key ≡ key) × (r ≡ f.agent) × (w ≡ str f.agent_type)
unfolding typed
typed_parts key r (str t) f h = elim (Bool-cases (t == "")) [
  | inl e ↦ ground arith
  | inr e ↦
      let same : some (record { agent_key = key; agent_type = t; agent = r }) ≡ some f =
        rw e at h in
      let found : record { agent_key = key; agent_type = t; agent = r } ≡ f = cc in
      (sym (ap (λ x. x.agent_key) found), ap (λ x. x.agent) found, ap (λ x. str x.agent_type) found)
]
typed_parts key r null f h = cc
typed_parts key r _ f h = cc

typed_record_parts :
    (key : String) (v : Json) (f : Found)
    → typed_record key v ≡ some f
    → (f.agent_key ≡ key) × (v ≡ obj f.agent) × (get "type" f.agent ≡ str f.agent_type)
unfolding typed_record
typed_record_parts key (obj r) f t =
    let parts = typed_parts key r (get "type" r) f t in
    (parts.0, ap obj parts.1, ap (get "type") (sym parts.1) ∙ parts.2)
typed_record_parts key null f t = cc
typed_record_parts key _ f t = cc

-- An entry adds its match, or nothing.
with_match-cases :
    (wanted key : String) (v : Json) (rest found : List Found)
    → with_match wanted (typed_record key v) rest ≡ found
    → (found ≡ rest)
      ⊎ ((f : Found) × (typed_record key v ≡ some f)
          × ((f.agent_type == wanted) ≡ true)
          × (found ≡ f ∷ rest))
unfolding with_match
with_match-cases wanted key v rest found h = elim (Option-cases (typed_record key v)) [
  | inl n ↦ inl (sym (rw n at h))
  | inr t ↦ elim (Bool-cases (t.0.agent_type == wanted)) [
    | inl w ↦ inr (t.0, t.1, w, sym h ∙ with_match-cons wanted key v rest t.0 t.1 w)
    | inr w ↦ inl (sym h ∙ rw t.1 (rw w refl))
  ]
]

module _ (wanted : String) where
  -- The agent under the key is one that the search is for.
  abbrev Is : String → Dict → Type 0
  Is k d =
      (v : Json) × (f : Found) × (find k d ≡ some v)
      × (typed_record k v ≡ some f)
      × ((f.agent_type == wanted) ≡ true)

  matches-here :
      (k j : String) (v : Json) (more : Dict) (i : Is k (entry j v more))
      → (j == k) ≡ true
      → (matches wanted (entry j v more) ≡ i.1 ∷ matches wanted more) × (i.1.agent_key ≡ k)
  unfolding matches find
  matches-here k j v more i e =
      let value : v ≡ i.0 = let here : some v ≡ some i.0 = rw e at i.2 in cc in
      let same = (eq_iff j k).0 e in
      let t : typed_record j v ≡ some i.1 =
        ap (λ x. typed_record x v) same ∙ ap (typed_record k) value ∙ i.3 in
      (
        with_match-cons wanted j v (matches wanted more) i.1 t i.4,
        (typed_record_parts j v i.1 t).0 ∙ same,
      )

  matches-nil : (k : String) (d : Dict) → matches wanted d ≡ [] → ¬ Is k d
  unfolding matches find
  matches-nil k empty h i = cc
  matches-nil k (entry j v more) h i =
      elim (with_match-cases wanted j v (matches wanted more) [] h) [
        | inr c ↦ cc
        | inl none_here ↦ elim (Bool-cases (j == k)) [
          | inl e ↦ let here = matches-here k j v more i e in cc
          | inr e ↦ matches-nil k more (sym none_here) (i.0, i.1, rw e at i.2, i.3, i.4)
        ]
      ]

  matches-one :
      (k : String) (d : Dict) (m : Found) → matches wanted d ≡ m ∷ [] → Is k d → k ≡ m.agent_key
  unfolding matches find
  matches-one k empty m h i = cc
  matches-one k (entry j v more) m h i = elim (Bool-cases (j == k)) [
    | inl e ↦
        let here = matches-here k j v more i e in
        let same : i.1 ≡ m = let both = sym here.0 ∙ h in cc in
        sym here.1 ∙ ap (λ x. x.agent_key) same
    | inr e ↦
        let later : Is k more = (i.0, i.1, rw e at i.2, i.3, i.4) in
        elim (with_match-cases wanted j v (matches wanted more) (m ∷ []) h) [
          | inl c ↦ matches-one k more m (sym c) later
          | inr c ↦
              let rest : matches wanted more ≡ [] = let both = c.3 in cc in
              elim (matches-nil k more rest later) [ ]
        ]
  ]

  -- What was found is an agent of the dict, with its record and its type.
  abbrev Holds : Dict → Found → Type 0
  Holds d m =
      (find m.agent_key d ≡ some (obj m.agent))
      × (get "type" m.agent ≡ str m.agent_type)
      × ((m.agent_type == wanted) ≡ true)

  matches_sound : (d : Dict) (m : Found) → DistinctKeys d → matches wanted d ≡ m ∷ [] → Holds d m
  unfolding matches find
  matches_sound empty m u h = cc
  matches_sound (entry j v more) m u h =
      elim (with_match-cases wanted j v (matches wanted more) (m ∷ []) h) [
        | inl c ↦
            let later = matches_sound more m u.1 (sym c) in
            (
              elim (Bool-cases (j == m.agent_key)) [
                | inl e ↦
                    let absent = ap (λ x. find x more) (sym ((eq_iff j m.agent_key).0 e)) ∙ u.0 in
                    let both = sym later.0 ∙ absent in cc
                | inr e ↦ rw e later.0
              ],
              later.1,
              later.2,
            )
        | inr c ↦
            let same : c.0 ≡ m = let both = c.3 in cc in
            let parts = typed_record_parts j v c.0 c.1 in
            subst (Holds (entry j v more)) same
              (rw ((eq_iff j c.0.agent_key).1 (sym parts.0)) (ap some parts.1), parts.2, c.2)
      ]

found_of_get : (k : String) (d r : Dict) → get k d ≡ obj r → find k d ≡ some (obj r)
unfolding get get_or
found_of_get k d r h = ground arith

wanted_type_met :
    (expected : Option String) (identifier t : String)
    → (t == wanted_type expected identifier) ≡ true
    → (wanted_type expected t == t) ≡ true
unfolding wanted_type
wanted_type_met none identifier t h = eq_refl t
wanted_type_met (some e) identifier t h = ground (arith, eq_iff e t, eq_iff t e, eq_refl t)

only_match-one : (found : List Found) (f : Found) → only_match found ≡ ok (some f) → found ≡ f ∷ []
unfolding only_match
only_match-one [] f h = ground arith
only_match-one (g ∷ []) f h = ground arith
only_match-one (g ∷ k ∷ more) f h = ground arith

as_expected_parts :
    (expected : Option String) (o : Option Found) (f : Found)
    → as_expected expected o ≡ some f
    → (o ≡ some f) × ((wanted_type expected f.agent_type == f.agent_type) ≡ true)
unfolding as_expected
as_expected_parts expected none f h = cc
as_expected_parts expected (some g) f h =
    elim (Bool-cases (wanted_type expected g.agent_type == g.agent_type)) [
      | inl e ↦
          let found : some g ≡ some f = rw e at h in
          let same : g ≡ f = cc in
          (found, subst (λ x. (wanted_type expected x.agent_type == x.agent_type) ≡ true) same e)
      | inr e ↦ let none_found : none ≡ some f = rw e at h in cc
    ]

-- What a search finds: an agent with its record and its type, the type that is expected if one is;
-- and it has the key that was asked for, or it is the only agent of the wanted type.
abbrev pub Resolved : String → Option String → Dict → Found → Type 0
Resolved identifier expected agents f =
    (find f.agent_key agents ≡ some (obj f.agent))
    × (get "type" f.agent ≡ str f.agent_type)
    × ((wanted_type expected f.agent_type == f.agent_type) ≡ true)
    × ((f.agent_key ≡ identifier)
        ⊎ ((k : String) → Is (wanted_type expected identifier) k agents → k ≡ f.agent_key))

Resolved-match :
    (identifier : String) (expected : Option String) (agents : Dict) (f : Found)
    → DistinctKeys agents
    → only_match (matches (wanted_type expected identifier) agents) ≡ ok (some f)
    → Resolved identifier expected agents f
Resolved-match identifier expected agents f u h =
    let wanted = wanted_type expected identifier in
    let one = only_match-one (matches wanted agents) f h in
    let holds = matches_sound wanted agents f u one in
    (
      holds.0,
      holds.1,
      wanted_type_met expected identifier f.agent_type holds.2,
      inr (λ k i. matches-one wanted k agents f one i),
    )

Resolved-among :
    (identifier : String) (expected : Option String) (v : Json) (agents : Dict) (f : Found)
    → DistinctKeys agents
    → get identifier agents ≡ v
    → resolve_among identifier expected v agents ≡ ok (some f)
    → Resolved identifier expected agents f
unfolding resolve_among
Resolved-among identifier expected (obj direct) agents f u g h =
    let met = as_expected_parts expected _ f (ok-injective _ _ h) in
    let parts = typed_record_parts identifier (obj direct) f met.0 in
    (
      ap (λ k. find k agents) parts.0 ∙ found_of_get identifier agents direct g ∙ ap some parts.1,
      parts.2,
      met.1,
      inl parts.0,
    )
Resolved-among identifier expected null agents f u g h =
    Resolved-match identifier expected agents f u h
Resolved-among identifier expected _ agents f u g h =
    Resolved-match identifier expected agents f u h

-- Given a dict of agents, where the search returns an agent: it is in the dict with its record and
-- its type, which is the expected one if one is expected. It has the key that was asked for, or no
-- other agent has the type that is wanted: a lifecycle operation never takes one of several.
pub resolve_agent_record_lem :
    (host agents : Dict) (identifier : String) (expected : Option String) (f : Found)
    → get_or "agents" (obj empty) host ≡ obj agents
    → DistinctKeys agents
    → resolve_agent_record host identifier expected ≡ ok (some f)
    → Resolved identifier expected agents f
unfolding resolve_agent_record resolve_agents
resolve_agent_record_lem host agents identifier expected f a u h =
    Resolved-among identifier expected _ agents f u refl (rw a at h)
