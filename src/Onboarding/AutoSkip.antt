-- ===== src/Onboarding/AutoSkip.antt =====
-- When the manifest of an agent type skips the whole onboarding, apart from the code that reads it.
use clawrium.Onboarding.Records.{as_dict-eq-ok}
use clawrium.Prelude.{
  ◌≡◌, refl, ap, sym, ◌∙◌, ◌⊎◌, inl, inr, String, true, false, some, List, [], ◌∷◌, All, Result, ok,
  err, Bool-cases, Result-cases, >>=-eq-ok, ok-injective, arith, if◌then◌else◌,
}
use clawrium.Json.{
  get_or, Json, Dict, null, bool, str, obj, empty, entry, find, get, truthy, as_dict,
}
use clawrium.Json.Laws.{get_of_find}
use clawrium.Onboarding.Stages.{
  or_empty, is_true, skips, skip_all, manifest_stages, stage_names, auto_skipped, agent_type_of,
}

-- `auto_skip: true` in the section of a stage.
abbrev pub Skips : Dict → String → Type 0
Skips stages s =
    (d : Dict) × (find s stages ≡ some (obj d)) × (find "auto_skip" d ≡ some (bool true))

-- The manifest is there, and it has the section of every stage, each with `auto_skip: true`.
abbrev pub SkipsAll : Result Dict → Type 0
SkipsAll manifest =
    (m o stages : Dict) × (manifest ≡ ok m)
    × (find "onboarding" m ≡ some (obj o))
    × (find "stages" o ≡ some (obj stages))
    × Skips stages "providers"
    × Skips stages "identity"
    × Skips stages "channels"
    × Skips stages "validate"

-- The type whose manifest counts: the stored one, or else the name of the agent.
abbrev pub IsTypeOf : String → Dict → Json → Type 0
IsTypeOf claw_name agent t =
    ((find "type" agent ≡ some t) × (truthy t ≡ true))
    ⊎ ((truthy (get "type" agent) ≡ false) × (t ≡ str claw_name))

found_truthy : (k : String) (d : Dict) → truthy (get k d) ≡ true → find k d ≡ some (get k d)
unfolding get get_or truthy
found_truthy k d t = ground arith

found_as : (k : String) (d : Dict) (v : Json) → get k d ≡ v → truthy v ≡ true → find k d ≡ some v
found_as k d v e t = found_truthy k d (ap truthy e ∙ t) ∙ ap some e

pub agent_type :
    (claw_name : String) (agent : Dict)
    → IsTypeOf claw_name agent (agent_type_of claw_name (obj agent))
unfolding agent_type_of
agent_type claw_name agent = elim (Bool-cases (truthy (get "type" agent))) [
  | inl t ↦ rw t (inl (found_truthy "type" agent t, t))
  | inr f ↦ rw f (inr (refl, refl))
]

-- A section that is a dict, or nothing.
as_dict-or_empty : (v : Json) (d : Dict) → as_dict (or_empty v) ≡ ok d → (v ≡ obj d) ⊎ (d ≡ empty)
unfolding as_dict or_empty
as_dict-or_empty v d e = elim (Bool-cases (truthy v)) [
  | inl t ↦ inl (as_dict-eq-ok v d (rw t at e))
  | inr f ↦ inr (ok-injective _ _ (sym (rw f at e)))
]

or_empty-obj : (d : Dict) → as_dict (or_empty (obj d)) ≡ ok d
unfolding as_dict or_empty truthy
or_empty-obj empty = refl
or_empty-obj (entry k v d) = refl

true_value : (v : Json) → is_true v ≡ true → v ≡ bool true
unfolding is_true
true_value (bool true) e = refl
true_value (bool false) e = cc
true_value null e = cc
true_value _ e = cc

not_in_empty : (k : String) → is_true (get k empty) ≡ true → ⊥
unfolding is_true get find
not_in_empty k e = cc

truthy-true : truthy (bool true) ≡ true
unfolding truthy
truthy-true = refl

-- A dict with `auto_skip: true` is not empty.
filled_section : (d : Dict) → is_true (get "auto_skip" d) ≡ true → truthy (obj d) ≡ true
unfolding truthy
filled_section empty e = absurd (not_in_empty "auto_skip" e)
filled_section (entry k v d) e = refl

section_found :
    (s : String) (stages d : Dict)
    → get s stages ≡ obj d
    → truthy (obj d) ≡ true
    → find s stages ≡ some (obj d)
section_found s stages d e t = found_as s stages (obj d) e t

Skips-of_skips : (s : String) (stages : Dict) → skips s stages ≡ ok true → Skips stages s
unfolding skips
Skips-of_skips s stages e =
    let (d, e1, e2) = >>=-eq-ok (as_dict (or_empty (get s stages))) _ e in
    let skip = ok-injective _ _ e2 in
    elim (as_dict-or_empty (get s stages) d e1) [
      | inl there ↦ (
        d,
        section_found s stages d there (filled_section d skip),
        found_as "auto_skip" d (bool true) (true_value _ skip) (truthy-true),
      )
      | inr none_there ↦
          absurd (
            not_in_empty "auto_skip"
              (ap (λ x. is_true (get "auto_skip" x)) (sym none_there) ∙ skip))
    ]

skips-of_Skips : (s : String) (stages : Dict) → Skips stages s → skips s stages ≡ ok true
unfolding skips is_true
skips-of_Skips s stages (d, there, skip) =
    rw (get_of_find s (obj d) stages there)
      (rw (or_empty-obj d) (rw (get_of_find "auto_skip" (bool true) d skip) refl))

All-of_skip_all :
    (names : List String) (stages : Dict)
    → skip_all names stages ≡ ok true
    → All (Skips stages) names
unfolding skip_all
All-of_skip_all [] stages e = tt
All-of_skip_all (s ∷ ss) stages e =
    let (t, e1, e2) =
      >>=-eq-ok (skips s stages) (λ t. if t then skip_all ss stages else ok false) e in
    elim (Bool-cases t) [
      | inl y ↦ (Skips-of_skips s stages (e1 ∙ ap ok y), All-of_skip_all ss stages (rw y at e2))
      | inr n ↦ let e3 = rw n at e2 in cc
    ]

skip_all-of_All :
    (names : List String) (stages : Dict)
    → All (Skips stages) names
    → skip_all names stages ≡ ok true
unfolding skip_all
skip_all-of_All [] stages h = refl
skip_all-of_All (s ∷ ss) stages h = rw (skips-of_Skips s stages h.0) (skip_all-of_All ss stages h.1)

filled_of_find : (k : String) (v : Json) (d : Dict) → find k d ≡ some v → truthy (obj d) ≡ true
unfolding truthy find
filled_of_find k v empty e = cc
filled_of_find k v (entry j w d) e = refl

not_filled : (d : Dict) → d ≡ empty → truthy (obj d) ≡ true → ⊥
unfolding truthy
not_filled d e t = let f = ap (λ x. truthy (obj x)) e in cc

manifest_stages-found :
    (m o stages : Dict)
    → find "onboarding" m ≡ some (obj o)
    → find "stages" o ≡ some (obj stages)
    → truthy (obj stages) ≡ true
    → manifest_stages m ≡ ok (obj stages)
unfolding manifest_stages or_empty
manifest_stages-found m o stages e f t =
    rw (get_of_find "onboarding" (obj o) m e)
      (rw (or_empty-obj o) (rw (get_of_find "stages" (obj stages) o f) (rw t refl)))

auto_skipped-of_SkipsAll : (r : Result Dict) → SkipsAll r → auto_skipped r ≡ true
unfolding auto_skipped as_dict
auto_skipped-of_SkipsAll r (m, o, stages, e, f, g, p, i, c, v) =
    let t = filled_of_find "providers" _ stages p.1 in
    rw e (
      rw (manifest_stages-found m o stages f g t, auto_skipped)
        (rw t (rw (skip_all-of_All stage_names stages (p, (i, (c, (v, tt))))) refl)))

-- What the text of `manifest_stages` can be, if all its stages are skipped.
SkipsAll-of_stages :
    (m : Dict) (v : Json)
    → manifest_stages m ≡ ok v
    → truthy v ≡ true
    → (d : Dict) → as_dict v ≡ ok d
    → All (Skips d) stage_names
    → SkipsAll (ok m)
unfolding manifest_stages
SkipsAll-of_stages m v e t d f h =
    let (o, e1, e2) = >>=-eq-ok (as_dict (or_empty (get "onboarding" m))) _ e in
    let same = ok-injective _ _ e2 in
    let filled : truthy (obj d) ≡ true = ap truthy (sym (as_dict-eq-ok v d f)) ∙ t in
    elim (as_dict-or_empty (get "stages" o) d (ap as_dict same ∙ f)) [
      | inr gone ↦ absurd (not_filled d gone filled)
      | inl there ↦
          let stages_there = found_as "stages" o (obj d) there filled in
          let full = filled_of_find "stages" (obj d) o stages_there in
          elim (as_dict-or_empty (get "onboarding" m) o e1) [
            | inr gone ↦ absurd (not_filled o gone full)
            | inl section ↦ (
              m,
              o,
              d,
              refl,
              found_as "onboarding" m (obj o) section full,
              stages_there,
              h.0,
              h.1.0,
              h.1.1.0,
              h.1.1.1.0,
            )
          ]
    ]

SkipsAll-of_auto_skipped : (r : Result Dict) → auto_skipped r ≡ true → SkipsAll r
unfolding auto_skipped
SkipsAll-of_auto_skipped (err x) e = cc
SkipsAll-of_auto_skipped (ok m) e = elim (Result-cases (manifest_stages m)) [
  | inr (x, p) ↦ let e1 = rw (p, auto_skipped) at e in cc
  | inl (v, p) ↦ elim (Bool-cases (truthy v)) [
    | inr f ↦ let e1 = rw (p, f, auto_skipped) at e in cc
    | inl t ↦ elim (Result-cases (as_dict v)) [
      | inr (x, q) ↦ let e1 = rw (p, t, q, auto_skipped) at e in cc
      | inl (d, q) ↦ elim (Result-cases (skip_all stage_names d)) [
        | inr (x, k) ↦ let e1 = rw (p, t, q, k, auto_skipped) at e in cc
        | inl (b, k) ↦
            let yes : b ≡ true = rw (p, t, q, k, auto_skipped) at e in
            SkipsAll-of_stages m v p t d q (All-of_skip_all stage_names d (k ∙ ap ok yes))
      ]
    ]
  ]
]

pub auto_skipped-cases :
    (r : Result Dict)
    → ((auto_skipped r ≡ true) × SkipsAll r) ⊎ ((auto_skipped r ≡ false) × (¬ SkipsAll r))
auto_skipped-cases r = elim (Bool-cases (auto_skipped r)) [
  | inl t ↦ inl (t, SkipsAll-of_auto_skipped r t)
  | inr f ↦ inr (f, λ h. let t = auto_skipped-of_SkipsAll r h in cc)
]
