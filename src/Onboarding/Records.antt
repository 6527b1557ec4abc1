-- ===== src/Onboarding/Records.antt =====
-- The stages in the record of an agent: what an edit of one of them leaves.
use clawrium.Text.{codes, has_sub}
use clawrium.Json.Lists.{has_item}
use clawrium.Prelude.{
  ◌≡◌, refl, ap, ◌∙◌, sym, String, false, some, ok, arith, Bool-cases, inl, inr, >>=-eq-ok,
  ok-injective, ◌==◌,
}
use clawrium.Json.{Json, Dict, null, str, obj, arr, find, has, get, get_or, put, as_dict}
use clawrium.Json.Laws.{find-put, find-put_self, get-put, get_of_find, get_of_has}
use clawrium.Json.Subscript.{holds_key, mapping}
use clawrium.Onboarding.{state_of, onboarding_of, initialized, state_in}
use clawrium.Onboarding.Machine.{state_of_record}
use clawrium.Onboarding.Stages.{member, set_stage}

-- The data of a stage, where it stands in the record.
pub record StageAt (stage : String) (r : Dict) : Type 0 where
  pub onboarding : Dict
  pub stages : Dict
  pub stage_data : Dict
  pub onboarding_there : find "onboarding" r ≡ some (obj onboarding)
  pub stages_there : find "stages" onboarding ≡ some (obj stages)
  pub stage_there : find stage stages ≡ some (obj stage_data)

-- The record with other data of the stage.
abbrev pub with_stage : (stage : String) → Dict → (r : Dict) → StageAt stage r → Dict
with_stage stage d r x =
    put "onboarding" (obj (put "stages" (obj (put stage (obj d) x.stages)) x.onboarding)) r

pub StageAt-with_stage :
    (stage : String) (d r : Dict) (x : StageAt stage r) → StageAt stage (with_stage stage d r x)
StageAt-with_stage stage d r x = record {
  onboarding = put "stages" (obj (put stage (obj d) x.stages)) x.onboarding;
  stages = put stage (obj d) x.stages;
  stage_data = d;
  onboarding_there = find-put_self "onboarding" _ r;
  stages_there = find-put_self "stages" _ x.onboarding;
  stage_there = find-put_self stage _ x.stages;
}

pub member-eq-ok :
    (key : String) (v w : Json)
    → member key v ≡ ok w
    → (d : Dict) × (v ≡ obj d) × (find key d ≡ some w)
unfolding member holds_key mapping
member-eq-ok key (obj d) w e = elim (Bool-cases (has key d)) [
  | inl t ↦
      let q : get key d ≡ w = ok-injective _ _ (rw t at e) in
      (d, refl, get_of_has key d t ∙ ap some q)
  | inr f ↦ let e' = rw f at e in cc
]
member-eq-ok key null w e = cc
member-eq-ok key (arr xs) w e = elim (Bool-cases (has_item key xs)) [
  | inl t ↦ let e' = rw t at e in cc
  | inr f ↦ let e' = rw f at e in cc
]
member-eq-ok key (str s) w e = elim (Bool-cases (has_sub (codes key) (codes s))) [
  | inl t ↦ let e' = rw t at e in cc
  | inr f ↦ let e' = rw f at e in cc
]
member-eq-ok key _ w e = cc

pub mapping-eq-ok : (v : Json) (d : Dict) → mapping v ≡ ok d → v ≡ obj d
unfolding mapping
mapping-eq-ok (obj x) d e = ap obj (ok-injective x d e)
mapping-eq-ok null d e = cc
mapping-eq-ok _ d e = cc

get_or-put_other :
    (k j : String) (default v : Json) (d : Dict)
    → (k == j) ≡ false
    → get_or j default (put k v d) ≡ get_or j default d
unfolding get_or
get_or-put_other k j default v d ne = ground (arith, find-put k j v d)

pub state_with_stage :
    (stage : String) (d r : Dict) (x : StageAt stage r)
    → state_of_record (with_stage stage d r x) ≡ state_of_record r
unfolding onboarding_of initialized state_in as_dict
state_with_stage stage d r x =
    rw (get-put, get_of_find "onboarding" _ r x.onboarding_there)
      (ap state_of (get_or-put_other "stages" "state" (str "pending") _ x.onboarding refl))

stage_of_parts :
    (stage : String) (r : Dict) (v w z : Json) (o s d : Dict)
    → find "onboarding" r ≡ some v
    → member "stages" v ≡ ok w
    → member stage w ≡ ok z
    → v ≡ obj o
    → w ≡ obj s
    → z ≡ obj d
    → (find "onboarding" r ≡ some (obj o))
      × (find "stages" o ≡ some (obj s))
      × (find stage s ≡ some (obj d))
stage_of_parts stage r v w z o s d f m n p q t =
    let (o', p', i) = member-eq-ok "stages" v w m in
    let (s', q', j) = member-eq-ok stage w z n in
    let same_o : o' ≡ o = cc in
    let same_s : s' ≡ s = cc in
    (
      f ∙ ap some p,
      ap (find "stages") (sym same_o) ∙ i ∙ ap some q,
      ap (find stage) (sym same_s) ∙ j ∙ ap some t,
    )

pub set_stage-eq-ok :
    (stage : String) (edit : Dict → Dict) (r r' : Dict)
    → set_stage stage edit r ≡ ok r'
    → (x : StageAt stage r) × (r' ≡ with_stage stage (edit x.stage_data) r x)
unfolding set_stage
set_stage-eq-ok stage edit r r' e = elim (Bool-cases (has "onboarding" r)) [
  | inr f ↦ let e' = rw f at e in cc
  | inl t ↦
      let (w, m, e1) = >>=-eq-ok (member "stages" (get "onboarding" r)) _ (rw t at e) in
      let (z, n, e2) = >>=-eq-ok (member stage w) _ e1 in
      let (d, p, e3) = >>=-eq-ok (mapping z) _ e2 in
      let (s, q, e4) = >>=-eq-ok (mapping w) _ e3 in
      let (o, l, e5) = >>=-eq-ok (mapping (get "onboarding" r)) _ e4 in
      let (there, stages, stage_data) =
        stage_of_parts stage r (get "onboarding" r) w z o s d (get_of_has "onboarding" r t) m n
          (mapping-eq-ok _ o l) (mapping-eq-ok w s q) (mapping-eq-ok z d p) in
      (
        record {
          onboarding = o;
          stages = s;
          stage_data = d;
          onboarding_there = there;
          stages_there = stages;
          stage_there = stage_data;
        },
        sym (ok-injective _ _ e5),
      )
]

pub as_dict-eq-ok : (v : Json) (d : Dict) → as_dict v ≡ ok d → v ≡ obj d
unfolding as_dict
as_dict-eq-ok (obj x) d e = ap obj (ok-injective x d e)
as_dict-eq-ok null d e = cc
as_dict-eq-ok _ d e = cc
