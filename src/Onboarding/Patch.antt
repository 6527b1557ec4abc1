-- ===== src/Onboarding/Patch.antt =====
-- `update_stage_metadata`: it reaches complete stages only, and leaves status, time and state alone.
use clawrium.Prelude.{
  if◌then◌else◌, ◌≡◌, refl, ap, ◌∙◌, sym, String, Bool, true, false, some, none, List, ok, arith,
  Bool-cases, Result-cases, inl, inr, >>=-eq-ok, ok-injective, ◌==◌, Option, ◌⊎◌,
}
use clawrium.Json.{Json, Dict, obj, empty, entry, find, has, get, get_or, put, as_dict, is_str}
use clawrium.Json.Laws.{find-put}
use clawrium.Json.Subscript.{mapping}
use clawrium.Config.{Config}
use clawrium.Hosts.Store.{parse_hosts, load_hosts}
use clawrium.Hosts.Registry.{get_host}
use clawrium.Hosts.Registry.Hostnames.{Unique}
use clawrium.Hosts.Agents.Edit.Found.{Resolves}
use clawrium.Onboarding.{onboarding_of, get_onboarding_state, get_claw_record}
use clawrium.Onboarding.Resolve.{get_claw_record_found, update_agent-eq-ok}
use clawrium.Onboarding.Machine.{state_of_record}
use clawrium.Onboarding.Stages.{
  check_stage, check_reserved, member, put_all, patch_stage, update_stage_metadata,
}
use clawrium.Onboarding.Records.{StageAt, with_stage, member-eq-ok, mapping-eq-ok, as_dict-eq-ok}
use clawrium.Onboarding.Completion.{agent_update, stage_update}

has_entry :
    (k j : String) (v : Json) (d : Dict) → has k (entry j v d) ≡ (if j == k then true else has k d)
unfolding has find
has_entry k j v d = ground arith

-- A key that the metadata lacks keeps its value.
find-put_all :
    (k : String) (metadata d : Dict)
    → has k metadata ≡ false
    → find k (put_all metadata d) ≡ find k d
unfolding put_all
find-put_all k empty d h = refl
find-put_all k (entry j v m) d h = elim (Bool-cases (j == k)) [
  | inl t ↦ let h' = rw (has_entry k j v m, t) at h in cc
  | inr f ↦ find-put_all k m (put j v d) (rw (has_entry k j v m, f) at h) ∙ rw (find-put, f) refl
]

there_or_empty :
    (k : String) (d o : Dict)
    → get_or k (obj empty) d ≡ obj o
    → (find k d ≡ some (obj o)) ⊎ (o ≡ empty)
unfolding get_or
there_or_empty k d o e = by_found (find k d) e
  where
    by_found :
        (v : Option Json)
        → elim v [ none ↦ obj empty | some w ↦ w ] ≡ obj o
        → (v ≡ some (obj o)) ⊎ (o ≡ empty)
    by_found none e = inr (cc)
    by_found (some w) e = inl (ap some e)

find_empty : (key : String) (w : Json) → find key empty ≡ some w → ⊥
unfolding find
find_empty key w e = cc

no_member : (key : String) (v w : Json) → v ≡ obj empty → member key v ≡ ok w → ⊥
no_member key v w e m =
    let (d, p, f) = member-eq-ok key v w m in
    let q : d ≡ empty = cc in find_empty key w (ap (find key) (sym q) ∙ f)

get_or_empty : (k : String) (v : Json) → get_or k v empty ≡ v
unfolding get_or find
get_or_empty k v = refl

patched_parts :
    (stage : String) (r o s d : Dict) (z : Json)
    → get_or "onboarding" (obj empty) r ≡ obj o
    → get_or "stages" (obj empty) o ≡ obj s
    → member stage (get_or "stages" (obj empty) o) ≡ ok z
    → z ≡ obj d
    → (find "onboarding" r ≡ some (obj o))
      × (find "stages" o ≡ some (obj s))
      × (find stage s ≡ some (obj d))
patched_parts stage r o s d z p q m t = elim (there_or_empty "onboarding" r o p) [
  | inr none_there ↦ absurd (
      no_member stage _ z
        (ap (get_or "stages" (obj empty)) none_there ∙ get_or_empty "stages" (obj empty)) m)
  | inl there ↦ elim (there_or_empty "stages" o s q) [
    | inr none_there ↦ absurd (no_member stage _ z (q ∙ ap obj none_there) m)
    | inl stages ↦
        let (s', i, f) = member-eq-ok stage (get_or "stages" (obj empty) o) z m in
        let same : s' ≡ s = cc in (there, stages, ap (find stage) (sym same) ∙ f ∙ ap some t)
  ]
]

patch_stage-eq-ok :
    (stage : String) (metadata r r' : Dict)
    → patch_stage stage metadata r ≡ ok r'
    → (x : StageAt stage r) × (is_str (get "status" x.stage_data) "complete" ≡ true)
      × (r' ≡ with_stage stage (put_all metadata x.stage_data) r x)
unfolding patch_stage
patch_stage-eq-ok stage metadata r r' e =
    let (o, p, e1) = >>=-eq-ok (as_dict (get_or "onboarding" (obj empty) r)) _ e in
    let (z, m, e2) = >>=-eq-ok (member stage (get_or "stages" (obj empty) o)) _ e1 in
    let (d, t, e3) = >>=-eq-ok (as_dict z) _ e2 in
    let (s, q, e4) = >>=-eq-ok (mapping (get_or "stages" (obj empty) o)) _ e3 in
    let (there, stages, stage_data) =
      patched_parts stage r o s d z (as_dict-eq-ok _ o p) (mapping-eq-ok _ s q) m
        (as_dict-eq-ok z d t) in
    elim (Bool-cases (is_str (get "status" d) "complete")) [
      | inr f ↦ let e' = rw f at e4 in cc
      | inl y ↦ (
        record {
          onboarding = o;
          stages = s;
          stage_data = d;
          onboarding_there = there;
          stages_there = stages;
          stage_there = stage_data;
        },
        y,
        sym (ok-injective _ _ (rw y at e4)),
      )
    ]

check_reserved-eq-ok :
    (metadata : Dict) (v : Unit {0})
    → check_reserved metadata ≡ ok v
    → (has "status" metadata ≡ false) × (has "completed_at" metadata ≡ false)
unfolding check_reserved
check_reserved-eq-ok metadata v e = ground arith

module _ (now later host claw_name stage : String) (metadata : Dict) (c : Config) (hs : List Dict)
    (e : parse_hosts now c.hosts ≡ ok hs) (u : Unique hs) (a : Resolves host claw_name hs)
    (ne : (claw_name == "") ≡ false) where
  update_stage_metadata-eq-ok :
      (b : Bool)
      → (update_stage_metadata now host claw_name stage metadata c).0 ≡ ok b
      → (has "status" metadata ≡ false)
        × (has "completed_at" metadata ≡ false)
        × (update_stage_metadata now host claw_name stage metadata c
            ≡ agent_update now later host claw_name stage c hs e u a ne
                (patch_stage stage metadata))
  unfolding update_stage_metadata get_host load_hosts
  update_stage_metadata-eq-ok b k =
      let record' =
        get_claw_record_found now host claw_name c hs a.host_data a.agents a.agent e a.found
          a.agents_there a.agent_there in
      elim (Result-cases (check_stage stage)) [
        | inr (x, p) ↦ let k' = rw p at k in cc
        | inl (v, p) ↦ elim (Result-cases (check_reserved metadata)) [
          | inr (x, r) ↦ let k' = rw (p, r) at k in cc
          | inl (y, r) ↦ elim (Result-cases (onboarding_of (some (obj a.agent)))) [
            | inr (x, q) ↦ let k' = rw (p, r, record', q) at k in cc
            | inl (w, q) ↦
                let (free, free') = check_reserved-eq-ok metadata y r in
                (free, free', rw (p, r, record', q, e, a.found) refl)
          ]
        ]
      ]

  -- A patch that does not raise, of a stage of an agent under its own key on a host that the
  -- identifier leads to, in a file of distinct hostnames: the stage was complete, the answer is
  -- `True`, and a later reading finds the record with the metadata in that stage; there the status
  -- and the time of completion, and the state of the onboarding, are as they were.
  pub update_stage_metadata_lem :
      (b : Bool)
      → (update_stage_metadata now host claw_name stage metadata c).0 ≡ ok b
      → (b ≡ true)
        × (x : StageAt stage a.agent) × (is_str (get "status" x.stage_data) "complete" ≡ true)
        × ((get_claw_record later host claw_name
              (update_stage_metadata now host claw_name stage metadata c).1).0
            ≡ ok (some (obj (with_stage stage (put_all metadata x.stage_data) a.agent x))))
        × (find "status" (put_all metadata x.stage_data) ≡ find "status" x.stage_data)
        × (find "completed_at" (put_all metadata x.stage_data) ≡ find "completed_at" x.stage_data)
        × ((get_onboarding_state later host claw_name
              (update_stage_metadata now host claw_name stage metadata c).1).0
            ≡ state_of_record a.agent)
  update_stage_metadata_lem b k =
      let (free, free', same) = update_stage_metadata-eq-ok b k in
      let l : (agent_update now later host claw_name stage c hs e u a ne
            (patch_stage stage metadata)).0
          ≡ ok b =
        rw same at k in
      let (r', ed) =
        update_agent-eq-ok now later host claw_name c hs e u a ne (patch_stage stage metadata) b
          l in
      let (x, complete, is) = patch_stage-eq-ok stage metadata a.agent r' ed in
      let (answer, record', state) =
        stage_update now later host claw_name stage c hs e u a ne (patch_stage stage metadata)
          (put_all metadata x.stage_data) x (ed ∙ ap ok is) in
      (
        ok-injective b true (sym l ∙ answer),
        x,
        complete,
        rw same record',
        find-put_all "status" metadata x.stage_data free,
        find-put_all "completed_at" metadata x.stage_data free',
        rw same state,
      )
