-- ===== src/Onboarding/Completed.antt =====
-- Which stage may be completed, and what `complete_stage` writes to it, apart from the code.
use clawrium.Prelude.{
  Option, none, [], ◌∷◌, ◌⊎◌, arith, eq_iff, if◌then◌else◌, ◌≡◌, refl, ap, ◌∙◌, sym, String, true,
  some, ok, Result, contains, Bool-cases, inl, inr, ◌==◌,
}
use clawrium.Json.{Json, Dict, str, empty, entry, find, put}
use clawrium.Json.Laws.{find-put, DistinctKeys}
use clawrium.Onboarding.{
  OnboardingState, pending, providers, identity, channels, validate, ready, StageStatus,
  stage_pending, status_value, stage_complete, stage_skipped,
}
use clawrium.Onboarding.Stages.{completable, completed, put_all}

-- Which stage may be completed in which state: its own, the first one from the start, and any one
-- when all is ready.
abbrev pub MayComplete : OnboardingState → String → Type 0
MayComplete pending stage = stage ≡ "providers"
MayComplete providers stage = stage ≡ "providers"
MayComplete identity stage = stage ≡ "identity"
MayComplete channels stage = stage ≡ "channels"
MayComplete validate stage = stage ≡ "validate"
MayComplete ready stage =
    (stage ≡ "providers") ⊎ (stage ≡ "identity") ⊎ (stage ≡ "channels") ⊎ (stage ≡ "validate")

-- The stage may be completed in the state that the agent is in, or it is skipped.
abbrev pub IsCompletable : String → StageStatus → Result OnboardingState → Type 0
IsCompletable stage stage_skipped state = Unit
IsCompletable stage _ state = (s : OnboardingState) × (state ≡ ok s) × MayComplete s stage

-- The word that a status is stored as.
abbrev pub status_word : StageStatus → String
status_word stage_pending = "pending"
status_word stage_complete = "complete"
status_word stage_skipped = "skipped"

-- The first of two values that is there.
abbrev found_or : Option Json → Option Json → Option Json
found_or (some v) old = some v
found_or none old = old

-- What the completed stage has under a key: what the metadata has, or else the status and the time,
-- or what was there before.
abbrev pub completed_field : String → StageStatus → Dict → Dict → String → Option Json
completed_field now status metadata before k = found_or (find k metadata) (
    if "completed_at" == k
    then some (str now)
    else if "status" == k
    then some (str (status_word status))
    else find k before)

only_name : (stage name : String) → contains (name ∷ []) stage ≡ true → stage ≡ name
only_name stage name h = ground (arith, eq_iff name stage)

pub MayComplete-of_completable :
    (s : OnboardingState) (stage : String)
    → contains (completable s) stage ≡ true
    → MayComplete s stage
unfolding completable
MayComplete-of_completable pending stage h = only_name stage "providers" h
MayComplete-of_completable providers stage h = only_name stage "providers" h
MayComplete-of_completable identity stage h = only_name stage "identity" h
MayComplete-of_completable channels stage h = only_name stage "channels" h
MayComplete-of_completable validate stage h = only_name stage "validate" h
MayComplete-of_completable ready stage h = ground (
  arith,
  eq_iff "providers" stage,
  eq_iff "identity" stage,
  eq_iff "channels" stage,
  eq_iff "validate" stage,
)

-- The metadata stands over what was there.
find-put_all :
    (k : String) (metadata d : Dict)
    → DistinctKeys metadata
    → find k (put_all metadata d) ≡ found_or (find k metadata) (find k d)
unfolding put_all find
find-put_all k empty d u = refl
find-put_all k (entry j v m) d u =
    let rest = find-put_all k m (put j v d) u.1 in
    elim (Bool-cases (j == k)) [
      | inl t ↦
          let absent : find k m ≡ none = ap (λ i. find i m) (sym ((eq_iff j k).0 t)) ∙ u.0 in
          rw t (rest ∙ rw absent (find-put j k v d ∙ rw t refl))
      | inr f ↦ rw f (rest ∙ ap (found_or (find k m)) (find-put j k v d ∙ rw f refl))
    ]

status_word-eq : (status : StageStatus) → status_value status ≡ status_word status
unfolding status_value
status_word-eq stage_pending = refl
status_word-eq stage_complete = refl
status_word-eq stage_skipped = refl

pub find-completed :
    (now : String) (status : StageStatus) (metadata d : Dict) (k : String)
    → DistinctKeys metadata
    → find k (completed now status metadata d) ≡ completed_field now status metadata d k
unfolding completed
find-completed now status metadata d k u =
    find-put_all k metadata _ u
    ∙ ap (found_or (find k metadata)) (rw find-put (rw find-put (rw (status_word-eq status) refl)))
