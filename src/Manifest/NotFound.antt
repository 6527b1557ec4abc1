-- ===== src/Manifest/NotFound.antt =====
-- The executor reports an agent that the state from before the run does not have.
use clawrium.Prelude.{
  ◌⊎◌, refl, Result, ok, err, Error, eq_iff, inr, inl, Bool-cases, ◌≡◌, ◌∙◌, sym, String, ◌<>◌,
  true, false, Option, none, some, List, [], ◌∷◌, ◌==◌, contains,
}
use clawrium.Json.{Json}
use clawrium.Config.{Config}
use clawrium.Manifest.{known_agent, ActualState, ManifestResource, ChangeSet, agents}
use clawrium.Manifest.Differ.{compute}
use clawrium.Manifest.Returns.{IsPlain, execute_apply-Returns}
use clawrium.Manifest.Executor.{
  and_then, create_hosts, install_agents, create_providers, fresh_run, Attempt, finish_apply,
  apply_rest, done, call_agents, call_agent, execute_apply,
}
use clawrium.Manifest.Steps.{Answer, Remote, Run, report_error, emit}
use Prim.Native.Char.{Char}
use Prim.Native.String.append
use clawrium.Manifest.NewAgents.{
  starts_in, compute_agents-starts_new, contains-append, contains-append_last,
}

-- The message for an agent that is not in the state.
abbrev pub not_found : String → String → String
not_found verb name =
    ("agent/" <> name)
    <> ": "
    <> ("agent '" <> name <> "' not found in fleet state; cannot " <> verb)

filled_start : (c : Char) (t s : String) → (String.◌∷◌ c t <> s == "") ≡ false
filled_start c t s = elim (Bool-cases (String.◌∷◌ c t <> s == "")) [
  | inl e ↦
      let same : String.◌∷◌ c (t <> s) ≡ "" =
        sym (λ i. append.cons c t s i) ∙ (eq_iff (String.◌∷◌ c t <> s) "").0 e in
      cc
  | inr f ↦ f
]

filled : (s : String) → ("agent '" <> s == "") ≡ false
filled s = filled_start "a" "gent '" s

-- What was reported stays reported.
report_error-keeps :
    (prefix m : String) (failure : Option String) (run : Run)
    → contains run.errors m ≡ true
    → contains (report_error prefix failure run).errors m ≡ true
unfolding report_error
report_error-keeps prefix m none run h = h
report_error-keeps prefix m (some e) run h = elim (Bool-cases (e == "")) [
  | inl t ↦ rw t h
  | inr f ↦ rw f (contains-append run.errors _ m h)
]

module _ (remote : Remote) (now : String) where
  done-keeps :
      (prefix m : String) (outcome : Option String × Config) (run : Run)
      → contains run.errors m ≡ true
      → contains (done remote now prefix outcome run).errors m ≡ true
  unfolding done
  done-keeps prefix m (failure, c) run h = report_error-keeps prefix m failure _ h

  module _ (call : Json → Json → String → Config → Answer × Config) (verb : String) where
    call_agents-keeps :
        (actual : ActualState) (names : List String) (m : String) (run : Run)
        → contains run.errors m ≡ true
        → contains (call_agents remote now call verb actual names run).errors m ≡ true
    unfolding call_agents emit
    call_agents-keeps actual [] m run h = h
    call_agents-keeps actual (x ∷ xs) m run h =
        call_agents-keeps actual xs m _ (done-keeps _ m _ _ h)

    missing-reported :
        (name : String) (run : Run)
        → contains
            (done remote now
              ("agent/" <> name)
              (call_agent remote now call verb name none run.config)
              (emit verb ("agent/" <> name) run)).errors
            (not_found verb name)
          ≡ true
    unfolding done call_agent report_error emit
    missing-reported name run = rw filled (contains-append_last run.errors (not_found verb name))

    call_agents-reported :
        (actual : ActualState) (names : List String) (name : String) (run : Run)
        → known_agent name actual.agents ≡ none
        → contains names name ≡ true
        → contains (call_agents remote now call verb actual names run).errors (not_found verb name)
          ≡ true
    unfolding call_agents
    call_agents-reported actual [] name run absent h = cc
    call_agents-reported actual (x ∷ xs) name run absent h = elim (Bool-cases (x == name)) [
      | inl t ↦
          call_agents-keeps actual xs (not_found verb name) _
            (rw ((eq_iff x name).0 t, absent) (missing-reported name run))
      | inr f ↦ call_agents-reported actual xs name _ absent (rw f at h)
    ]

  -- The run never returns without the message: an exception escapes, or the message is reported.
  abbrev pub Reports : String → Result (List String) × Run → Type 0
  Reports m outcome =
      ((x : Error) × (outcome.0 ≡ err x))
      ⊎ ((errors : List String) × (outcome.0 ≡ ok errors) × (contains errors m ≡ true))

  finish_apply-Reports :
      (doc : List ManifestResource) (cs : ChangeSet) (actual : ActualState) (name : String)
      (attempt : Attempt)
      → known_agent name actual.agents ≡ none
      → contains cs.starts name ≡ true
      → Reports (not_found "start" name) (finish_apply remote now doc cs actual attempt)
  unfolding finish_apply apply_rest
  finish_apply-Reports doc cs actual name (err x, run) absent h = inl (x, refl)
  finish_apply-Reports doc cs actual name (ok u, run) absent h = inr (
    _,
    refl,
    call_agents-keeps remote.restart_agent "restart" actual _ (not_found "start" name) _
        (call_agents-reported remote.start_agent "start" actual _ name _ absent h),
  )

  -- The run returns, and the message is reported.
  abbrev pub IsReported : String → Result (List String) × Run → Type 0
  IsReported m outcome =
      (errors : List String) × (outcome.0 ≡ ok errors) × (contains errors m ≡ true)

  returned :
      (m : String) (outcome : Result (List String) × Run) (errors : List String)
      → Reports m outcome
      → outcome.0 ≡ ok errors
      → IsReported m outcome
  returned m outcome errors (inl (x, raised)) e = let both = sym raised ∙ e in cc
  returned m outcome errors (inr reported) e = reported

  -- A manifest that declares a new agent to be started cannot be applied without an error, whatever
  -- the files are: an exception escapes, or the run returns and reports that the agent is not in the
  -- fleet, also if it has just been installed, since the executor looks in the state from before
  -- the run. No exception escapes if no host of the manifest asks for a key and every stored host
  -- has a hostname.
  pub execute_apply-new_agent :
      (doc : List ManifestResource) (actual : ActualState) (name : String) (c : Config)
      → known_agent name actual.agents ≡ none
      → starts_in name (agents doc) ≡ true
      → Reports
          (not_found "start" name)
          (execute_apply remote now doc (compute doc actual false) actual false c)
        × (IsPlain doc actual
            → IsReported
                (not_found "start" name)
                (execute_apply remote now doc (compute doc actual false) actual false c))
  unfolding execute_apply compute
  execute_apply-new_agent doc actual name c absent h =
      let reports =
        finish_apply-Reports doc (compute doc actual false) actual name
          (and_then (create_hosts remote now doc (compute doc actual false).creates (fresh_run c))
            (λ run.
              install_agents remote now doc actual (compute doc actual false).creates
                (create_providers remote now doc (compute doc actual false).creates run)))
          absent (compute_agents-starts_new (agents doc) actual name _ absent h) in
      (
        reports,
        λ plain.
            let ended =
              execute_apply-Returns remote now doc (compute doc actual false) actual c plain in
            returned (not_found "start" name)
              (execute_apply remote now doc (compute doc actual false) actual false c) ended.0
              reports ended.1,
      )
