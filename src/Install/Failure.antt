-- ===== src/Install/Failure.antt =====
-- A failed installation is recorded so that the next one finds it, with its attachments.
use clawrium.Json.Subscript.{mapping, holds_key}
use clawrium.Json.Laws.{get_or_of_find, get_of_find, find-put_self, find-put}
use clawrium.Json.Laws.{DistinctKeys}
use clawrium.Install.Search.{incomplete_agents-finds}
use clawrium.Install.Records.{
  preserve, Incomplete, is_incomplete, incomplete_agents, restore, fresh_record, failed_record,
  set_failed,
}
use clawrium.Prelude.{
  ◌≢◌, String, true, false, Option, none, some, List, [], ◌∷◌, map, contains, ◌==◌, ◌≡◌, refl, ap,
  sym, ◌∙◌, inl, inr, Bool-cases, eq_iff, eq_refl, ok, arith, if◌then◌else◌,
}
use clawrium.Json.{Json, Dict, null, obj, str, empty, entry, get, get_or, put, has, find, is_str}

-- A preserved value that is not null stands over the one of the record.
abbrev over : Option Json → Option Json → Option Json
over none old = old
over (some null) old = old
over (some v) old = some v

distinct-find : (j k : String) (d : Dict) → (j == k) ≡ true → find j d ≡ none → find k d ≡ none
distinct-find j k d e h = ap (λ i. find i d) (sym ((eq_iff j k).0 e)) ∙ h

find-restore :
    (k : String) (preserved agent : Dict)
    → DistinctKeys preserved
    → find k (restore preserved agent) ≡ over (find k preserved) (find k agent)
unfolding find restore
find-restore k empty agent u = refl
find-restore k (entry j null more) agent u = elim (Bool-cases (j == k)) [
  | inl e ↦ rw e (find-restore k more agent u.1 ∙ rw (distinct-find j k more e u.0) refl)
  | inr e ↦ rw e (find-restore k more agent u.1)
]
find-restore k (entry j v more) agent u =
    let rest = find-restore k more (put j v agent) u.1 in
    elim (Bool-cases (j == k)) [
      | inl e ↦ rw e (rest ∙ rw (distinct-find j k more e u.0) (find-put j k v agent ∙ rw e refl))
      | inr e ↦ rw e (rest ∙ ap (over (find k more)) (find-put j k v agent ∙ rw e refl))
    ]

preserve-DistinctKeys : (existing : Dict) → DistinctKeys (preserve existing)
unfolding preserve find
preserve-DistinctKeys existing = (refl, (refl, (refl, (refl, tt))))

chosen_record :
    (name : String) (default : Json) (agents : Dict)
    → (if has name agents then get name agents else default) ≡ get_or name default agents
unfolding has get get_or
chosen_record name default agents = ground arith

set_failed-recorded :
    (name claw_name error_msg : String) (version : Json) (preserved h agents a : Dict)
    → get_or "agents" (obj empty) h ≡ obj agents
    → get_or name (obj (fresh_record claw_name version name)) agents ≡ obj a
    → set_failed name claw_name version error_msg preserved h
      ≡ ok (
          put "agents"
            (obj (put name (obj (failed_record claw_name error_msg preserved a)) agents))
            h)
unfolding set_failed holds_key mapping
set_failed-recorded name claw_name error_msg version preserved h agents a g b =
    rw g (rw (chosen_record name (obj (fresh_record claw_name version name)) agents) (rw b refl))

-- What the record of a failure holds under the keys that no attachment has.
failed_record-own :
    (claw_name error_msg k : String) (existing a : Dict)
    → find k (preserve existing) ≡ none
    → find k (failed_record claw_name error_msg (preserve existing) a) ≡ (
        if "installed_at" == k
        then some null
        else if "error" == k
        then some (str error_msg)
        else if "status" == k
        then some (str "failed")
        else if "type" == k
        then some (str claw_name)
        else find k a)
unfolding failed_record
failed_record-own claw_name error_msg k existing a n =
    find-restore k (preserve existing) _ (preserve-DistinctKeys existing)
    ∙ rw n (rw find-put (rw find-put (rw find-put (rw find-put refl))))

failed_record-incomplete :
    (claw_name error_msg : String) (existing a : Dict)
    → let r = failed_record claw_name error_msg (preserve existing) a in
      (is_str (get "type" r) claw_name ≡ true)
      × (is_incomplete (get "status" r) (get "installed_at" r) ≡ ok true)
unfolding preserve find is_str is_incomplete
failed_record-incomplete claw_name error_msg existing a =
    let kind = failed_record-own claw_name error_msg "type" existing a refl in
    let status = failed_record-own claw_name error_msg "status" existing a refl in
    (
      rw (get_of_find "type" _ _ kind) (eq_refl claw_name),
      rw (get_of_find "status" _ _ status) refl,
    )

abbrev pub attachment_keys : List String
attachment_keys = "providers" ∷ "channels" ∷ "integrations" ∷ "skills" ∷ []

find-preserve :
    (k : String) (v : Json) (existing : Dict)
    → contains attachment_keys k ≡ true
    → find k existing ≡ some v
    → find k (preserve existing) ≡ some v
unfolding preserve find
find-preserve k v existing m f =
    let g = get_of_find k v existing f in
    ground
      (arith, eq_iff "providers" k, eq_iff "channels" k, eq_iff "integrations" k, eq_iff "skills" k)

over-eq : (v : Json) (old : Option Json) → v ≢ null → over (some v) old ≡ some v
over-eq null old n = elim (n refl) [ ]
over-eq _ old n = refl

failed_record-attached :
    (claw_name error_msg : String) (existing a : Dict) (k : String) (v : Json)
    → contains attachment_keys k ≡ true
    → find k existing ≡ some v
    → v ≢ null
    → find k (failed_record claw_name error_msg (preserve existing) a) ≡ some v
unfolding failed_record
failed_record-attached claw_name error_msg existing a k v m f n =
    find-restore k (preserve existing) _ (preserve-DistinctKeys existing)
    ∙ rw (find-preserve k v existing m f) (over-eq v _ n)

-- Given a dict of agents, whose record of the agent is a dict if there is one: the failure is
-- recorded. The record has the type, the status "failed", the text of the error, and null for the
-- time of installation. The search for incomplete installations of the type, where it succeeds, finds the
-- agent; what was attached to `existing`, the record that the installation replaced, is there
-- again; and every other agent is as it was.
pub set_failed_lem :
    (name claw_name error_msg : String) (version : Json) (existing h agents a : Dict)
    → find "agents" h ≡ some (obj agents)
    → get_or name (obj (fresh_record claw_name version name)) agents ≡ obj a
    → (agents1 r : Dict) × (set_failed name claw_name version error_msg (preserve existing) h
        ≡ ok (put "agents" (obj agents1) h))
      × (find name agents1 ≡ some (obj r))
      × (find "type" r ≡ some (str claw_name))
      × (find "status" r ≡ some (str "failed"))
      × (find "error" r ≡ some (str error_msg))
      × (find "installed_at" r ≡ some null)
      × ((found : List Incomplete)
          → incomplete_agents claw_name agents1 ≡ ok found
          → contains (map (λ i. i.agent_name) found) name ≡ true)
      × ((k : String) (v : Json)
          → contains attachment_keys k ≡ true
          → find k existing ≡ some v
          → v ≢ null
          → find k r ≡ some v)
      × ((j : String) → (name == j) ≡ false → find j agents1 ≡ find j agents)
unfolding preserve find
set_failed_lem name claw_name error_msg version existing h agents a g b =
    let r = failed_record claw_name error_msg (preserve existing) a in
    let kind = failed_record-incomplete claw_name error_msg existing a in
    (
      put name (obj r) agents,
      r,
      set_failed-recorded name claw_name error_msg version (preserve existing) h agents a
          (get_or_of_find "agents" (obj empty) (obj agents) h g) b,
      find-put_self name (obj r) agents,
      failed_record-own claw_name error_msg "type" existing a refl,
      failed_record-own claw_name error_msg "status" existing a refl,
      failed_record-own claw_name error_msg "error" existing a refl,
      failed_record-own claw_name error_msg "installed_at" existing a refl,
      λ found i.
          incomplete_agents-finds claw_name name _ r found (find-put_self name (obj r) agents)
            kind.0 kind.1 i,
      failed_record-attached claw_name error_msg existing a,
      λ j n. find-put name j (obj r) agents ∙ rw n refl,
    )
