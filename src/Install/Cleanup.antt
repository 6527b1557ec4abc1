-- ===== src/Install/Cleanup.antt =====
-- After the cleanup of the incomplete installations there is none.
use clawrium.Install.Search.{others, incomplete_agents-pop}
use clawrium.Json.Laws.{
  get_of_find, has_of_find, get_or_of_find, find-put_self, pop_of_absent, find-pop,
}
use clawrium.Json.Subscript.{mapping, holds_key}
use clawrium.Install.Records.{
  incomplete_in, cleanup_agents, get_incomplete_installation_details, Incomplete, incomplete_agents,
  agent_keys_to_remove, remove_keys,
}
use clawrium.Prelude.{
  eq_refl, ◌||◌, some, all, String, Bool, true, false, not, List, [], ◌∷◌, ◌==◌, map, keep,
  contains, ◌≡◌, refl, ap, sym, ◌∙◌, inl, inr, Bool-cases, ok, eq_iff, arith,
}
use clawrium.Json.{put, Json, Dict, obj, empty, pop, has, find}

-- The installations whose keys are none of these.
abbrev without : List String → List Incomplete → List Incomplete
without [] found = found
without (k ∷ ks) found = without ks (others k found)

or_left : (a b : Bool) → (a || b) ≡ false → a ≡ false
or_left a b e = ground arith

or_right : (a b : Bool) → (a || b) ≡ false → b ≡ false
or_right a b e = ground arith

absent-pop : (k : String) (d : Dict) → has k d ≡ false → pop k d ≡ d
unfolding has
absent-pop k d h = pop_of_absent k d (ground arith)

find-pop_other : (k j : String) (d : Dict) → (k == j) ≡ false → find j (pop k d) ≡ find j d
find-pop_other k j d h = find-pop k j d ∙ rw h refl

-- The agents without the keys: their installations, and the agents that stay.
record Cleaned (claw_name : String) (ks : List String) (d : Dict) (found : List Incomplete)
    : Type 0 where
  left : Dict
  removed : remove_keys ks (obj d) ≡ ok (obj left)
  incomplete : incomplete_agents claw_name left ≡ ok (without ks found)
  same : (j : String) → contains ks j ≡ false → find j left ≡ find j d

remove_keys-Cleaned :
    (claw_name : String) (ks : List String) (d : Dict) (found : List Incomplete)
    → incomplete_agents claw_name d ≡ ok found
    → Cleaned claw_name ks d found
unfolding remove_keys holds_key mapping
remove_keys-Cleaned claw_name [] d found h = record {
  left = d;
  removed = refl;
  incomplete = h;
  same = λ j n. refl;
}
remove_keys-Cleaned claw_name (k ∷ ks) d found h =
    let popped = incomplete_agents-pop claw_name k d found h in
    let rest = remove_keys-Cleaned claw_name ks (pop k d) (others k found) popped in
    record {
      left = rest.left;
      removed = elim (Bool-cases (has k d)) [
        | inl t ↦ rw t rest.removed
        | inr f ↦ rw f (ap (λ e. remove_keys ks (obj e)) (sym (absent-pop k d f)) ∙ rest.removed)
      ];
      incomplete = rest.incomplete;
      same =
          λ j n. rest.same j (or_right (k == j) _ n) ∙ find-pop_other k j d (or_left (k == j) _ n);
    }

all-others :
    (k : String) (ks : List String) (found : List Incomplete)
    → all (λ i. contains (k ∷ ks) i.agent_name) found ≡ true
    → all (λ i. contains ks i.agent_name) (others k found) ≡ true
all-others k ks [] h = refl
all-others k ks (i ∷ more) h =
    ground (arith, eq_iff k i.agent_name, eq_iff i.agent_name k, all-others k ks more)

-- `without` leaves nothing if every installation has one of the keys.
without-all :
    (ks : List String) (found : List Incomplete)
    → all (λ i. contains ks i.agent_name) found ≡ true
    → without ks found ≡ []
without-all [] [] h = refl
without-all [] (i ∷ more) h = cc
without-all (k ∷ ks) found h = without-all ks (others k found) (all-others k ks found h)

all-more :
    (k : String) (ks : List String) (found : List Incomplete)
    → all (λ i. contains ks i.agent_name) found ≡ true
    → all (λ i. contains (k ∷ ks) i.agent_name) found ≡ true
all-more k ks [] h = refl
all-more k ks (i ∷ more) h = ground (arith, all-more k ks more)

-- Every installation has its name.
all-names :
    (found : List Incomplete)
    → all (λ i. contains (map (λ i. i.agent_name) found) i.agent_name) found ≡ true
all-names [] = refl
all-names (i ∷ more) =
    rw (eq_refl i.agent_name)
      (all-more i.agent_name (map (λ i. i.agent_name) more) more (all-names more))

keep-of_absent : (ks : List String) → contains ks "" ≡ false → keep (λ k. not (k == "")) ks ≡ ks
keep-of_absent [] h = refl
keep-of_absent (k ∷ ks) h = ground (arith, keep-of_absent ks)

agent_keys_to_remove-eq :
    (found : List Incomplete)
    → contains (map (λ i. i.agent_name) found) "" ≡ false
    → agent_keys_to_remove found ≡ map (λ i. i.agent_name) found
unfolding agent_keys_to_remove
agent_keys_to_remove-eq found h = keep-of_absent _ h

without-agent_keys_to_remove :
    (found : List Incomplete)
    → contains (map (λ i. i.agent_name) found) "" ≡ false
    → without (agent_keys_to_remove found) found ≡ []
without-agent_keys_to_remove found h =
    rw (agent_keys_to_remove-eq found h) (without-all _ found (all-names found))

pub get_incomplete-found :
    (claw_name : String) (h agents : Dict)
    → find "agents" h ≡ some (obj agents)
    → get_incomplete_installation_details h claw_name ≡ incomplete_agents claw_name agents
unfolding get_incomplete_installation_details incomplete_in
get_incomplete-found claw_name h agents a =
    ap (incomplete_in claw_name) (get_or_of_find "agents" (obj empty) (obj agents) h a)

cleanup_agents-found :
    (ks : List String) (h : Dict) (v w : Json)
    → find "agents" h ≡ some v
    → remove_keys ks v ≡ ok w
    → cleanup_agents ks h ≡ ok (put "agents" w h)
unfolding cleanup_agents
cleanup_agents-found ks h v w a r =
    rw (has_of_find "agents" v h a) (rw (get_of_find "agents" v h a) (rw r refl))

-- Given a dict of agents, whose incomplete installations of a type have names that are not empty:
-- the cleanup succeeds, the type then has no incomplete installation, and every agent that was not
-- one of them is as it was.
pub cleanup_agents_lem :
    (claw_name : String) (h agents : Dict) (found : List Incomplete)
    → find "agents" h ≡ some (obj agents)
    → get_incomplete_installation_details h claw_name ≡ ok found
    → contains (map (λ i. i.agent_name) found) "" ≡ false
    → (agents1 : Dict) × (cleanup_agents (agent_keys_to_remove found) h
        ≡ ok (put "agents" (obj agents1) h))
      × (get_incomplete_installation_details (put "agents" (obj agents1) h) claw_name ≡ ok [])
      × ((j : String)
          → contains (map (λ i. i.agent_name) found) j ≡ false
          → find j agents1 ≡ find j agents)
cleanup_agents_lem claw_name h agents found a f n =
    let ks = agent_keys_to_remove found in
    let cleaned =
      remove_keys-Cleaned claw_name ks agents found
        (sym (get_incomplete-found claw_name h agents a) ∙ f) in
    (
      cleaned.left,
      cleanup_agents-found ks h (obj agents) _ a cleaned.removed,
      get_incomplete-found claw_name (put "agents" (obj cleaned.left) h) cleaned.left
            (find-put_self "agents" (obj cleaned.left) h)
          ∙ cleaned.incomplete
          ∙ ap ok (without-agent_keys_to_remove found n),
      λ j m. cleaned.same j (rw (agent_keys_to_remove-eq found n) m),
    )
