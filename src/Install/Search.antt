-- ===== src/Install/Search.antt =====
-- What the search of core/install.py for incomplete installations finds.
use mathlib.Core.Path.{subst}
use clawrium.Prelude.{
  refl, ok-injective, ◌∙◌, sym, inr, ap, Bool-cases, inl, err, ◌⊎◌, arith, ◌||◌, ok, map, Bool,
  some, false, not, true, ◌∷◌, ◌==◌, contains, ◌≡◌, keep, Result, String, List,
}
use clawrium.Json.{empty, entry, obj, get, is_str, Dict, pop, find}
use clawrium.Install.Records.{is_incomplete, Incomplete, details, incomplete_agents, add_incomplete}

-- The installations with another key.
abbrev pub others : String → List Incomplete → List Incomplete
others k found = keep (λ i. not (i.agent_name == k)) found

-- An agent adds its installation to those that follow it, or nothing.
abbrev Adds : String → String → Dict → List Incomplete → List Incomplete → Type 0
Adds claw_name j a xs found =
    ((found ≡ xs) × ((r : List Incomplete) → add_incomplete claw_name j a (ok r) ≡ ok r))
    ⊎ ((found ≡ details j a ∷ xs)
        × ((r : List Incomplete) → add_incomplete claw_name j a (ok r) ≡ ok (details j a ∷ r)))

add_incomplete-flag :
    (claw_name j : String) (a : Dict) (xs found : List Incomplete) (flag : Result Bool)
    → is_incomplete (get "status" a) (get "installed_at" a) ≡ flag
    → is_str (get "type" a) claw_name ≡ true
    → add_incomplete claw_name j a (ok xs) ≡ ok found
    → Adds claw_name j a xs found
unfolding add_incomplete
add_incomplete-flag claw_name j a xs found (err e) f t h = ground arith
add_incomplete-flag claw_name j a xs found (ok true) f t h =
    inr (ok-injective _ _ (sym h ∙ rw t (rw f refl)), λ r. rw t (rw f refl))
add_incomplete-flag claw_name j a xs found (ok false) f t h =
    inl (ok-injective _ _ (sym h ∙ rw t (rw f refl)), λ r. rw t (rw f refl))

add_incomplete-Adds :
    (claw_name j : String) (a : Dict) (rest : Result (List Incomplete)) (found : List Incomplete)
    → add_incomplete claw_name j a rest ≡ ok found
    → (xs : List Incomplete) × (rest ≡ ok xs) × Adds claw_name j a xs found
unfolding add_incomplete
add_incomplete-Adds claw_name j a (err e) found h = ground arith
add_incomplete-Adds claw_name j a (ok xs) found h = (
  xs,
  refl,
  (elim (Bool-cases (is_str (get "type" a) claw_name)) [
    | inl t ↦ add_incomplete-flag claw_name j a xs found _ refl t h
    | inr t ↦ inl (ok-injective _ _ (sym h ∙ rw t refl), λ r. rw t refl)
  ]),
)

pop-Adds :
    (claw_name k j : String) (a : Dict) (xs found : List Incomplete)
    → (j == k) ≡ true
    → Adds claw_name j a xs found
    → others k xs ≡ others k found
unfolding details
pop-Adds claw_name k j a xs found e (inl same) = ap (others k) (sym same.0)
pop-Adds claw_name k j a xs found e (inr more) = rw more.0 (rw e refl)

keep-Adds :
    (claw_name k j : String) (a : Dict) (xs found : List Incomplete)
    → (j == k) ≡ false
    → Adds claw_name j a xs found
    → add_incomplete claw_name j a (ok (others k xs)) ≡ ok (others k found)
unfolding details
keep-Adds claw_name k j a xs found e (inl same) = rw same.0 (same.1 _)
keep-Adds claw_name k j a xs found e (inr more) = rw more.0 (more.1 _ ∙ rw e refl)

-- A key that goes takes its installation along, and leaves the others.
pub incomplete_agents-pop :
    (claw_name k : String) (d : Dict) (found : List Incomplete)
    → incomplete_agents claw_name d ≡ ok found
    → incomplete_agents claw_name (pop k d) ≡ ok (others k found)
unfolding incomplete_agents pop
incomplete_agents-pop claw_name k empty found h = ground arith
incomplete_agents-pop claw_name k (entry j (obj a) more) found h =
    let split = add_incomplete-Adds claw_name j a _ found h in
    let rest = incomplete_agents-pop claw_name k more split.0 split.1 in
    elim (Bool-cases (j == k)) [
      | inl e ↦ rw e (rest ∙ ap ok (pop-Adds claw_name k j a split.0 found e split.2))
      | inr e ↦ rw e (
          ap (add_incomplete claw_name j a) rest
          ∙ keep-Adds claw_name k j a split.0 found e split.2)
    ]
incomplete_agents-pop claw_name k (entry j _ more) found h =
    ground (arith, incomplete_agents-pop claw_name k more found h)

add_incomplete-flagged :
    (claw_name j : String) (a : Dict) (xs : List Incomplete)
    → is_str (get "type" a) claw_name ≡ true
    → is_incomplete (get "status" a) (get "installed_at" a) ≡ ok true
    → add_incomplete claw_name j a (ok xs) ≡ ok (details j a ∷ xs)
unfolding add_incomplete
add_incomplete-flagged claw_name j a xs t i = rw t (rw i refl)

contains-details :
    (name j : String) (a : Dict) (xs found : List Incomplete)
    → found ≡ details j a ∷ xs
    → contains (map (λ i. i.agent_name) found) name
      ≡ (j == name || contains (map (λ i. i.agent_name) xs) name)
unfolding details
contains-details name j a xs found e = rw e refl

contains-Adds :
    (claw_name name j : String) (a : Dict) (xs found : List Incomplete)
    → Adds claw_name j a xs found
    → contains (map (λ i. i.agent_name) xs) name ≡ true
    → contains (map (λ i. i.agent_name) found) name ≡ true
contains-Adds claw_name name j a xs found (inl same) h = rw same.0 h
contains-Adds claw_name name j a xs found (inr more) h =
    contains-details name j a xs found more.0 ∙ rw h (ground arith)

-- A record that the search for incomplete installations meets.
pub incomplete_agents-finds :
    (claw_name name : String) (d a : Dict) (found : List Incomplete)
    → find name d ≡ some (obj a)
    → is_str (get "type" a) claw_name ≡ true
    → is_incomplete (get "status" a) (get "installed_at" a) ≡ ok true
    → incomplete_agents claw_name d ≡ ok found
    → contains (map (λ i. i.agent_name) found) name ≡ true
unfolding find incomplete_agents
incomplete_agents-finds claw_name name empty a found f t i h = cc
incomplete_agents-finds claw_name name (entry j (obj b) more) a found f t i h =
    let split = add_incomplete-Adds claw_name j b _ found h in
    elim (Bool-cases (j == name)) [
      | inl e ↦
          let b_a : b ≡ a = ground arith in
          let flagged = add_incomplete-flagged claw_name j a split.0 t i in
          let added : add_incomplete claw_name j a (ok split.0) ≡ ok found =
            subst (λ d. add_incomplete claw_name j d (ok split.0) ≡ ok found) b_a
              (rw split.1 at h) in
          contains-details name j a split.0 found (ok-injective _ _ (sym added ∙ flagged))
          ∙ rw e refl
      | inr e ↦
          contains-Adds claw_name name j b split.0 found split.2
            (incomplete_agents-finds claw_name name more a split.0 (rw e at f) t i split.1)
    ]
incomplete_agents-finds claw_name name (entry j _ more) a found f t i h =
    elim (Bool-cases (j == name)) [
      | inl e ↦ ground arith
      | inr e ↦ incomplete_agents-finds claw_name name more a found (rw e at f) t i h
    ]
