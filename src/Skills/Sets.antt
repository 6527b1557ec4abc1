-- ===== src/Skills/Sets.antt =====
-- The desired skills of an agent as a finite set: `sorted(set(…))` is its normal form.
use clawrium.Prelude.{
  All-keep, eq_iff, arith, ◌≡◌, refl, ap, ◌∙◌, sym, String, Bool, true, false, not, List, [], ◌∷◌,
  ◌==◌, ◌&&◌, ◌||◌, keep, contains, ok, ok-injective, >>=-eq-ok, Bool-cases, inl, inr,
}
use clawrium.Json.{null, find, get_or, obj, nil, arr}
use clawrium.Json.Lists.{strs}
use clawrium.Config.{corrupted, missing, holds, File}
use clawrium.Text.Order.{sorted_set, IsSorted, sorted_ext, sorted_set-IsSorted, contains-sorted_set}
use clawrium.Skills.{
  check_agent_name, skill_texts, validate_skill_name, validate_skills, texts_of, skills_in,
  read_state, write_state, add_skill, remove_skill, state_of_skills,
}

validate_skill_name-eq-ok : (s t : String) → validate_skill_name s ≡ ok t → t ≡ s
unfolding validate_skill_name
validate_skill_name-eq-ok s t e = ground arith

validate_skills-eq-ok : (xs ys : List String) → validate_skills xs ≡ ok ys → ys ≡ xs
unfolding validate_skills
validate_skills-eq-ok [] ys e = sym (ok-injective _ _ e)
validate_skills-eq-ok (x ∷ xs) ys e =
    let (y, e1, e2) = >>=-eq-ok (validate_skill_name x) _ e in
    let (rest, e3, e4) = >>=-eq-ok (validate_skills xs) _ e2 in
    let head = validate_skill_name-eq-ok x y e1 in
    let tail = validate_skills-eq-ok xs rest e3 in
    sym (ok-injective _ _ e4) ∙ (λ i. head i ∷ tail i)

texts_of-strs : (xs : List String) → texts_of (strs xs) ≡ ok xs
unfolding texts_of strs
texts_of-strs [] = refl
texts_of-strs (x ∷ xs) = rw (texts_of-strs xs) refl

pub sorted_set_of_sorted : (xs : List String) → IsSorted xs → sorted_set xs ≡ xs
sorted_set_of_sorted xs h =
    sorted_ext (sorted_set xs) xs (sorted_set-IsSorted xs) h (contains-sorted_set xs)

skills_in-written :
    (xs : List String)
    → IsSorted xs
    → validate_skills xs ≡ ok xs
    → skills_in (state_of_skills xs) ≡ ok xs
unfolding skills_in skill_texts get_or find
skills_in-written xs h v = rw (texts_of-strs xs, v) (ap ok (sorted_set_of_sorted xs h))

skills_in-IsSorted : (state : File) (xs : List String) → skills_in state ≡ ok xs → IsSorted xs
unfolding skills_in
skills_in-IsSorted missing xs e = rw (sym (ok-injective _ _ e)) tt
skills_in-IsSorted corrupted xs e = cc
skills_in-IsSorted (holds (obj raw)) xs e =
    let (skills, e1, e2) = >>=-eq-ok (skill_texts (get_or "skills" (arr nil) raw)) _ e in
    let (validated, e3, e4) = >>=-eq-ok (validate_skills skills) _ e2 in
    rw (sym (ok-injective _ _ e4)) (sorted_set-IsSorted validated)
skills_in-IsSorted (holds null) xs e = cc
skills_in-IsSorted (holds _) xs e = cc

present_already :
    (name m : String) (current : List String)
    → contains current name ≡ true
    → contains current m ≡ (name == m || contains current m)
present_already name m current t = elim (Bool-cases (name == m)) [
  | inl e ↦ rw e (ap (contains current) (sym ((eq_iff name m).0 e)) ∙ t)
  | inr f ↦ rw f refl
]

absent_already :
    (name m : String) (current : List String)
    → contains current name ≡ false
    → contains current m ≡ (not (name == m) && contains current m)
absent_already name m current t = elim (Bool-cases (name == m)) [
  | inl e ↦ rw e (ap (contains current) (sym ((eq_iff name m).0 e)) ∙ t)
  | inr f ↦ rw f refl
]

contains-keep :
    (name m : String) (xs : List String)
    → contains (keep (λ s. not (s == name)) xs) m ≡ (not (name == m) && contains xs m)
contains-keep name m [] = ground arith
contains-keep name m (x ∷ xs) =
    ground (arith, contains-keep name m xs, eq_iff x name, eq_iff name m, eq_iff x m)

keep-IsSorted : (p : String → Bool) (xs : List String) → IsSorted xs → IsSorted (keep p xs)
keep-IsSorted p [] h = tt
keep-IsSorted p (x ∷ xs) h = elim (Bool-cases (p x)) [
  | inl t ↦ rw t (All-keep _ p xs h.0, keep-IsSorted p xs h.1)
  | inr f ↦ rw f (keep-IsSorted p xs h.1)
]

or_swap : (a b c : Bool) → (a || (b || c)) ≡ (b || (a || c))
or_swap true true c = refl
or_swap true false c = refl
or_swap false b c = refl

module _ (agent_name : String) where
  read_state-IsSorted :
      (state : File) (xs : List String) → read_state agent_name state ≡ ok xs → IsSorted xs
  unfolding read_state
  read_state-IsSorted state xs e =
      let (u, e1, e2) = >>=-eq-ok (check_agent_name agent_name) _ e in
      skills_in-IsSorted state xs e2

  -- What is written is what is read.
  write-read :
      (refs : List String) (w : List String × File)
      → IsSorted refs
      → write_state agent_name refs ≡ ok w
      → (w.0 ≡ refs) × (read_state agent_name w.1 ≡ ok w.0)
  unfolding write_state read_state
  write-read refs w h e =
      let (canonical, e1, e2) = >>=-eq-ok (validate_skills refs) _ e in
      let (u, e3, e4) = >>=-eq-ok (check_agent_name agent_name) _ e2 in
      let same = validate_skills-eq-ok refs canonical e1 in
      let form : sorted_set canonical ≡ refs = ap sorted_set same ∙ sorted_set_of_sorted refs h in
      let answer : ok (sorted_set canonical, state_of_skills (sorted_set canonical)) ≡ ok w = e4 in
      let valid : validate_skills refs ≡ ok refs = e1 ∙ ap ok same in
      rw (sym (ok-injective _ _ answer), form, e3) (refl, skills_in-written refs h valid)

  -- Adding a skill. The answer says whether it is new; the state that is read afterwards is the one
  -- that was answered, and as a set it has the skill and those that were there, and no other.
  pub add_skill_lem :
      (name m : String) (state : File) (current : List String) (r : (List String × Bool) × File)
      → read_state agent_name state ≡ ok current
      → add_skill agent_name name state ≡ ok r
      → (read_state agent_name r.1 ≡ ok r.0.0)
        × (r.0.1 ≡ not (contains current name))
        × (contains r.0.0 m ≡ (name == m || contains current m))
  unfolding add_skill
  add_skill_lem name m state current r before e =
      let (parsed, e1, e2) = >>=-eq-ok (validate_skill_name name) _ e in
      let same = validate_skill_name-eq-ok name parsed e1 in
      let e3 = rw (same, before) at e2 in
      elim (Bool-cases (contains current name)) [
        | inl t ↦
            let answer : ok ((current, false), state) ≡ ok r = rw t at e3 in
            rw (sym (ok-injective _ _ answer), t) (before, refl, present_already name m current t)
        | inr f ↦
            let (w, e4, e5) =
              >>=-eq-ok (write_state agent_name (sorted_set (name ∷ current))) _ (rw f at e3) in
            let (written, again) =
              write-read (sorted_set (name ∷ current)) w (sorted_set-IsSorted (name ∷ current))
                e4 in
            rw (sym (ok-injective _ _ e5), f)
              (
                again,
                refl,
                ap (λ xs. contains xs m) written ∙ contains-sorted_set (name ∷ current) m,
              )
      ]

  -- Removing a skill. The answer says whether it was there; the state that is read afterwards is the
  -- one that was answered, and has the others, and no other.
  pub remove_skill_lem :
      (name m : String) (state : File) (current : List String) (r : (List String × Bool) × File)
      → read_state agent_name state ≡ ok current
      → remove_skill agent_name name state ≡ ok r
      → (read_state agent_name r.1 ≡ ok r.0.0)
        × (r.0.1 ≡ contains current name)
        × (contains r.0.0 m ≡ (not (name == m) && contains current m))
  unfolding remove_skill
  remove_skill_lem name m state current r before e =
      let (parsed, e1, e2) = >>=-eq-ok (validate_skill_name name) _ e in
      let same = validate_skill_name-eq-ok name parsed e1 in
      let e3 = rw (same, before) at e2 in
      elim (Bool-cases (contains current name)) [
        | inr f ↦
            let answer : ok ((current, false), state) ≡ ok r = rw f at e3 in
            rw (sym (ok-injective _ _ answer), f) (before, refl, absent_already name m current f)
        | inl t ↦
            let (w, e4, e5) =
              >>=-eq-ok (write_state agent_name (keep (λ s. not (s == name)) current)) _
                (rw t at e3) in
            let sorted =
              keep-IsSorted (λ s. not (s == name)) current
                (read_state-IsSorted state current before) in
            let (written, again) = write-read (keep (λ s. not (s == name)) current) w sorted e4 in
            rw (sym (ok-injective _ _ e5), t)
              (again, refl, ap (λ xs. contains xs m) written ∙ contains-keep name m current)
      ]

  -- The order in which two skills are added does not show: whichever comes first, the states that
  -- are read afterwards are the same.
  pub add_skill_comm :
      (a b : String) (state : File) (current : List String)
      (ra rab rb rba : (List String × Bool) × File)
      → read_state agent_name state ≡ ok current
      → add_skill agent_name a state ≡ ok ra
      → add_skill agent_name b ra.1 ≡ ok rab
      → add_skill agent_name b state ≡ ok rb
      → add_skill agent_name a rb.1 ≡ ok rba
      → read_state agent_name rab.1 ≡ read_state agent_name rba.1
  add_skill_comm a b state current ra rab rb rba before e1 e2 e3 e4 =
      let one = (add_skill_lem a a state current ra before e1).0 in
      let two = (add_skill_lem b a state current rb before e3).0 in
      let left = (add_skill_lem b a ra.1 ra.0.0 rab one e2).0 in
      let right = (add_skill_lem a a rb.1 rb.0.0 rba two e4).0 in
      let members : (m : String) → contains rab.0.0 m ≡ contains rba.0.0 m = λ m.
        (add_skill_lem b m ra.1 ra.0.0 rab one e2).2
        ∙ ap (λ x. b == m || x) (add_skill_lem a m state current ra before e1).2
        ∙ or_swap (b == m) (a == m) (contains current m)
        ∙ sym (
            (add_skill_lem a m rb.1 rb.0.0 rba two e4).2
            ∙ ap (λ x. a == m || x) (add_skill_lem b m state current rb before e3).2) in
      left
      ∙ ap ok (
          sorted_ext rab.0.0 rba.0.0 (read_state-IsSorted rab.1 rab.0.0 left)
            (read_state-IsSorted rba.1 rba.0.0 right) members)
      ∙ sym right
