-- ===== src/Names/Checked.antt =====
-- The names that an agent can be given, and the other module that checks the names of agents.
use clawrium.Text.{codes, matches_dollar}
use clawrium.Prelude.{
  length, arith, ℕ, ◌≡◌, refl, String, true, List, [], ◌∷◌, ◌≤◌, ok, Bool-cases, inl, inr,
}
use clawrium.Names.{length, ℕ, codes, accepted, validate_agent_name, unix_name_pattern}
use clawrium.Skills.{check_agent_name, agent_name_pattern}

same_pattern : (cs : List ℕ) → agent_name_pattern cs ≡ unix_name_pattern cs
unfolding agent_name_pattern unix_name_pattern
same_pattern [] = refl
same_pattern (c ∷ cs) = refl

pattern_of_accepted :
    (name : String) → validate_agent_name name ≡ accepted → unix_name_pattern (codes name) ≡ true
unfolding validate_agent_name
pattern_of_accepted name e = elim (Bool-cases (unix_name_pattern (codes name))) [
  | inl t ↦ t
  | inr f ↦ ground (arith, f, e)
]

pattern_bounds : (cs : List ℕ) → unix_name_pattern cs ≡ true → (1 ≤ length cs) × (length cs ≤ 32)
unfolding unix_name_pattern
pattern_bounds [] e = cc
pattern_bounds (c ∷ cs) e = ground arith

-- A name that `validate_agent_name` accepts is accepted by the skills of the agent too, and has
-- between 1 and 32 characters.
pub check_agent_name_of_accepted :
    (name : String)
    → validate_agent_name name ≡ accepted
    → (check_agent_name name ≡ ok tt) × (1 ≤ length (codes name)) × (length (codes name) ≤ 32)
unfolding check_agent_name matches_dollar
check_agent_name_of_accepted name e =
    let form = pattern_of_accepted name e in
    let bounds = pattern_bounds (codes name) form in
    (rw (same_pattern (codes name), form) refl, bounds.0, bounds.1)
