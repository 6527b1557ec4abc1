-- ===== src/Tests/Skills.antt =====
-- core/skills_state.py and core/names.py at concrete inputs.
use clawrium.Json.Lists.{strs}
use clawrium.Json.{get_or, find}
use clawrium.Text.Order.{before, insert_text, sorted_set}
use clawrium.Names.Checked.{check_agent_name_of_accepted}
use clawrium.Skills.Sets.{add_skill_lem, add_skill_comm}
use clawrium.Text.{matches_dollar, codes, is_digit, is_lower, every_code}
use clawrium.Skills.{
  agent_name_pattern, add_skill, write_state, skills_in, skill_texts, texts_of, check_agent_name,
  validate_skills, state_of_skills, skill_name_pattern, validate_skill_name, read_state,
}
use clawrium.Names.Generated.{validate_agent_name-generate_random_name}
use clawrium.Prelude.{length, ◌==◌, contains, ◌≡◌, refl, true, [], ◌∷◌, ok, ◌≤◌, not, ◌||◌}
use clawrium.Config.{missing}
use clawrium.Names.{accepted, validate_agent_name, generate_random_name}

-- Opening this opens the state of the skills.
open_skills : Unit {0}
unfolding validate_skill_name skill_name_pattern validate_skills texts_of skill_texts skills_in
    read_state write_state add_skill check_agent_name agent_name_pattern matches_dollar sorted_set
    insert_text before find get_or strs every_code is_lower is_digit
open_skills = tt

add_skill_lem_example :
    (read_state "scout" (state_of_skills ("mail" ∷ "pdf" ∷ [])) ≡ ok ("mail" ∷ "pdf" ∷ []))
    × (true ≡ not (contains ("pdf" ∷ []) "mail"))
    × (contains ("mail" ∷ "pdf" ∷ []) "web" ≡ ("mail" == "web" || contains ("pdf" ∷ []) "web"))
unfolding open_skills
add_skill_lem_example =
    add_skill_lem "scout" "mail" "web" (state_of_skills ("pdf" ∷ [])) ("pdf" ∷ [])
      ((("mail" ∷ "pdf" ∷ []), true), state_of_skills ("mail" ∷ "pdf" ∷ [])) refl refl

add_skill_comm_example :
    read_state "scout" (state_of_skills ("mail" ∷ "pdf" ∷ []))
    ≡ read_state "scout" (state_of_skills ("mail" ∷ "pdf" ∷ []))
unfolding open_skills
add_skill_comm_example =
    add_skill_comm "scout" "mail" "pdf" missing []
      (("mail" ∷ [], true), state_of_skills ("mail" ∷ []))
      (("mail" ∷ "pdf" ∷ [], true), state_of_skills ("mail" ∷ "pdf" ∷ []))
      (("pdf" ∷ [], true), state_of_skills ("pdf" ∷ []))
      (("mail" ∷ "pdf" ∷ [], true), state_of_skills ("mail" ∷ "pdf" ∷ [])) refl refl refl refl refl

validate_agent_name-generate_random_name_example :
    validate_agent_name (generate_random_name "calm" "curie") ≡ accepted
validate_agent_name-generate_random_name_example =
    validate_agent_name-generate_random_name "calm" "curie" refl refl

check_agent_name_of_accepted_example :
    (check_agent_name "scout" ≡ ok tt)
    × (1 ≤ length (codes "scout"))
    × (length (codes "scout") ≤ 32)
unfolding validate_agent_name every_code is_lower is_digit
check_agent_name_of_accepted_example = check_agent_name_of_accepted "scout" refl
