-- ===== src/Skills.antt =====
-- core/skills_state.py: the skills that an agent is to have. The state is the agent's skills.json.
pub mod Sets
use clawrium.Prelude.{
  length, leb, nat_eq, ℕ, String, Bool, true, false, not, Option, none, some, List, [], ◌∷◌, ◌==◌,
  ◌&&◌, ◌||◌, if◌then◌else◌, keep, contains, Result, ok, err, ◌>>=◌, invalid_skill_ref,
}
use clawrium.Json.{Json, Items, Dict, nil, cons, null, str, arr, obj, empty, entry, get_or}
use clawrium.Json.Lists.{strs}
use clawrium.Config.{File, missing, corrupted, holds}
use clawrium.Text.{codes, every_code, is_lower, is_digit, matches_dollar}
use clawrium.Text.Order.{sorted_set}

-- `[a-z][a-z0-9_-]{0,31}`
unfoldable pub agent_name_pattern : List ℕ → Bool
agent_name_pattern [] = false
agent_name_pattern (c ∷ cs) =
    is_lower c
    && every_code (λ d. is_lower d || is_digit d || nat_eq d b'_' || nat_eq d b'-') cs
    && leb (length cs) 31

-- `[a-z0-9][a-z0-9_-]*`
unfoldable pub skill_name_pattern : List ℕ → Bool
skill_name_pattern [] = false
skill_name_pattern (c ∷ cs) =
    (is_lower c || is_digit c)
    && every_code (λ d. is_lower d || is_digit d || nat_eq d b'_' || nat_eq d b'-') cs

unfoldable pub check_agent_name : String → Result (Unit {0})
check_agent_name agent_name =
    if matches_dollar agent_name_pattern (codes agent_name) then ok tt else err invalid_skill_ref

-- `fullmatch`
unfoldable pub validate_skill_name : String → Result String
validate_skill_name name =
    if skill_name_pattern (codes name) then ok name else err invalid_skill_ref

unfoldable pub validate_skills : List String → Result (List String)
validate_skills [] = ok []
validate_skills (name ∷ names) = do
  checked ← validate_skill_name name
  rest ← validate_skills names
  ok (checked ∷ rest)

-- `all(isinstance(s, str) for s in skills)`
unfoldable pub texts_of : Items → Result (List String)
texts_of nil = ok []
texts_of (cons (str s) xs) = do rest ← texts_of xs; ok (s ∷ rest)
texts_of (cons _ xs) = err invalid_skill_ref

unfoldable pub skill_texts : Json → Result (List String)
skill_texts (arr xs) = texts_of xs
skill_texts _ = err invalid_skill_ref

unfoldable pub skills_in : File → Result (List String)
skills_in missing = ok []
skills_in corrupted = err invalid_skill_ref
skills_in (holds (obj raw)) = do
  skills ← skill_texts (get_or "skills" (arr nil) raw)
  validated ← validate_skills skills
  ok (sorted_set validated)
skills_in (holds _) = err invalid_skill_ref

unfoldable pub read_state : String → File → Result (List String)
read_state agent_name state = do checked ← check_agent_name agent_name; skills_in state

-- The file that is written.
abbrev pub state_of_skills : List String → File
state_of_skills skills = holds (obj (entry "skills" (arr (strs skills)) empty))

unfoldable pub write_state : String → List String → Result (List String × File)
write_state agent_name refs = do
  canonical ← validate_skills refs
  checked ← check_agent_name agent_name
  ok (sorted_set canonical, state_of_skills (sorted_set canonical))

-- The answer, and the file after it.
unfoldable pub add_skill : String → String → File → Result ((List String × Bool) × File)
add_skill agent_name name state = do
  parsed ← validate_skill_name name
  current ← read_state agent_name state
  if contains current parsed then ok ((current, false), state) else (do
    written ← write_state agent_name (sorted_set (parsed ∷ current))
    ok ((written.0, true), written.1))

unfoldable pub remove_skill : String → String → File → Result ((List String × Bool) × File)
remove_skill agent_name name state = do
  parsed ← validate_skill_name name
  current ← read_state agent_name state
  if not (contains current parsed) then ok ((current, false), state) else (do
    written ← write_state agent_name (keep (λ s. not (s == parsed)) current)
    ok ((written.0, true), written.1))
