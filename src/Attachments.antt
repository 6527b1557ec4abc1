-- ===== src/Attachments.antt =====
-- core/provider_attachments.py: the providers attached to an agent.
pub mod Roles
pub mod Normal
use clawrium.Prelude.{
  ◌≡◌, refl, ℕ, zero, suc, ◌+◌, String, Bool, true, false, not, ◌&&◌, ◌||◌, Option, none, some,
  List, [], ◌∷◌, ltb, nat_eq, if◌then◌else◌, contains, Result, ok, err, ◌==◌, attachment_error,
  type_error, ◌>>=◌,
}
use clawrium.Json.{
  Json, Items, Dict, null, bool, num, str, arr, obj, nil, cons, empty, entry, get, get_or, is_str,
}

abbrev pub auxiliary_slots : List String
auxiliary_slots =
    "vision" ∷ "web_extract" ∷ "compression" ∷ "session_search" ∷ "skills_hub" ∷ "approval" ∷ "mcp"
    ∷ "title_generation" ∷ "curator" ∷ []

abbrev pub valid_roles : List String
valid_roles = "primary" ∷ auxiliary_slots

unfoldable pub supports_multi_provider : Option String → Bool
supports_multi_provider none = false
supports_multi_provider (some agent_type) = agent_type == "hermes"

-- `if not isinstance(v, str): v = ""`
unfoldable pub text_of : Json → String
text_of (str s) = s
text_of _ = ""

unfoldable pub attachment : String → String → String → Json
attachment name role model =
    obj (entry "name" (str name) (entry "role" (str role) (entry "model" (str model) empty)))

-- An entry that is a dict with a name, and whether a primary has been seen after it.
unfoldable pub named_attachment : Json → Dict → Option Json
named_attachment (str name) d =
    some
      (attachment name (text_of (get_or "role" (str "") d)) (text_of (get_or "model" (str "") d)))
named_attachment _ d = none

unfoldable pub names_primary : Json → Dict → Bool
names_primary (str name) d = text_of (get_or "role" (str "") d) == "primary"
names_primary _ d = false

unfoldable pub cons? : Option Json → Items → Items
cons? none xs = xs
cons? (some x) xs = cons x xs

-- The loop for hermes; the flag is `primary_assigned`.
unfoldable pub normalize_hermes : Bool → Items → Items
normalize_hermes assigned nil = nil
normalize_hermes assigned (cons (str name) xs) =
    cons (attachment name (if assigned then "" else "primary") "") (normalize_hermes true xs)
normalize_hermes assigned (cons (obj d) xs) =
    cons? (named_attachment (get "name" d) d)
      (normalize_hermes (assigned || names_primary (get "name" d) d) xs)
normalize_hermes assigned (cons _ xs) = normalize_hermes assigned xs

unfoldable pub name_only : Json → Option Json
name_only (str name) = some (str name)
name_only _ = none

unfoldable pub normalize_names : Items → Items
normalize_names nil = nil
normalize_names (cons (str name) xs) = cons (str name) (normalize_names xs)
normalize_names (cons (obj d) xs) = cons? (name_only (get "name" d)) (normalize_names xs)
normalize_names (cons _ xs) = normalize_names xs

unfoldable pub normalize : Json → Option String → Items
normalize (arr raw) agent_type =
    if supports_multi_provider agent_type then normalize_hermes false raw else normalize_names raw
normalize _ agent_type = nil

unfoldable pub count_items : Items → ℕ
count_items nil = 0
count_items (cons x xs) = suc (count_items xs)

-- The role of an entry, or what the loop raises at it. A set's `in` wants a hashable value.
unfoldable pub valid_role : Json → Result String
valid_role (str role) = if contains valid_roles role then ok role else err attachment_error
valid_role (arr _) = err type_error
valid_role (obj _) = err type_error
valid_role _ = err attachment_error

unfoldable pub is_name : Json → Bool
is_name (str s) = not (s == "")
is_name _ = false

unfoldable pub entry_role : Json → Result String
entry_role (obj d) =
    if is_name (get "name" d) then valid_role (get "role" d) else err attachment_error
entry_role _ = err attachment_error

-- The loop over the entries: the count of primaries, and the auxiliary slots seen.
unfoldable pub check_entries : ℕ → List String → Items → Result ℕ
check_entries primary_count seen_aux nil = ok primary_count
check_entries primary_count seen_aux (cons x xs) = entry_role x >>= λ role.
    let primary = check_entries (suc primary_count) seen_aux xs in
    let auxiliary = check_entries primary_count (role ∷ seen_aux) xs in
    if role == "primary"
    then primary
    else if contains seen_aux role
    then err attachment_error
    else auxiliary

unfoldable pub validate : Items → Option String → Result (Unit {0})
validate attachments agent_type =
    if not (supports_multi_provider agent_type)
    then (if ltb 1 (count_items attachments) then err attachment_error else ok tt)
    else if nat_eq (count_items attachments) 0
    then ok tt
    else (check_entries 0 [] attachments >>= λ primary_count.
        if nat_eq primary_count 1 then ok tt else err attachment_error)

unfoldable pub get_primary : Items → Option Dict
get_primary nil = none
get_primary (cons (obj d) xs) =
    let rest = get_primary xs in if is_str (get "role" d) "primary" then some d else rest
get_primary (cons _ xs) = get_primary xs

-- `isinstance(role, str) and role and role != PRIMARY_ROLE`
unfoldable pub is_auxiliary : Json → Bool
is_auxiliary (str role) = not (role == "") && not (role == "primary")
is_auxiliary _ = false

unfoldable pub get_auxiliary : Items → List Dict
get_auxiliary nil = []
get_auxiliary (cons (obj d) xs) =
    let rest = get_auxiliary xs in if is_auxiliary (get "role" d) then d ∷ rest else rest
get_auxiliary (cons _ xs) = get_auxiliary xs
