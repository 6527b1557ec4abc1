-- ===== src/Registry/Version.antt =====
-- The versions of a manifest. `packaging.version.Version` is a parameter: a type with its parser,
-- its printer and its order.
use clawrium.Prelude.{
  nat_eq, ◌≡◌, String, Bool, true, false, not, Option, none, some, List, [], ◌∷◌, ◌==◌, ◌&&◌, ◌||◌,
  if◌then◌else◌, Result, ok, err, value_error, type_error,
}
use clawrium.Json.{Json, null, str, truthy}
use clawrium.Json.Equality.{py_eq}
use clawrium.Text.{strip, strip_start}
use Prim.Native.Char.{code}

-- `zero` is `Version("0.0.0")`, and `parse` gives none where `Version` raises `InvalidVersion`.
pub record Versions : Type 1 where
  pub Version : Type 0
  pub parse : String → Option Version
  pub show : Version → String
  pub le : Version → Version → Bool
  pub zero : Version

-- What the code relies on: the order is total and transitive.
pub record IsOrdered (V : Versions) : Type 0 where
  pub total : (a b : V.Version) → V.le a b ≡ false → V.le b a ≡ true
  pub trans : (a b c : V.Version) → V.le a b ≡ true → V.le b c ≡ true → V.le a c ≡ true

pub data Operator : Type 0 where
  ge le gt lt eq ne : Operator

-- `(>=|<=|>|<|==|!=)`, tried in this order.
abbrev pub operators : List (String × Operator)
operators = (">=", ge) ∷ ("<=", le) ∷ (">", gt) ∷ ("<", lt) ∷ ("==", eq) ∷ ("!=", ne) ∷ []

unfoldable pub after_prefix : String → String → Option String
after_prefix String.[] s = some s
after_prefix (String.◌∷◌ c p) String.[] = none
after_prefix (String.◌∷◌ c p) (String.◌∷◌ d s) =
    if nat_eq (code c) (code d) then after_prefix p s else none

unfoldable pub has_line_feed : String → Bool
has_line_feed String.[] = false
has_line_feed (String.◌∷◌ c s) = nat_eq (code c) 10 || has_line_feed s

-- The last character that is no line feed.
unfoldable pub last_plain : Option String → String → Option String
last_plain found String.[] = found
last_plain found (String.◌∷◌ c s) =
    last_plain (if nat_eq (code c) 10 then found else some (String.◌∷◌ c "")) s

-- `\s*(.+?)\s*$`, the part in brackets: `.` is no line feed, and of mere spaces it takes the last.
unfoldable pub operand : String → Option String
operand s =
    if strip s == ""
    then last_plain none s
    else if has_line_feed (strip s)
    then none
    else some (strip s)

unfoldable pub try_operator : Operator → Option String → Option (Operator × String)
try_operator op none = none
try_operator op (some rest) = elim (operand rest) [ none ↦ none | some rhs ↦ some (op, rhs) ]

unfoldable pub or_match :
    Option (Operator × String) → Option (Operator × String) → Option (Operator × String)
or_match none rest = rest
or_match (some found) rest = some found

unfoldable pub first_operator : List (String × Operator) → String → Option (Operator × String)
first_operator [] s = none
first_operator ((sign, op) ∷ ops) s =
    or_match (try_operator op (after_prefix sign s)) (first_operator ops s)

-- `_VERSION_SPEC_RE.match`
unfoldable pub match_spec : String → Option (Operator × String)
match_spec spec = first_operator operators (strip_start spec)

module _ (V : Versions) where
  unfoldable pub compare_versions : Operator → V.Version → V.Version → Bool
  compare_versions ge actual rhs = V.le rhs actual
  compare_versions le actual rhs = V.le actual rhs
  compare_versions gt actual rhs = not (V.le actual rhs)
  compare_versions lt actual rhs = not (V.le rhs actual)
  compare_versions eq actual rhs = V.le actual rhs && V.le rhs actual
  compare_versions ne actual rhs = not (V.le actual rhs && V.le rhs actual)

  unfoldable pub compare_actual : Operator → V.Version → Option V.Version → Bool
  compare_actual op rhs none = false
  compare_actual op rhs (some actual) = compare_versions op actual rhs

  -- `if not actual: return False`, and the comparison. `Version` of what is no text raises
  -- `TypeError`.
  unfoldable pub matches_operand : Operator → Option V.Version → Json → Result Bool
  matches_operand op none actual = err value_error
  matches_operand op (some rhs) (str s) =
      if s == "" then ok false else ok (compare_actual op rhs (V.parse s))
  matches_operand op (some rhs) actual = if truthy actual then err type_error else ok false

  unfoldable pub matches_spec : Option (Operator × String) → String → Json → Result Bool
  matches_spec none spec actual = ok (py_eq (str spec) actual)
  matches_spec (some (op, rhs)) spec actual = matches_operand op (V.parse rhs) actual

  -- `if actual is None: actual = ""`
  unfoldable pub known_actual : Json → Json
  known_actual null = str ""
  known_actual actual = actual

  unfoldable pub version_matches : Json → Json → Result Bool
  version_matches null actual = err value_error
  version_matches (str spec) actual = matches_spec (match_spec spec) spec (known_actual actual)
  version_matches _ actual = err type_error

  unfoldable pub valid_version : Option V.Version → V.Version
  valid_version none = V.zero
  valid_version (some v) = v

  unfoldable pub parse_version_safe : Json → Result V.Version
  parse_version_safe (str version_text) = ok (valid_version (V.parse version_text))
  parse_version_safe _ = err type_error
