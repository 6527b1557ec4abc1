-- ===== src/Text.antt =====
-- What the modelled code uses of Python's `str` and `re`: code points, `strip`, `split`, and the
-- anchors of a pattern.
pub mod Ip
pub mod Strip
pub mod Order
use Prim.Native.Char.{Char, code}
use clawrium.Prelude.{
  ℕ, suc, String, Bool, true, false, not, ◌&&◌, ◌||◌, List, [], ◌∷◌, leb, nat_eq, if◌then◌else◌,
  ◌==◌,
}

abbrev pub codes : String → List ℕ
codes String.[] = []
codes (String.◌∷◌ c s) = code c ∷ codes s

-- `c.isspace()`, which is what `strip` removes.
unfoldable pub is_space : ℕ → Bool
is_space c =
    (leb 9 c && leb c 13)
    || (leb 28 c && leb c 32)
    || nat_eq c 0x85
    || nat_eq c 0xa0
    || nat_eq c 0x1680
    || (leb 0x2000 c && leb c 0x200a)
    || nat_eq c 0x2028
    || nat_eq c 0x2029
    || nat_eq c 0x202f
    || nat_eq c 0x205f
    || nat_eq c 0x3000

unfoldable pub strip_start : String → String
unfolding is_space
strip_start String.[] = ""
strip_start (String.◌∷◌ c s) =
    let t = strip_start s in if is_space (code c) then t else String.◌∷◌ c s

unfoldable pub strip_end : String → String
unfolding is_space
strip_end String.[] = ""
strip_end (String.◌∷◌ c s) =
    let t = strip_end s in if is_space (code c) && t == "" then "" else String.◌∷◌ c t

-- `s.strip()`
unfoldable pub strip : String → String
unfolding strip_start strip_end
strip s = strip_end (strip_start s)

unfoldable pub is_digit : ℕ → Bool
is_digit c = leb b'0' c && leb c b'9'

unfoldable pub is_upper : ℕ → Bool
is_upper c = leb b'A' c && leb c b'Z'

unfoldable pub is_lower : ℕ → Bool
is_lower c = leb b'a' c && leb c b'z'

-- `[a-zA-Z]`
unfoldable pub is_letter : ℕ → Bool
unfolding is_upper is_lower
is_letter c = is_lower c || is_upper c

-- `[a-zA-Z0-9]`
unfoldable pub is_alnum : ℕ → Bool
unfolding is_letter is_digit
is_alnum c = is_letter c || is_digit c

-- `any(p(c) for c in s)`
unfoldable pub any_code : (ℕ → Bool) → List ℕ → Bool
any_code p [] = false
any_code p (c ∷ cs) = p c || any_code p cs

unfoldable pub every_code : (ℕ → Bool) → List ℕ → Bool
every_code p [] = true
every_code p (c ∷ cs) = p c && every_code p cs

-- Whether a text ends with a line feed, and the text before it.
unfoldable pub ends_line : List ℕ → Bool
ends_line [] = false
ends_line (c ∷ []) = nat_eq c 10
ends_line (c ∷ d ∷ cs) = ends_line (d ∷ cs)

unfoldable pub drop_last : List ℕ → List ℕ
drop_last [] = []
drop_last (c ∷ []) = []
drop_last (c ∷ d ∷ cs) = c ∷ drop_last (d ∷ cs)

-- `^P$`: the anchor `$` also stands before a line feed that ends the text.
unfoldable pub matches_dollar : (List ℕ → Bool) → List ℕ → Bool
unfolding ends_line drop_last
matches_dollar p s = p s || (ends_line s && p (drop_last s))

-- `s.split(sep)`
unfoldable pub split_on : ℕ → List ℕ → List (List ℕ)
split_on sep [] = [] ∷ []
split_on sep (c ∷ cs) = elim (split_on sep cs) [
  | [] ↦ (c ∷ []) ∷ []
  | part ∷ parts ↦ if nat_eq c sep then [] ∷ part ∷ parts else (c ∷ part) ∷ parts
]

unfoldable pub is_prefix : List ℕ → List ℕ → Bool
is_prefix [] s = true
is_prefix (c ∷ cs) [] = false
is_prefix (c ∷ cs) (d ∷ ds) = nat_eq c d && is_prefix cs ds

-- `sub in s`
unfoldable pub has_sub : List ℕ → List ℕ → Bool
unfolding is_prefix
has_sub sub [] = is_prefix sub []
has_sub sub (c ∷ cs) = is_prefix sub (c ∷ cs) || has_sub sub cs

-- `s.split(sep)`, as texts.
unfoldable pub split_text : ℕ → String → List String
split_text sep String.[] = "" ∷ []
split_text sep (String.◌∷◌ c s) = elim (split_text sep s) [
  | [] ↦ (String.◌∷◌ c "") ∷ []
  | part ∷ parts ↦ if nat_eq (code c) sep then "" ∷ part ∷ parts else (String.◌∷◌ c part) ∷ parts
]
