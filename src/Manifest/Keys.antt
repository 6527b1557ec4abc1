-- ===== src/Manifest/Keys.antt =====
-- core/keys.py: the names of the directories that hold the keys of the hosts.
use clawrium.Prelude.{
  ℕ, String, Bool, false, not, ◌||◌, List, [], ◌∷◌, ◌==◌, if◌then◌else◌, nat_eq, Result, ok, err,
  invalid_key_id,
}
use clawrium.Text.{codes, is_alnum, every_code, matches_dollar, has_sub, is_prefix}

-- `[a-zA-Z0-9._-]+`
unfoldable pub key_id_pattern : List ℕ → Bool
key_id_pattern [] = false
key_id_pattern (c ∷ cs) =
    every_code (λ d. is_alnum d || nat_eq d b'.' || nat_eq d b'_' || nat_eq d b'-') (c ∷ cs)

unfoldable pub validate_key_id : String → Result String
validate_key_id key_id =
    if key_id == ""
    then err invalid_key_id
    else if not (matches_dollar key_id_pattern (codes key_id))
    then err invalid_key_id
    else if has_sub (codes "..") (codes key_id) || is_prefix (codes "/") (codes key_id)
    then err invalid_key_id
    else ok key_id
