-- ===== src/Secrets.antt =====
-- core/secrets.py: the secrets of each agent, integration and channel, under an instance key.
pub mod View
pub mod Removal
pub mod Restore
pub mod Batch
pub mod Installed
use clawrium.Prelude.{
  ℕ, String, ◌<>◌, Bool, true, false, not, ◌&&◌, ◌||◌, Option, none, some, List, [], ◌∷◌, ◌==◌, leb,
  nat_eq, if◌then◌else◌, length, Result, ok, err, secrets_corrupted, invalid_secret_key,
  invalid_instance_key, type_error, ◌>>=◌ as ◌>>=ʳ◌,
}
use clawrium.Json.{
  Json, Dict, null, bool, num, str, arr, obj, empty, entry, find, has, get, get_or, index, put, pop,
  as_dict, is_str,
}
use clawrium.Json.Lists.{has_item}
use clawrium.Json.Subscript.{holds_key}
use clawrium.Config.{
  File, missing, corrupted, holds, Config, Exec, pure, lift, reads, modify, ◌>>=◌, ◌>>◌,
}
use clawrium.Text.{codes, is_upper, is_digit, is_alnum, every_code, has_sub}

-- `^[A-Z][A-Z0-9_]{0,127}\Z`
unfoldable pub secret_key_pattern : List ℕ → Bool
secret_key_pattern [] = false
secret_key_pattern (c ∷ cs) =
    is_upper c
    && every_code (λ d. is_upper d || is_digit d || nat_eq d b'_') cs
    && leb (length cs) 127

unfoldable pub validate_secret_key : String → Result String
validate_secret_key key =
    if key == ""
    then err invalid_secret_key
    else if secret_key_pattern (codes key)
    then ok key
    else err invalid_secret_key

-- `[a-zA-Z0-9._-]`
unfoldable pub is_component : ℕ → Bool
is_component c = is_alnum c || nat_eq c b'.' || nat_eq c b'_' || nat_eq c b'-'

unfoldable pub validate_component : String → Result (Unit {0})
validate_component component =
    if component == ""
    then err invalid_instance_key
    else if every_code is_component (codes component)
    then ok tt
    else err invalid_instance_key

unfoldable pub get_instance_key : String → String → String → Result String
get_instance_key host claw_type claw_name = validate_component host >>=ʳ λ _.
    validate_component claw_type >>=ʳ λ _.
    validate_component claw_name >>=ʳ λ _. ok (host <> ":" <> claw_type <> ":" <> claw_name)

unfoldable pub parse_secrets : File → Result Dict
parse_secrets missing = ok empty
parse_secrets (holds (obj d)) = ok d
parse_secrets _ = err secrets_corrupted

unfoldable pub load_secrets : Exec Dict
load_secrets = reads (λ c. parse_secrets c.secrets)

unfoldable pub save_secrets : Dict → Exec (Unit {0})
save_secrets secrets = modify (λ c. record c { secrets = holds (obj secrets) })

unfoldable pub get_instance_secrets : String → Exec Json
get_instance_secrets instance_key = do
  secrets ← load_secrets
  pure (get_or instance_key (obj empty) secrets)

unfoldable pub secret_entry : String → String → Json → String → Json → Json
secret_entry key value created_at updated_at description = obj (
    entry "key" (str key) (
      entry "value" (str value) (
        entry "created_at" created_at
          (entry "updated_at" (str updated_at) (entry "description" description empty)))))

-- `existing["created_at"]`
unfoldable pub created_at : Json → Result Json
created_at (obj existing) = index "created_at" existing
created_at _ = err type_error

-- `description if description else existing.get("description", "")`
unfoldable pub described : String → Json → Json
described description (obj existing) =
    if description == "" then get_or "description" (str "") existing else str description
described description _ = str description

-- Writes one secret of an instance. The answer is whether the secret is new.
unfoldable pub put_entry : String → String → String → String → Dict → Result (Bool × Dict)
put_entry now key value description instance_secrets =
    let existing = get key instance_secrets in
    if has key instance_secrets
    then (created_at existing >>=ʳ λ created. ok (
      false,
      put key (secret_entry key value created now (described description existing))
          instance_secrets,
    ))
    else ok
        (true, put key (secret_entry key value (str now) now (str description)) instance_secrets)

-- An instance's value that is no dict takes no entry.
unfoldable pub instance_dict : Json → Result Dict
instance_dict (obj d) = ok d
instance_dict _ = err type_error

unfoldable pub put_secret : String → String → String → String → String → Dict → Result (Bool × Dict)
put_secret now instance_key key value description secrets =
    instance_dict (get_or instance_key (obj empty) secrets) >>=ʳ λ d.
    put_entry now key value description d >>=ʳ λ r. ok (r.0, put instance_key (obj r.1) secrets)

unfoldable pub set_instance_secret : String → String → String → String → String → Exec Bool
set_instance_secret now instance_key key value description = do
  lift (validate_secret_key key)
  secrets ← load_secrets
  stored ← lift (put_secret now instance_key key value description secrets)
  save_secrets stored.1
  pure stored.0

-- `remove_key is not None and remove_key != key`
unfoldable pub superseded : Option String → String → Dict → Dict
superseded none key d = d
superseded (some remove_key) key d = if remove_key == key then d else pop remove_key d

unfoldable pub validate_optional : Option String → Result String
validate_optional none = ok ""
validate_optional (some key) = validate_secret_key key

unfoldable pub replace_secret :
    String → String → String → String → Option String → String → Dict → Result (Bool × Dict)
replace_secret now instance_key key value remove_key description secrets =
    instance_dict (get_or instance_key (obj empty) secrets) >>=ʳ λ d.
    put_entry now key value description d >>=ʳ λ r.
    ok (r.0, put instance_key (obj (superseded remove_key key r.1)) secrets)

unfoldable pub replace_instance_secret :
    String → String → String → String → Option String → String → Exec Bool
replace_instance_secret now instance_key key value remove_key description = do
  lift (validate_secret_key key)
  lift (validate_optional remove_key)
  secrets ← load_secrets
  stored ← lift (replace_secret now instance_key key value remove_key description secrets)
  save_secrets stored.1
  pure stored.0

-- The instance with its secrets, or without it if none is left.
unfoldable pub store_instance : String → Dict → Dict → Dict
store_instance instance_key empty secrets = pop instance_key secrets
store_instance instance_key (entry k v d) secrets = put instance_key (obj (entry k v d)) secrets

-- `isinstance(entry, dict) and entry.get("value") == value`
unfoldable pub has_value : String → Json → Bool
has_value value (obj e) = is_str (get "value" e) value
has_value value _ = false

unfoldable pub remove_instance_secret_if_matches : String → String → String → Exec Bool
remove_instance_secret_if_matches instance_key key value = do
  lift (validate_secret_key key)
  secrets ← load_secrets
  d ← lift (as_dict (get_or instance_key (obj empty) secrets))
  if not (has_value value (get key d))
      then pure false
      else do save_secrets (store_instance instance_key (pop key d) secrets); pure true

-- The entry that takes the place of one that matched.
unfoldable pub successor : String → String → String → String → Json → Json
successor now key value description (obj e) =
    secret_entry key value (get_or "created_at" (str now) e) now
      (if description == "" then get_or "description" (str "") e else str description)
successor now key value description v = v

unfoldable pub exchange : String → String → String → Option String → String → Dict → Dict → Dict
exchange now instance_key key none description d secrets =
    store_instance instance_key (pop key d) secrets
exchange now instance_key key (some value) description d secrets =
    put instance_key (obj (put key (successor now key value description (get key d)) d)) secrets

unfoldable pub replace_instance_secret_if_matches :
    String → String → String → String → Option String → String → Exec Bool
replace_instance_secret_if_matches now instance_key key expected_value replacement_value
      description =
    do
      lift (validate_secret_key key)
      secrets ← load_secrets
      d ← lift (as_dict (get_or instance_key (obj empty) secrets))
      if not (has_value expected_value (get key d)) then pure false else do
        save_secrets (exchange now instance_key key replacement_value description d secrets)
        pure true

unfoldable pub restore_instance_secret_if_absent :
    String → String → String → String → String → Exec Bool
restore_instance_secret_if_absent now instance_key key value description = do
  lift (validate_secret_key key)
  secrets ← load_secrets
  let instance_secrets = get_or instance_key (obj empty) secrets
  there ← lift (holds_key key instance_secrets)
  if there then pure false else do
    d ← lift (instance_dict instance_secrets)
    save_secrets (
        put instance_key (obj (put key (secret_entry key value (str now) now (str description)) d))
          secrets)
    pure true

unfoldable pub remove_instance_secret : String → String → Exec Bool
remove_instance_secret instance_key key = do
  lift (validate_secret_key key)
  secrets ← load_secrets
  if not (has instance_key secrets) then pure false else do
    there ← lift (holds_key key (get instance_key secrets))
    if not there then pure false else do
      d ← lift (instance_dict (get instance_key secrets))
      save_secrets (store_instance instance_key (pop key d) secrets)
      pure true

unfoldable pub remove_instance_secrets : String → Exec Bool
remove_instance_secrets instance_key = do
  secrets ← load_secrets
  if not (has instance_key secrets)
      then pure false
      else do save_secrets (pop instance_key secrets); pure true

-- The deprecated functions for secrets of no instance.
unfoldable pub get_secret : String → Exec Json
get_secret key = do
  secrets ← load_secrets
  if not (has "__global__" secrets)
      then pure null
      else do d ← lift (as_dict (get "__global__" secrets)); pure (get key d)

unfoldable pub set_secret : String → String → String → String → Exec Bool
set_secret now = set_instance_secret now "__global__"

unfoldable pub remove_secret : String → Exec Bool
remove_secret = remove_instance_secret "__global__"
