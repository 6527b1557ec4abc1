-- ===== src/Providers.antt =====
-- core/providers/storage.py: the registry of model providers, providers.json, and their credentials
-- in the secret store.
pub mod Registry
use clawrium.Prelude.{
  leb, length, duplicate_provider, invalid_provider_type, invalid_provider_name, nat_eq, ◌==◌,
  if◌then◌else◌, ℕ, keep, providers_corrupted, String, ◌<>◌, Bool, true, false, not, ◌&&◌, ◌||◌,
  Option, none, some, List, [], ◌∷◌, ◌++◌, Result, ok, err, ◌>>=◌ as ◌>>=ʳ◌,
}
use clawrium.Json.{index, Json, Dict, null, str, get}
use clawrium.Json.Subscript.{mapping, holds_key}
use clawrium.Config.{Config, Exec, pure, raise, lift, reads, modify, ◌>>=◌, ◌>>◌}
use clawrium.Text.{codes, every_code, is_letter, is_alnum, matches_dollar}
use clawrium.Records.{named, same, find_first, update_first, any_record, parse_records, written}
use clawrium.Secrets.{set_instance_secret, get_instance_secrets, remove_instance_secret}

-- `[a-zA-Z][a-zA-Z0-9_-]{0,63}`
unfoldable pub provider_name_pattern : List ℕ → Bool
provider_name_pattern [] = false
provider_name_pattern (c ∷ cs) =
    is_letter c
    && every_code (λ d. is_alnum d || nat_eq d b'_' || nat_eq d b'-') cs
    && leb (length cs) 63

unfoldable pub validate_provider_name : Json → Result (Unit {0})
validate_provider_name (str name) =
    if matches_dollar provider_name_pattern (codes name) then ok tt else err invalid_provider_name
validate_provider_name _ = err invalid_provider_name

-- `PROVIDER_MODELS`: the types, whether they require an API key, and whether an endpoint.
abbrev pub provider_models : List (String × Bool × Bool)
provider_models =
    ("openai", true, false)
    ∷ ("anthropic", true, false)
    ∷ ("openrouter", true, false)
    ∷ ("bedrock", true, false)
    ∷ ("vertex", true, false)
    ∷ ("zai", true, false)
    ∷ ("opencode", true, false)
    ∷ ("opencode-go", true, false)
    ∷ ("ollama", false, true)
    ∷ ("litellm", true, true)
    ∷ ("claude-oauth", false, false)
    ∷ ("openai-codex", false, false)
    ∷ ("codex-oauth", false, false)
    ∷ []

unfoldable pub is_provider_type : List (String × Bool × Bool) → String → Bool
is_provider_type [] provider_type = false
is_provider_type (m ∷ ms) provider_type = m.0 == provider_type || is_provider_type ms provider_type

unfoldable pub validate_provider_type : String → Result (Unit {0})
validate_provider_type provider_type =
    if is_provider_type provider_models provider_type then ok tt else err invalid_provider_type

unfoldable pub get_provider_instance_key : String → String
get_provider_instance_key provider_name = "provider:" <> provider_name

unfoldable pub set_provider_api_key : String → String → String → Exec Bool
set_provider_api_key now provider_name api_key =
    set_instance_secret now (get_provider_instance_key provider_name) "API_KEY" api_key
      ("API key for provider " <> provider_name)

-- `secrets[key]["value"]`, if the key is there.
unfoldable pub value_under : String → Dict → Result Json
value_under key secrets = index key secrets >>=ʳ λ secret. mapping secret >>=ʳ λ d. index "value" d

unfoldable pub secret_value : String → Json → Result Json
secret_value key secrets = holds_key key secrets >>=ʳ λ there.
    if there then (mapping secrets >>=ʳ λ d. value_under key d) else ok null

unfoldable pub get_provider_api_key : String → Exec Json
get_provider_api_key provider_name = do
  secrets ← get_instance_secrets (get_provider_instance_key provider_name)
  lift (secret_value "API_KEY" secrets)

unfoldable pub remove_provider_api_key : String → Exec Bool
remove_provider_api_key provider_name =
    remove_instance_secret (get_provider_instance_key provider_name) "API_KEY"

unfoldable pub set_provider_aws_credentials : String → String → String → String → Exec Bool
set_provider_aws_credentials now provider_name access_key secret_key = do
  created1 ←
      set_instance_secret now (get_provider_instance_key provider_name) "AWS_ACCESS_KEY_ID"
        access_key ("AWS access key for provider " <> provider_name)
  created2 ←
      set_instance_secret now (get_provider_instance_key provider_name) "AWS_SECRET_ACCESS_KEY"
        secret_key ("AWS secret key for provider " <> provider_name)
  pure (created1 && created2)

unfoldable pub get_provider_aws_credentials : String → Exec (Json × Json)
get_provider_aws_credentials provider_name = do
  secrets ← get_instance_secrets (get_provider_instance_key provider_name)
  access_key ← lift (secret_value "AWS_ACCESS_KEY_ID" secrets)
  secret_key ← lift (secret_value "AWS_SECRET_ACCESS_KEY" secrets)
  pure (access_key, secret_key)

unfoldable pub remove_provider_aws_credentials : String → Exec Bool
remove_provider_aws_credentials provider_name = do
  removed1 ← remove_instance_secret (get_provider_instance_key provider_name) "AWS_ACCESS_KEY_ID"
  removed2 ←
      remove_instance_secret (get_provider_instance_key provider_name) "AWS_SECRET_ACCESS_KEY"
  pure (removed1 || removed2)

unfoldable pub load_providers : Exec (List Dict)
load_providers = reads (λ c. parse_records providers_corrupted c.providers)

unfoldable pub save_providers : List Dict → Exec (Unit {0})
save_providers providers = modify (λ c. record c { providers = written providers })

unfoldable pub add_provider : Dict → Exec (Unit {0})
add_provider provider = do
  lift (validate_provider_name (get "name" provider))
  providers ← load_providers
  if any_record (same "name" (get "name" provider)) providers
      then raise duplicate_provider
      else save_providers (providers ++ (provider ∷ []))

unfoldable pub get_provider : String → Exec (Option Dict)
get_provider name = do providers ← load_providers; pure (find_first (named "name" name) providers)

unfoldable pub commit_providers : Option (Unit {0} × List Dict) → Exec Bool
commit_providers none = pure false
commit_providers (some (u, providers)) = do save_providers providers; pure true

unfoldable pub update_provider : String → (Dict → Result Dict) → Exec Bool
update_provider name updater = do
  providers ← load_providers
  updated ←
      lift (update_first (named "name" name) (λ p. updater p >>=ʳ λ p'. ok (tt, p')) providers)
  commit_providers updated

unfoldable pub remove_provider : String → Exec Bool
remove_provider name = do
  providers ← load_providers
  let filtered = keep (λ p. not (named "name" name p)) providers
  if nat_eq (length filtered) (length providers)
      then pure false
      else do save_providers filtered; pure true
