-- ===== src/Prelude/Outcome.antt =====
-- Python's exceptions as values: what a function returns, or the class of what it raises.
-- The texts of the messages are not modelled.
use mathlib.Core.Path.{◌≡◌, refl}
use mathlib.Core.Logic.{◌⊎◌, inl, inr}

pub data Error : Type 0 where
  -- raised by the language itself
  key_error attribute_error type_error value_error zero_division : Error
  -- core/hosts.py
  hosts_corrupted duplicate_host address_error : Error
  -- core/channels.py
  channels_corrupted duplicate_channel : Error
  invalid_channel_type invalid_channel_name invalid_stream_mode channel_in_use : Error
  -- core/integrations.py
  integrations_corrupted duplicate_integration : Error
  invalid_integration_type invalid_integration_name integration_in_use : Error
  singleton_violation : Error
  -- core/provider_attachments.py
  attachment_error : Error
  -- core/onboarding.py
  invalid_transition onboarding_not_found agent_not_found : Error
  -- core/secrets.py
  secrets_corrupted invalid_secret_key invalid_instance_key : Error
  -- core/skills.py
  invalid_skill_ref : Error
  -- core/registry.py
  invalid_agent_type manifest_not_found manifest_parse_error : Error
  -- core/providers/storage.py
  providers_corrupted duplicate_provider invalid_provider_name invalid_provider_type : Error
  -- core/keys.py
  invalid_key_id : Error
  -- core/install.py, core/lifecycle.py
  installation_error incomplete_installation lifecycle_error : Error

pub data Result {ℓ} (A : Type ℓ) : Type ℓ where
  ok : A → Result A
  err : Error → Result A

pub Result-cases {ℓ} :
    {A : Type ℓ} (r : Result A) → ((a : A) × (r ≡ ok a)) ⊎ ((e : Error) × (r ≡ err e))
Result-cases (ok a) = inl (a, refl)
Result-cases (err e) = inr (e, refl)

pub ok-injective {ℓ} : {A : Type ℓ} (a b : A) → ok a ≡ ok b → a ≡ b
ok-injective a b e = cc

module _ {ℓ κ} {A : Type ℓ} {B : Type κ} where
  infixl 5 ◌>>=◌
  abbrev pub ◌>>=◌ : Result A → (A → Result B) → Result B
  err raised >>= next = err raised
  ok x >>= next = next x

  -- What a chain returns comes from what its first part returns.
  pub >>=-eq-ok :
      (first : Result A) (next : A → Result B) {y : B}
      → (first >>= next) ≡ ok y
      → (x : A) × (first ≡ ok x) × (next x ≡ ok y)
  >>=-eq-ok (err raised) next e = cc
  >>=-eq-ok (ok x) next e = (x, refl, e)
