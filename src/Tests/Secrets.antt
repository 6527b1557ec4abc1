-- ===== src/Tests/Secrets.antt =====
-- Witnesses of the properties of core/secrets.py.
use clawrium.Secrets.Restore.{restore_instance_secret_if_absent_lem}
use clawrium.Json.Subscript.{holds_key}
use clawrium.Secrets.Batch.{
  secret_at-replace_instance_secrets, replaced_at, replace_instance_secrets, replace_one,
  replace_each, validate_keys,
}
use clawrium.Prelude.{[], ◌∷◌}
use clawrium.Prelude.{◌≡◌, refl, true, false, none, some, ◌==◌, ◌&&◌, if◌then◌else◌}
use clawrium.Json.{str, obj, empty, entry, find, has, index, get, get_or, put, is_str, as_dict}
use clawrium.Config.{Config, missing, holds}
use clawrium.Text.{is_upper, is_digit, every_code}
use clawrium.Secrets.{
  restore_instance_secret_if_absent, secret_key_pattern, validate_secret_key, parse_secrets,
  load_secrets, save_secrets, set_instance_secret, put_secret, created_at, put_entry, instance_dict,
  secret_entry, remove_instance_secret_if_matches, has_value, store_instance,
}
use clawrium.Secrets.View.{stored_entry, is_absent, secret_at, secret_at-set_instance_secret}
use clawrium.Secrets.Removal.{is_value, remove_instance_secret_if_matches_lem}

-- One instance with one secret.
abbrev vault : Config
vault = record {
  hosts = missing;
  providers = missing;
  channels = missing;
  integrations = missing;
  secrets = holds (
      obj (
        entry "lab:hermes:scout"
          (obj (
            entry "TOKEN" (obj (entry "value" (str "old") (entry "created_at" (str "t0") empty)))
              empty))
          empty));
}

-- Opening this opens the operations on secrets.
open_secrets : Unit {0}
unfolding find has get get_or put is_str as_dict is_upper is_digit every_code secret_key_pattern
    validate_secret_key parse_secrets load_secrets save_secrets set_instance_secret put_secret
    created_at index put_entry instance_dict secret_entry remove_instance_secret_if_matches
    has_value store_instance
open_secrets = tt

secret_at-set_instance_secret_example :
    (false ≡ is_absent (secret_at "lab:hermes:scout" "TOKEN" vault))
    × (secret_at "lab:hermes:scout" "TOKEN"
          (set_instance_secret "t1" "lab:hermes:scout" "TOKEN" "new" "" vault).1
        ≡ (if ("lab:hermes:scout" == "lab:hermes:scout") && ("TOKEN" == "TOKEN")
            then some
                (stored_entry "t1" "TOKEN" "new" "" (secret_at "lab:hermes:scout" "TOKEN" vault))
            else secret_at "lab:hermes:scout" "TOKEN" vault))
unfolding open_secrets
secret_at-set_instance_secret_example =
    secret_at-set_instance_secret "t1" "lab:hermes:scout" "TOKEN" "new" "" "lab:hermes:scout"
      "TOKEN" vault false refl

remove_instance_secret_if_matches_lem_example :
    (true ≡ is_value "old" (secret_at "lab:hermes:scout" "TOKEN" vault))
    × (secret_at "lab:hermes:scout" "TOKEN"
          (remove_instance_secret_if_matches "lab:hermes:scout" "TOKEN" "old" vault).1
        ≡ (if true && ("lab:hermes:scout" == "lab:hermes:scout") && ("TOKEN" == "TOKEN")
            then none
            else secret_at "lab:hermes:scout" "TOKEN" vault))
    × (true ≡ false
        → (remove_instance_secret_if_matches "lab:hermes:scout" "TOKEN" "old" vault).1 ≡ vault)
unfolding open_secrets
remove_instance_secret_if_matches_lem_example =
    remove_instance_secret_if_matches_lem "lab:hermes:scout" "TOKEN" "old" "lab:hermes:scout"
      "TOKEN" vault true refl

secret_at-replace_instance_secrets_example :
    secret_at "lab:hermes:scout" "TOKEN"
      (replace_instance_secrets "t1" "lab:hermes:scout"
        (("TOKEN", some "new") ∷ ("OTHER", none) ∷ [])
        (λ k. none)
        vault).1
    ≡ (if "lab:hermes:scout" == "lab:hermes:scout"
        then replaced_at "t1"
            (λ k. none)
            (("TOKEN", some "new") ∷ ("OTHER", none) ∷ [])
            "TOKEN"
            (secret_at "lab:hermes:scout" "TOKEN" vault)
        else secret_at "lab:hermes:scout" "TOKEN" vault)
unfolding open_secrets validate_keys replace_each replace_one replace_instance_secrets
secret_at-replace_instance_secrets_example =
    secret_at-replace_instance_secrets "t1" "lab:hermes:scout" "lab:hermes:scout" "TOKEN"
      (("TOKEN", some "new") ∷ ("OTHER", none) ∷ []) (λ k. none) vault refl

restore_instance_secret_if_absent_lem_example :
    (true ≡ true → secret_at "lab:hermes:scout" "OTHER" vault ≡ none)
    × (secret_at "lab:hermes:scout" "OTHER"
          (restore_instance_secret_if_absent "t1" "lab:hermes:scout" "OTHER" "back" "" vault).1
        ≡ (if true && ("lab:hermes:scout" == "lab:hermes:scout") && ("OTHER" == "OTHER")
            then some (secret_entry "OTHER" "back" (str "t1") "t1" (str ""))
            else secret_at "lab:hermes:scout" "OTHER" vault))
    × (true ≡ false
        → (restore_instance_secret_if_absent "t1" "lab:hermes:scout" "OTHER" "back" "" vault).1
          ≡ vault)
unfolding open_secrets holds_key restore_instance_secret_if_absent
restore_instance_secret_if_absent_lem_example =
    restore_instance_secret_if_absent_lem "t1" "lab:hermes:scout" "OTHER" "back" ""
      "lab:hermes:scout" "OTHER" vault true refl
