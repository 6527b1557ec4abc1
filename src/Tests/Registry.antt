-- ===== src/Tests/Registry.antt =====
-- core/registry.py at concrete inputs.
use clawrium.Json.Equality.{py_eq}
use clawrium.Json.Lists.{dicts}
use clawrium.Registry.Best.{check_compatibility-IsVerdict, IsVerdict}
use clawrium.Registry.{
  table_of, each_entry, list_of, each_item, natural, flag, any_text, filled_text, present,
  with_field, read_as, section, object_of,
}
use clawrium.Text.{
  is_prefix, has_sub, is_upper, is_lower, is_letter, is_alnum, every_code, matches_dollar, is_space,
  strip_end, strip_start, strip, codes, is_digit,
}
use clawrium.Registry.Compatibility.{
  verdict, platform_reasons, gpu_reasons, memory_reasons, reasons_of, next_platform, first_match,
  number, known_text, hardware_known, check_platforms, without_versions, insert_version,
  sorted_versions, check_latest, check_candidates, with_versions, CompatibilityResult, Reason,
  check_compatibility,
}
use clawrium.Registry.Manifests.{validate_manifest_idem}
use clawrium.Prelude.{
  ◌-◌, ◌+◌, leb, ◌*◌, ◌==◌, if◌then◌else◌, ℕ, arith, ◌≡◌, refl, String, true, false, Option, none,
  some, List, [], ◌∷◌, ok,
}
use clawrium.Json.{
  is_str, truthy, as_dict, index, get_or, get, has, find, Json, Dict, null, bool, num, str, arr,
  obj, nil, cons, empty, entry,
}
use clawrium.Registry.Load.{
  dicts_in, platforms_of, manifest_of, traverses, agent_type_pattern, validate_agent_type,
  load_manifest, Bundled, parsed,
}
use clawrium.Registry.Sections.{
  exclude, excludes, rooted, destination_root, platforms, own_type, validate_manifest,
}
use clawrium.Registry.Version.{
  compare_versions, compare_actual, matches_operand, last_plain, has_line_feed, operand, or_match,
  after_prefix, try_operator, first_operator, match_spec, matches_spec, known_actual,
  version_matches, valid_version, parse_version_safe, Versions, IsOrdered,
}

abbrev small : Dict
small = entry "min_memory_mb" (num 512) (
    entry "gpu_required" (bool false)
      (entry "dependencies" (obj (entry "python" (str ">=3") empty)) empty))

abbrev entry_of : String → Dict
entry_of version = entry "version" (str version) (
    entry "os" (str "ubuntu") (
      entry "os_version" (str ">=20")
        (entry "arch" (str "x86_64") (entry "requirements" (obj small) empty))))

-- A key that the validation drops.
abbrev written_manifest : Json
written_manifest = obj (
    entry "agent" (obj (entry "type" (str "pi") empty)) (
      entry "platforms" (arr (cons (obj (entry_of "1")) (cons (obj (entry_of "2")) nil))) (
        entry "features"
          (obj (
            entry "workspace_overlay"
              (obj (entry "destination_root" (str " ~/.pi ") (entry "excludes" null empty))) empty))
          (entry "author" (str "x") empty))))

abbrev normal_manifest : Json
normal_manifest = obj (
    entry "agent" (obj (entry "type" (str "pi") (entry "description" (str "") empty))) (
      entry "platforms" (arr (cons (obj (entry_of "1")) (cons (obj (entry_of "2")) nil))) (
        entry "features"
          (obj (
            entry "workspace_overlay"
              (obj (entry "destination_root" (str "~/.pi") (entry "excludes" (arr nil) empty)))
              empty))
          empty)))

-- Opening this opens the validation of a manifest.
open_manifest : Unit {0}
unfolding find has get get_or index validate_manifest object_of section read_as with_field present
    filled_text any_text flag natural each_item list_of each_entry table_of own_type platforms
    destination_root rooted excludes exclude strip strip_start strip_end is_space
open_manifest = tt

written_manifest_valid : validate_manifest written_manifest "pi" ≡ ok normal_manifest
unfolding open_manifest
written_manifest_valid = refl

validate_manifest_idem_example : validate_manifest normal_manifest "pi" ≡ ok normal_manifest
validate_manifest_idem_example =
    validate_manifest_idem written_manifest normal_manifest "pi" written_manifest_valid

-- Versions that are one number.
digits_value : ℕ → List ℕ → Option ℕ
digits_value n [] = some n
digits_value n (c ∷ cs) = if is_digit c then digits_value (n * 10 + (c - 48)) cs else none

abbrev numbered : Versions
numbered = record {
  Version = ℕ;
  parse = λ s. if s == "" then none else digits_value 0 (codes s);
  show = λ n. "";
  le = leb;
  zero = 0;
}

numbered-IsOrdered : IsOrdered numbered
numbered-IsOrdered = record { total = λ a b e. ground arith; trans = λ a b c e f. ground arith }

abbrev server : Dict
server = entry "os" (str "ubuntu") (
    entry "os_version" (str "24")
      (entry "architecture" (str "x86_64") (entry "memtotal_mb" (num 2048) empty)))

abbrev bundle : String → Bundled
bundle name = parsed written_manifest

abbrev no_text : Reason → String
no_text r = ""

abbrev newest : CompatibilityResult
newest = record { compatible = true; matched_entry = some (entry_of "2"); reasons = [] }

-- Opening this opens the search for an entry.
open_search : Unit {0}
unfolding open_manifest digits_value check_compatibility load_manifest validate_agent_type
    matches_dollar agent_type_pattern every_code is_alnum is_letter is_lower is_upper is_digit
    traverses has_sub is_prefix manifest_of platforms_of as_dict dicts_in dicts check_candidates
    check_latest with_versions parse_version_safe valid_version sorted_versions insert_version
    without_versions check_platforms hardware_known known_text truthy py_eq is_str number
    first_match next_platform reasons_of version_matches known_actual matches_spec match_spec
    first_operator try_operator after_prefix or_match operand has_line_feed last_plain
    matches_operand compare_actual compare_versions memory_reasons gpu_reasons platform_reasons
    verdict
open_search = tt

pi_loaded : load_manifest bundle "pi" ≡ ok normal_manifest
unfolding open_search
pi_loaded = refl

check_compatibility-IsVerdict_example :
    (xs : List (ℕ × Dict)) × (with_versions numbered (entry_of "1" ∷ entry_of "2" ∷ []) ≡ ok xs)
    × IsVerdict numbered numbered-IsOrdered server xs newest
unfolding open_search
check_compatibility-IsVerdict_example =
    check_compatibility-IsVerdict numbered numbered-IsOrdered server no_text bundle "pi"
      normal_manifest (entry_of "1" ∷ entry_of "2" ∷ []) newest pi_loaded refl refl refl
