-- ===== src/Registry/Compatibility.antt =====
-- `check_compatibility`, `latest_supported_version` and `get_claw_info`'s latest version.
use clawrium.Prelude.{
  ℕ, ltb, contains, String, Bool, true, false, not, Option, none, some, List, [], ◌∷◌, ◌++◌, ◌==◌,
  ◌&&◌, ◌||◌, if◌then◌else◌, Result, ok, err, ◌>>=◌, type_error,
}
use clawrium.Json.{
  Json, Dict, null, bool, num, str, obj, empty, get, get_or, index, truthy, as_dict,
}
use clawrium.Json.Equality.{py_eq, of_bool}
use clawrium.Registry.Load.{Bundled, load_manifest, platforms_of}
use clawrium.Registry.Version.{Versions, version_matches, parse_version_safe}

-- Why an entry does not fit. The messages that the code compares are a parameter, `text`.
pub data Reason : Type 0 where
  invalid_version version_not_found : String → Reason
  requires_os : Json → Json → Json → Json → Reason
  requires_arch requires_memory : Json → Json → Reason
  requires_gpu gpu_undetected : Reason

pub record CompatibilityResult : Type 0 where
  pub compatible : Bool
  pub matched_entry : Option Dict
  pub reasons : List Reason

-- A number in a comparison: a text, a list or `None` beside a number raises `TypeError`.
unfoldable pub number : Json → Result ℕ
number (num n) = ok n
number (bool b) = ok (of_bool b)
number _ = err type_error

unfoldable pub known_text : Json → Bool
known_text v = truthy v && not (py_eq v (str "unknown"))

unfoldable pub hardware_known : Dict → Result Bool
hardware_known hardware =
    if known_text (get "os" hardware) && known_text (get "os_version" hardware)
    then (do n ← number (get_or "memtotal_mb" (num 0) hardware); ok (ltb 0 n))
    else ok false

unfoldable pub memory_reasons : Dict → Dict → Result (List Reason)
memory_reasons requirements hardware =
    let min_memory = get_or "min_memory_mb" (num 0) requirements in
    let host_memory = get_or "memtotal_mb" (num 0) hardware in
    do
      host ← number host_memory
      least ← number min_memory
      ok (if ltb host least then requires_memory min_memory host_memory ∷ [] else [])

-- `gpu_present is False`, `gpu_present is None`
unfoldable pub presence_reasons : Json → List Reason
presence_reasons (bool false) = requires_gpu ∷ []
presence_reasons null = gpu_undetected ∷ []
presence_reasons _ = []

unfoldable pub gpu_reasons : Dict → Dict → Result (List Reason)
gpu_reasons requirements hardware =
    if truthy (get_or "gpu_required" (bool false) requirements)
    then (do
      gpu ← as_dict (get_or "gpu" (obj empty) hardware)
      ok (presence_reasons (get "present" gpu)))
    else ok []

unfoldable pub platform_reasons : Json → Json → Json → Bool → Dict → List Reason
platform_reasons os os_version arch os_version_match hardware =
    if not (py_eq os (get "os" hardware)) || not os_version_match
    then requires_os os os_version (get_or "os" (str "unknown") hardware)
        (get_or "os_version" (str "unknown") hardware)
      ∷ []
    else if not (py_eq arch (get "architecture" hardware))
    then requires_arch arch (get_or "architecture" (str "unknown") hardware) ∷ []
    else []

module _ (V : Versions) where
  -- One round of the loop over the platforms.
  unfoldable pub reasons_of : Dict → Dict → Result (List Reason)
  reasons_of hardware platform = do
    os ← index "os" platform
    os_version ← index "os_version" platform
    os_version_match ← version_matches V os_version (get_or "os_version" (str "") hardware)
    arch ← index "arch" platform
    requirements ← as_dict (get_or "requirements" (obj empty) platform)
    memory ← memory_reasons requirements hardware
    gpu ← gpu_reasons requirements hardware
    ok (platform_reasons os os_version arch os_version_match hardware ++ (memory ++ gpu))

  pub data Search : Type 0 where
    matched : Dict → Search
    unmatched : List Reason → Search

  unfoldable pub next_platform : Dict → List Reason → Result Search → Result Search
  next_platform platform [] rest = ok (matched platform)
  next_platform platform (r ∷ rs) (ok (unmatched all_reasons)) =
      ok (unmatched ((r ∷ rs) ++ all_reasons))
  next_platform platform (r ∷ rs) rest = rest

  unfoldable pub first_match : Dict → List Dict → Result Search
  first_match hardware [] = ok (unmatched [])
  first_match hardware (platform ∷ platforms) =
      let rest = first_match hardware platforms in
      do reasons ← reasons_of hardware platform; next_platform platform reasons rest

  -- `sorted(platforms, key=…, reverse=True)`, in which equal entries keep their order.
  unfoldable pub with_versions : List Dict → Result (List (V.Version × Dict))
  with_versions [] = ok []
  with_versions (platform ∷ platforms) = do
    text ← index "version" platform
    version ← parse_version_safe V text
    rest ← with_versions platforms
    ok ((version, platform) ∷ rest)

  unfoldable pub insert_version :
      V.Version × Dict → List (V.Version × Dict) → List (V.Version × Dict)
  insert_version x [] = x ∷ []
  insert_version x (y ∷ ys) =
      let rest = insert_version x ys in if V.le y.0 x.0 then x ∷ y ∷ ys else y ∷ rest

  unfoldable pub sorted_versions : List (V.Version × Dict) → List (V.Version × Dict)
  sorted_versions [] = []
  sorted_versions (x ∷ xs) = insert_version x (sorted_versions xs)

  unfoldable pub without_versions : List (V.Version × Dict) → List Dict
  without_versions [] = []
  without_versions ((version, platform) ∷ rest) = platform ∷ without_versions rest

  -- `_parse_version_safe(platform["version"]) == requested_version`
  unfoldable pub of_version : V.Version → List (V.Version × Dict) → List (V.Version × Dict)
  of_version requested [] = []
  of_version requested (x ∷ xs) =
      let rest = of_version requested xs in
      if V.le x.0 requested && V.le requested x.0 then x ∷ rest else rest

  module _ (text : Reason → String) where
    -- `if reason in seen: continue`
    unfoldable pub unique_reasons : List String → List Reason → List Reason
    unique_reasons seen [] = []
    unique_reasons seen (r ∷ rs) =
        let fresh = r ∷ unique_reasons (text r ∷ seen) rs in
        let known = unique_reasons seen rs in if contains seen (text r) then known else fresh

    unfoldable pub verdict : Search → CompatibilityResult
    verdict (matched platform) = record {
      compatible = true;
      matched_entry = some platform;
      reasons = [];
    }
    verdict (unmatched all_reasons) = record {
      compatible = false;
      matched_entry = none;
      reasons = unique_reasons [] all_reasons;
    }

    unfoldable pub refusal : Reason → CompatibilityResult
    refusal r = record { compatible = false; matched_entry = none; reasons = r ∷ [] }

    abbrev pub nothing_known : CompatibilityResult
    nothing_known = record { compatible = true; matched_entry = none; reasons = [] }

    unfoldable pub check_platforms : Dict → List Dict → Result CompatibilityResult
    check_platforms hardware platforms = do
      known ← hardware_known hardware
      if known
          then (do found ← first_match hardware platforms; ok (verdict found))
          else ok nothing_known

    unfoldable pub check_versions : String → Dict → List Dict → Result CompatibilityResult
    check_versions version hardware [] = ok (refusal (version_not_found version))
    check_versions version hardware (p ∷ ps) = check_platforms hardware (p ∷ ps)

    -- `if version: … requested_version = Version(version)`
    unfoldable pub check_requested :
        String → Option V.Version → Dict → List Dict → Result CompatibilityResult
    check_requested version none hardware platforms = ok (refusal (invalid_version version))
    check_requested version (some requested) hardware platforms = do
      versioned ← with_versions platforms
      check_versions version hardware (without_versions (of_version requested versioned))

    unfoldable pub check_latest : Dict → List Dict → Result CompatibilityResult
    check_latest hardware platforms = do
      versioned ← with_versions platforms
      check_platforms hardware (without_versions (sorted_versions versioned))

    unfoldable pub check_candidates : Option String → Dict → List Dict → Result CompatibilityResult
    check_candidates none hardware platforms = check_latest hardware platforms
    check_candidates (some version) hardware platforms =
        if version == ""
        then check_latest hardware platforms
        else check_requested version (V.parse version) hardware platforms

    unfoldable pub check_compatibility :
        (String → Bundled) → String → Dict → Option String → Result CompatibilityResult
    check_compatibility registry_package claw_name hardware version = do
      manifest ← load_manifest registry_package claw_name
      platforms ← platforms_of manifest
      check_candidates version hardware platforms
