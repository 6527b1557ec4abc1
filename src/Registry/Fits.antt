-- ===== src/Registry/Fits.antt =====
-- When an entry of a manifest fits the hardware of a host, and what one round of the loop says.
use clawrium.Json.Equality.{py_eq}
use clawrium.Prelude.{
  ok-injective, ◌≤◌, ℕ, arith, >>=-eq-ok, ◌≡◌, refl, ap, ◌∙◌, Bool, true, List, [], ◌∷◌, ◌++◌, ok,
}
use clawrium.Json.{as_dict, Json, Dict, num, str, obj, empty, get, get_or, index}
use clawrium.Registry.Version.{Versions, version_matches}
use clawrium.Registry.Compatibility.{
  number, gpu_reasons, memory_reasons, platform_reasons, reasons_of,
}

-- An entry fits the hardware: its system, the constraint on its version and its architecture are
-- the host's, which has the memory and, if one is required, the processor.
pub record Fits (V : Versions) (hardware platform : Dict) : Type 0 where
  pub os : Json
  pub os_there : index "os" platform ≡ ok os
  pub same_os : py_eq os (get "os" hardware) ≡ true
  pub os_version : Json
  pub os_version_there : index "os_version" platform ≡ ok os_version
  pub within : version_matches V os_version (get_or "os_version" (str "") hardware) ≡ ok true
  pub arch : Json
  pub arch_there : index "arch" platform ≡ ok arch
  pub same_arch : py_eq arch (get "architecture" hardware) ≡ true
  pub requirements : Dict
  pub requirements_there : as_dict (get_or "requirements" (obj empty) platform) ≡ ok requirements
  pub least : ℕ
  pub least_there : number (get_or "min_memory_mb" (num 0) requirements) ≡ ok least
  pub host_memory : ℕ
  pub host_memory_there : number (get_or "memtotal_mb" (num 0) hardware) ≡ ok host_memory
  pub enough : least ≤ host_memory
  pub gpu_fits : gpu_reasons requirements hardware ≡ ok []

append-eq-nil : {A : Type 0} (xs ys : List A) → xs ++ ys ≡ [] → (xs ≡ []) × (ys ≡ [])
append-eq-nil [] ys e = (refl, e)
append-eq-nil (x ∷ xs) ys e = cc

platform_reasons-eq-nil :
    (os os_version arch : Json) (b : Bool) (hardware : Dict)
    → platform_reasons os os_version arch b hardware ≡ []
    → (py_eq os (get "os" hardware) ≡ true)
      × (b ≡ true)
      × (py_eq arch (get "architecture" hardware) ≡ true)
unfolding platform_reasons
platform_reasons-eq-nil os os_version arch b hardware e = ground arith

memory_reasons-eq-nil :
    (requirements hardware : Dict)
    → memory_reasons requirements hardware ≡ ok []
    → (least : ℕ) × (host : ℕ) × (number (get_or "min_memory_mb" (num 0) requirements) ≡ ok least)
      × (number (get_or "memtotal_mb" (num 0) hardware) ≡ ok host)
      × (least ≤ host)
unfolding memory_reasons
memory_reasons-eq-nil requirements hardware e =
    let (host, e1, e2) = >>=-eq-ok (number (get_or "memtotal_mb" (num 0) hardware)) _ e in
    let (least, e3, e4) = >>=-eq-ok (number (get_or "min_memory_mb" (num 0) requirements)) _ e2 in
    (least, host, e3, e1, ground arith)

module _ (V : Versions) (hardware : Dict) where
  pub reasons_of_sound :
      (platform : Dict) → reasons_of V hardware platform ≡ ok [] → Fits V hardware platform
  unfolding reasons_of
  reasons_of_sound platform e =
      let (os, e1, f1) = >>=-eq-ok (index "os" platform) _ e in
      let (os_version, e2, f2) = >>=-eq-ok (index "os_version" platform) _ f1 in
      let (b, e3, f3) =
        >>=-eq-ok (version_matches V os_version (get_or "os_version" (str "") hardware)) _ f2 in
      let (arch, e4, f4) = >>=-eq-ok (index "arch" platform) _ f3 in
      let (requirements, e5, f5) =
        >>=-eq-ok (as_dict (get_or "requirements" (obj empty) platform)) _ f4 in
      let (memory, e6, f6) = >>=-eq-ok (memory_reasons requirements hardware) _ f5 in
      let (gpu, e7, f7) = >>=-eq-ok (gpu_reasons requirements hardware) _ f6 in
      let (p, rest) =
        append-eq-nil (platform_reasons os os_version arch b hardware) (memory ++ gpu)
          (ok-injective _ _ f7) in
      let (m, g) = append-eq-nil memory gpu rest in
      let (same_os, t, same_arch) = platform_reasons-eq-nil os os_version arch b hardware p in
      let (least, host, l, h, enough) =
        memory_reasons-eq-nil requirements hardware (e6 ∙ ap ok m) in
      record {
        os = os;
        os_there = e1;
        same_os = same_os;
        os_version = os_version;
        os_version_there = e2;
        within = e3 ∙ ap ok t;
        arch = arch;
        arch_there = e4;
        same_arch = same_arch;
        requirements = requirements;
        requirements_there = e5;
        least = least;
        least_there = l;
        host_memory = host;
        host_memory_there = h;
        enough = enough;
        gpu_fits = e7 ∙ ap ok g;
      }

  pub reasons_of_complete :
      (platform : Dict) → Fits V hardware platform → reasons_of V hardware platform ≡ ok []
  unfolding reasons_of memory_reasons platform_reasons
  reasons_of_complete platform f =
      rw
        (
          f.os_there, f.os_version_there, f.within, f.arch_there, f.requirements_there,
          f.host_memory_there, f.least_there, f.gpu_fits, f.same_os, f.same_arch,
        )
        (ground (arith, f.enough))
