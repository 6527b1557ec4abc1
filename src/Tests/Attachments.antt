-- ===== src/Tests/Attachments.antt =====
-- Witnesses of the properties of core/provider_attachments.py.
use clawrium.Prelude.{◌≡◌, ◌↔◌, ◌⊎◌, ◌≤◌, String, false, some, List, ok, ◌==◌}
use clawrium.Json.{Items, nil, cons}
use clawrium.Attachments.{attachment, validate}
use clawrium.Attachments.Roles.{HasRoles, count, validate_iff}

abbrev attached : Items
attached = cons (attachment "work" "primary" "") (cons (attachment "home" "vision" "small") nil)

validate_iff_example : (validate attached (some "hermes") ≡ ok tt) ↔ (
    (attached ≡ nil)
    ⊎ ((rs : List String) × HasRoles attached rs
        × (count "primary" rs ≡ 1)
        × ((slot : String) → ("primary" == slot) ≡ false → count slot rs ≤ 1)))
validate_iff_example = validate_iff attached
