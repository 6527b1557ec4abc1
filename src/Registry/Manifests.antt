-- ===== src/Registry/Manifests.antt =====
-- The validated manifest is its own validation.
use clawrium.Text.Strip.{strip-strip}
use clawrium.Text.{strip}
use clawrium.Json.{cons, Items, null, bool, arr, nil, Json}
use clawrium.Registry.{
  object_of, each_item, list_of, Json, str, any_object, filled_text, flag, any_text, text_or_flag,
  natural,
}
use clawrium.Registry.Sections.{
  overlay_fields, web_ui_binds, web_ui_fields, agent_fields, chat_types, manifest_fields,
  chat_fields, task_fields, stage_fields, onboarding_fields, features_fields, validate_manifest,
  platform_fields, workspace_fields, definition_fields, secrets_fields, requirements_fields,
  exclude, rooted, excludes, destination_root, relative, platforms, own_type, web_ui_port, choice,
  port_field,
}
use clawrium.Prelude.{
  refl, Result, >>=-eq-ok, ap, ◌∙◌, ok-injective, sym, ok, ◌≡◌, arith, String, List,
}
use clawrium.Registry.Idempotent.{
  ◌also◌, table_of-IsIdempotent, object_of-IsIdempotent, list_of-IsIdempotent, IsIdempotent,
}

filled_text-IsIdempotent : IsIdempotent filled_text
unfolding filled_text
filled_text-IsIdempotent v w e = ground arith

any_text-IsIdempotent : IsIdempotent any_text
unfolding any_text
any_text-IsIdempotent v w e = ground arith

flag-IsIdempotent : IsIdempotent flag
unfolding flag
flag-IsIdempotent v w e = ground arith

natural-IsIdempotent : IsIdempotent natural
unfolding natural
natural-IsIdempotent v w e = ground arith

text_or_flag-IsIdempotent : IsIdempotent text_or_flag
unfolding text_or_flag
text_or_flag-IsIdempotent v w e = ground arith

any_object-IsIdempotent : IsIdempotent any_object
unfolding any_object
any_object-IsIdempotent v w e = ground arith

web_ui_port-IsIdempotent : IsIdempotent web_ui_port
unfolding web_ui_port
web_ui_port-IsIdempotent v w e = ground arith

choice-IsIdempotent : (options : List String) → IsIdempotent (choice options)
unfolding choice
choice-IsIdempotent options v w e = ground arith

port_field-IsIdempotent : IsIdempotent port_field
unfolding port_field
port_field-IsIdempotent v w e = ground arith

own_type-IsIdempotent : (agent_type : String) → IsIdempotent (own_type agent_type)
unfolding own_type
own_type-IsIdempotent agent_type v w e = ground arith

rooted-eq-ok : (s : String) (w : Json) → rooted s ≡ ok w → w ≡ str s
unfolding rooted
rooted-eq-ok s w e = ground arith

destination_root-IsIdempotent : IsIdempotent destination_root
unfolding destination_root
destination_root-IsIdempotent (str s) w e =
    rw (rooted-eq-ok (strip s) w e, strip-strip s) (e ∙ ap ok (rooted-eq-ok (strip s) w e))
destination_root-IsIdempotent null w e = cc
destination_root-IsIdempotent _ w e = cc

relative-eq-ok : (s : String) (w : Json) → relative s ≡ ok w → w ≡ str s
unfolding relative
relative-eq-ok s w e = ground arith

exclude-IsIdempotent : IsIdempotent exclude
unfolding exclude
exclude-IsIdempotent (str s) w e =
    rw (relative-eq-ok (strip s) w e, strip-strip s) (e ∙ ap ok (relative-eq-ok (strip s) w e))
exclude-IsIdempotent null w e = cc
exclude-IsIdempotent _ w e = cc

excludes-IsIdempotent : IsIdempotent excludes
unfolding excludes list_of each_item
excludes-IsIdempotent null w e = rw (sym (ok-injective _ _ e)) refl
excludes-IsIdempotent (arr xs) w e =
    let (vs, e1, e2) = >>=-eq-ok (each_item exclude xs) _ e in
    rw (sym (ok-injective _ _ e2)) (
      unfold list_of in
      list_of-IsIdempotent exclude exclude-IsIdempotent (arr xs) (arr vs) (rw e1 refl))
excludes-IsIdempotent (bool b) w e = cc
excludes-IsIdempotent _ w e = cc

each_item-cons :
    (check : Json → Result Json) (x : Json) (xs ys : Items)
    → each_item check (cons x xs) ≡ ok ys
    → (y : Json) × (zs : Items) × (ys ≡ cons y zs)
unfolding each_item
each_item-cons check x xs ys e =
    let (v, e1, e2) = >>=-eq-ok (check x) _ e in
    let (vs, e3, e4) = >>=-eq-ok (each_item check xs) _ e2 in (v, vs, sym (ok-injective _ _ e4))

module _ (check : Json → Result Json) (i : IsIdempotent check) where
  filled_list-again :
      (x : Json) (xs : Items) (w : Json)
      → list_of check (arr (cons x xs)) ≡ ok w
      → (y : Json) × (ys : Items) × (w ≡ arr (cons y ys)) × (list_of check w ≡ ok w)
  unfolding list_of
  filled_list-again x xs w e =
      let (vs, e1, e2) = >>=-eq-ok (each_item check (cons x xs)) _ e in
      let (y, ys, same) = each_item-cons check x xs vs e1 in
      (
        y,
        ys,
        sym (ok-injective _ _ e2) ∙ ap arr same,
        list_of-IsIdempotent check i (arr (cons x xs)) w e,
      )

requirements-IsIdempotent : IsIdempotent (object_of requirements_fields)
requirements-IsIdempotent = object_of-IsIdempotent requirements_fields (ground arith) (
    natural-IsIdempotent
    also flag-IsIdempotent
    also table_of-IsIdempotent filled_text filled_text-IsIdempotent
    also tt)

platform-IsIdempotent : IsIdempotent (object_of platform_fields)
platform-IsIdempotent = object_of-IsIdempotent platform_fields (ground arith) (
    filled_text-IsIdempotent also filled_text-IsIdempotent also filled_text-IsIdempotent
    also filled_text-IsIdempotent also requirements-IsIdempotent also filled_text-IsIdempotent
    also tt)

platforms-IsIdempotent : IsIdempotent platforms
unfolding platforms
platforms-IsIdempotent (arr nil) w e = cc
platforms-IsIdempotent (arr (cons x xs)) w e =
    let (y, ys, same, again) =
      filled_list-again (object_of platform_fields) platform-IsIdempotent x xs w e in
    rw same (rw same at again)
platforms-IsIdempotent null w e = cc
platforms-IsIdempotent _ w e = cc

definition-IsIdempotent : IsIdempotent (object_of definition_fields)
definition-IsIdempotent =
    object_of-IsIdempotent definition_fields (ground arith)
      (filled_text-IsIdempotent also filled_text-IsIdempotent also tt)

secrets-IsIdempotent : IsIdempotent (object_of secrets_fields)
secrets-IsIdempotent =
    let i = list_of-IsIdempotent (object_of definition_fields) definition-IsIdempotent in
    object_of-IsIdempotent secrets_fields (ground arith) (i also i also tt)

task-IsIdempotent : IsIdempotent (object_of task_fields)
task-IsIdempotent = object_of-IsIdempotent task_fields (ground arith) (
    filled_text-IsIdempotent
    also filled_text-IsIdempotent
    also filled_text-IsIdempotent
    also any_text-IsIdempotent
    also any_text-IsIdempotent
    also any_text-IsIdempotent
    also any_text-IsIdempotent
    also any_text-IsIdempotent
    also list_of-IsIdempotent any_text any_text-IsIdempotent
    also list_of-IsIdempotent any_text any_text-IsIdempotent
    also list_of-IsIdempotent any_object any_object-IsIdempotent
    also text_or_flag-IsIdempotent
    also natural-IsIdempotent
    also tt)

stage-IsIdempotent : IsIdempotent (object_of stage_fields)
stage-IsIdempotent = object_of-IsIdempotent stage_fields (ground arith) (
    filled_text-IsIdempotent
    also flag-IsIdempotent
    also flag-IsIdempotent
    also list_of-IsIdempotent (object_of task_fields) task-IsIdempotent
    also tt)

onboarding-IsIdempotent : IsIdempotent (object_of onboarding_fields)
onboarding-IsIdempotent =
    object_of-IsIdempotent onboarding_fields (tt, tt)
      (table_of-IsIdempotent (object_of stage_fields) stage-IsIdempotent, tt)

workspace-IsIdempotent : IsIdempotent (object_of workspace_fields)
workspace-IsIdempotent =
    object_of-IsIdempotent workspace_fields (tt, tt) (filled_text-IsIdempotent, tt)

features-IsIdempotent : IsIdempotent (object_of features_fields)
features-IsIdempotent = object_of-IsIdempotent features_fields (ground arith) (
    flag-IsIdempotent
    also object_of-IsIdempotent chat_fields (tt, tt) (choice-IsIdempotent chat_types, tt)
    also object_of-IsIdempotent web_ui_fields (ground arith) (
        flag-IsIdempotent
        also choice-IsIdempotent web_ui_binds
        also port_field-IsIdempotent
        also web_ui_port-IsIdempotent
        also tt)
    also object_of-IsIdempotent overlay_fields (ground arith)
        (destination_root-IsIdempotent also excludes-IsIdempotent also tt)
    also tt)

-- Validating a manifest again, as it was returned, changes nothing: whatever was accepted is
-- accepted in its normal form, and that form is final.
pub validate_manifest_idem :
    (manifest_data validated : Json) (agent_type : String)
    → validate_manifest manifest_data agent_type ≡ ok validated
    → validate_manifest validated agent_type ≡ ok validated
unfolding validate_manifest
validate_manifest_idem manifest_data validated agent_type =
    object_of-IsIdempotent (manifest_fields agent_type) (ground arith)
      (object_of-IsIdempotent (agent_fields agent_type) (ground arith)
          (own_type-IsIdempotent agent_type also any_text-IsIdempotent also tt)
        also platforms-IsIdempotent
        also secrets-IsIdempotent
        also onboarding-IsIdempotent
        also workspace-IsIdempotent
        also features-IsIdempotent
        also tt)
      manifest_data validated
