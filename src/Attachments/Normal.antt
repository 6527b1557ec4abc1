-- ===== src/Attachments/Normal.antt =====
-- Normal forms of attachments: normalizing twice is normalizing once, and the first bare name of a
-- legacy list becomes the primary.
use clawrium.Prelude.{
  attachment_error, ◌≡◌, refl, ap, String, Bool, true, false, ◌||◌, Option, some, List, [], ◌∷◌,
  if◌then◌else◌, ok, err, ◌==◌, arith, Bool-cases, inl, inr,
}
use clawrium.Json.{Json, Items, Dict, null, str, arr, obj, nil, cons, get, get_or, find}
use clawrium.Attachments.{
  attachment, text_of, named_attachment, names_primary, cons?, normalize_hermes, normalize_names,
  name_only, normalize, supports_multi_provider, validate, check_entries, entry_role, is_name,
  valid_role, count_items,
}
use clawrium.Json.Lists.{strs}

-- A dict in the canonical form of a hermes attachment.
renormalize :
    (assigned : Bool) (name role model : String) (xs : Items)
    → ((b : Bool) → normalize_hermes b xs ≡ xs)
    → normalize_hermes assigned (cons (attachment name role model) xs)
      ≡ cons (attachment name role model) xs
unfolding normalize_hermes attachment named_attachment names_primary text_of cons? get get_or find
renormalize assigned name role model xs ih = ap (cons (attachment name role model)) (ih _)

renormalize_named :
    (assigned : Bool) (name : Json) (d : Dict) (xs : Items)
    → ((b : Bool) → normalize_hermes b xs ≡ xs)
    → normalize_hermes assigned (cons? (named_attachment name d) xs)
      ≡ cons? (named_attachment name d) xs
unfolding named_attachment cons?
renormalize_named assigned (str name) d xs ih = renormalize assigned name _ _ xs ih
renormalize_named assigned null d xs ih = ih assigned
renormalize_named assigned _ d xs ih = ih assigned

normalize_hermes_idem :
    (assigned b : Bool) (xs : Items)
    → normalize_hermes b (normalize_hermes assigned xs) ≡ normalize_hermes assigned xs
unfolding normalize_hermes
normalize_hermes_idem assigned b nil = refl
normalize_hermes_idem assigned b (cons (str s) xs) =
    renormalize b s (if assigned then "" else "primary") "" (normalize_hermes true xs)
      (λ c. normalize_hermes_idem true c xs)
normalize_hermes_idem assigned b (cons (obj d) xs) =
    renormalize_named b (get "name" d) d _
      (λ c. normalize_hermes_idem (assigned || names_primary (get "name" d) d) c xs)
normalize_hermes_idem assigned b (cons null xs) = normalize_hermes_idem assigned b xs
normalize_hermes_idem assigned b (cons _ xs) = normalize_hermes_idem assigned b xs

normalize_names_named :
    (name : Json) (xs : Items)
    → normalize_names xs ≡ xs
    → normalize_names (cons? (name_only name) xs) ≡ cons? (name_only name) xs
unfolding normalize_names cons? name_only
normalize_names_named (str s) xs h = ap (cons (str s)) h
normalize_names_named null xs h = h
normalize_names_named _ xs h = h

normalize_names_idem : (xs : Items) → normalize_names (normalize_names xs) ≡ normalize_names xs
unfolding normalize_names
normalize_names_idem nil = refl
normalize_names_idem (cons (str s) xs) = ap (cons (str s)) (normalize_names_idem xs)
normalize_names_idem (cons (obj d) xs) =
    normalize_names_named (get "name" d) _ (normalize_names_idem xs)
normalize_names_idem (cons null xs) = normalize_names_idem xs
normalize_names_idem (cons _ xs) = normalize_names_idem xs

empty_normal :
    (agent_type : Option String)
    → (if supports_multi_provider agent_type
        then normalize_hermes false nil
        else normalize_names nil)
      ≡ nil
unfolding normalize_hermes normalize_names
empty_normal agent_type = ground arith

-- Whatever was stored, the normal form of the attachments is its own normal form, for every type
-- of agent.
pub normalize_idem :
    (raw : Json) (agent_type : Option String)
    → normalize (arr (normalize raw agent_type)) agent_type ≡ normalize raw agent_type
unfolding normalize
normalize_idem (arr raw) agent_type = elim (Bool-cases (supports_multi_provider agent_type)) [
  | inl t ↦ rw t (normalize_hermes_idem false false raw)
  | inr f ↦ rw f (normalize_names_idem raw)
]
normalize_idem null agent_type = empty_normal agent_type
normalize_idem _ agent_type = empty_normal agent_type

-- A legacy list of names, migrated for hermes, is valid exactly if it holds one name: the first
-- name becomes the primary, and a second has no role.
pub validate-normalize_names :
    (name : String) (names : List String)
    → (name == "") ≡ false
    → validate (normalize (arr (strs (name ∷ names))) (some "hermes")) (some "hermes")
      ≡ elim names [ [] ↦ ok tt | _ ∷ _ ↦ err attachment_error ]
unfolding normalize normalize_hermes validate supports_multi_provider strs check_entries entry_role
    attachment is_name valid_role count_items get get_or find
validate-normalize_names name [] ne = rw ne
validate-normalize_names name (second ∷ names) ne = elim (Bool-cases (second == "")) [
  | inl t ↦ rw (ne, t) (ground arith)
  | inr f ↦ rw (ne, f) (ground arith)
]
