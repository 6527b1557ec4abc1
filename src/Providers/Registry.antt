-- ===== src/Providers/Registry.antt =====
-- providers.json as a map from names to records, and the API key of a provider.
use clawrium.Channels.Removal.{after_removal, none_removed}
use clawrium.Prelude.{
  ok-injective, keep, length, nat_eq, providers_corrupted, ◌≡◌, refl, ap, ◌∙◌, sym, String, Bool,
  true, false, not, none, some, List, [], ◌∷◌, ◌++◌, ◌==◌, if◌then◌else◌, ok, Bool-cases,
  Result-cases, inl, inr,
}
use clawrium.Json.{Json, Dict, null, str, get}
use clawrium.Config.{Config}
use clawrium.Records.{named, same, find_first, any_record, parse_records}
use clawrium.Records.Names.{
  ok-if, parse-written, any_record-false, find_named-append, IsUnnamed-of_same,
}
use clawrium.Providers.{
  validate_provider_name, load_providers, save_providers, add_provider, get_provider,
  remove_provider,
}

name_of_valid : (v : Json) → validate_provider_name v ≡ ok tt → (name : String) × (v ≡ str name)
unfolding validate_provider_name
name_of_valid (str name) e = (name, refl)
name_of_valid null e = cc
name_of_valid _ e = cc

found_after :
    (name other : String) (provider : Dict) (ds : List Dict)
    → get "name" provider ≡ str name
    → any_record (same "name" (get "name" provider)) ds ≡ false
    → ok (find_first (named "name" other) (ds ++ (provider ∷ [])))
      ≡ (if name == other then ok (some provider) else ok (find_first (named "name" other) ds))
found_after name other provider ds n f =
    ap ok (
      find_named-append name other ds provider n
        (IsUnnamed-of_same name ds (any_record-false _ ds (rw n at f))))
    ∙ ok-if _ _ _

-- A provider that `add_provider` accepts has a text as its name; that name then leads to it, and
-- every other name to what it led to before.
pub get_provider-add_provider :
    (other : String) (provider : Dict) (c : Config)
    → (add_provider provider c).0 ≡ ok tt
    → (name : String) × (get "name" provider ≡ str name)
      × ((get_provider other (add_provider provider c).1).0
          ≡ (if name == other then ok (some provider) else (get_provider other c).0))
unfolding add_provider get_provider load_providers save_providers
get_provider-add_provider other provider c e =
    elim (Result-cases (validate_provider_name (get "name" provider))) [
      | inr (x, p) ↦ let e' = rw p at e in cc
      | inl (u, p) ↦ elim (Result-cases (parse_records providers_corrupted c.providers)) [
        | inr (x, l) ↦ let e' = rw (p, l) at e in cc
        | inl (ds, l) ↦
            let (name, n) = name_of_valid _ p in
            elim (Bool-cases (any_record (same "name" (get "name" provider)) ds)) [
              | inl t ↦ let e' = rw (p, l, t) at e in cc
              | inr f ↦
                  (name, n, rw (p, l, f, parse-written) (found_after name other provider ds n f))
            ]
      ]
    ]

-- After `remove_provider`, whatever it answers, the name leads to nothing and every other name to
-- what it led to before. If the answer is `False`, no file has changed; the credentials of the
-- provider stay in any case.
pub remove_provider_lem :
    (name other : String) (c : Config) (b : Bool)
    → (remove_provider name c).0 ≡ ok b
    → ((get_provider other (remove_provider name c).1).0
        ≡ (if name == other then ok none else (get_provider other c).0))
      × (b ≡ false → (remove_provider name c).1 ≡ c)
      × ((remove_provider name c).1.secrets ≡ c.secrets)
unfolding remove_provider get_provider load_providers save_providers
remove_provider_lem name other c b e =
    elim (Result-cases (parse_records providers_corrupted c.providers)) [
      | inr (x, l) ↦ let e' = rw l at e in cc
      | inl (ds, l) ↦
          elim (Bool-cases
            (nat_eq (length (keep (λ d. not (named "name" name d)) ds)) (length ds))) [
              | inl t ↦ rw (l, t, l) (none_removed name other ds t, (λ _. refl), refl)
              | inr f ↦
                  let same : true ≡ b = ok-injective _ _ (rw (l, f) at e) in
                  rw (sym same, l, f, parse-written) (after_removal name other ds, (λ k. cc), refl)
            ]
    ]
