-- ===== src/Channels/Registry.antt =====
-- channels.json as a map from names to records: what `get_channel` returns after `add_channel` and
-- after `remove_channel`, and the credentials that go with a channel.
use clawrium.Prelude.{
  ◌≡◌, refl, ap, ◌∙◌, String, false, some, List, [], ◌∷◌, ◌++◌, ◌==◌, if◌then◌else◌, ok, Bool-cases,
  Result-cases, inl, inr, channels_corrupted,
}
use clawrium.Json.{Json, Dict, null, str, get, set_default, has}
use clawrium.Json.Laws.{get-put}
use clawrium.Config.{Config}
use clawrium.Records.{named, same, find_first, any_record, parse_records}
use clawrium.Records.Names.{
  IsUnnamed-of_same, ok-if, parse-written, any_record-false, find_named-append,
}
use clawrium.Channels.{
  validate_channel_name, check_type, check_config, load_channels, save_channels, stamp, add_channel,
  get_channel,
}

get-set_default :
    (k j : String) (v : Json) (d : Dict) → (k == j) ≡ false → get j (set_default k v d) ≡ get j d
unfolding set_default
get-set_default k j v d f = elim (Bool-cases (has k d)) [
  | inl t ↦ rw t refl
  | inr g ↦ rw g (get-put k j v d ∙ rw f)
]

name_of_valid : (v : Json) → validate_channel_name v ≡ ok tt → (name : String) × (v ≡ str name)
unfolding validate_channel_name
name_of_valid (str name) e = (name, refl)
name_of_valid null e = cc
name_of_valid _ e = cc

name-stamp : (now : String) (channel : Dict) → get "name" (stamp now channel) ≡ get "name" channel
unfolding stamp
name-stamp now channel =
    get-set_default "updated_at" "name" _ _ refl
    ∙ get-set_default "created_at" "name" _ channel refl

pub found_after :
    (now name other : String) (channel : Dict) (ds : List Dict)
    → get "name" channel ≡ str name
    → any_record (same "name" (get "name" channel)) ds ≡ false
    → ok (find_first (named "name" other) (ds ++ (stamp now channel ∷ []))) ≡ (
        if name == other
        then ok (some (stamp now channel))
        else ok (find_first (named "name" other) ds))
found_after now name other channel ds n f =
    ap ok (
      find_named-append name other ds (stamp now channel) (name-stamp now channel ∙ n)
        (IsUnnamed-of_same name ds (any_record-false _ ds (rw n at f))))
    ∙ ok-if _ _ _

-- A channel that `add_channel` accepts has a text as its name; that name then leads to the record,
-- with the time in it, and every other name to what it led to before.
pub get_channel-add_channel :
    (now other : String) (channel : Dict) (c : Config)
    → (add_channel now channel c).0 ≡ ok tt
    → (name : String) × (get "name" channel ≡ str name)
      × ((get_channel other (add_channel now channel c).1).0
          ≡ (if name == other then ok (some (stamp now channel)) else (get_channel other c).0))
unfolding add_channel get_channel load_channels save_channels
get_channel-add_channel now other channel c e =
    elim (Result-cases (validate_channel_name (get "name" channel))) [
      | inr (x, p) ↦ let e' = rw p at e in cc
      | inl (u, p) ↦ elim (Result-cases (check_type (get "type" channel))) [
        | inr (x, q) ↦ let e' = rw (p, q) at e in cc
        | inl (v, q) ↦ elim (Result-cases (check_config (get "config" channel))) [
          | inr (x, r) ↦ let e' = rw (p, q, r) at e in cc
          | inl (w, r) ↦ elim (Result-cases (parse_records channels_corrupted c.channels)) [
            | inr (x, l) ↦ let e' = rw (p, q, r, l) at e in cc
            | inl (ds, l) ↦
                let (name, n) = name_of_valid _ p in
                elim (Bool-cases (any_record (same "name" (get "name" channel)) ds)) [
                  | inl t ↦ let e' = rw (p, q, r, l, t) at e in cc
                  | inr f ↦ (
                    name,
                    n,
                    rw (p, q, r, l, f, parse-written) (found_after now name other channel ds n f),
                  )
                ]
          ]
        ]
      ]
    ]
