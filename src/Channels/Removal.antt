-- ===== src/Channels/Removal.antt =====
-- `remove_channel`: the record, the credentials, and the refusal while agents use the channel.
use clawrium.Prelude.{
  ◌≡◌, refl, ap, ◌∙◌, sym, String, Bool, true, false, not, none, List, [], ◌∷◌, ◌==◌, if◌then◌else◌,
  ◌&&◌, ok, ok-injective, Bool-cases, Result-cases, inl, inr, length, keep, nat_eq,
  channels_corrupted,
}
use clawrium.Json.{Json, Dict}
use clawrium.Config.{Config}
use clawrium.Records.{named, find_first, parse_records}
use clawrium.Records.Names.{parse-written, find_named-keep, keep_of_length, ok-if}
use clawrium.Hosts.Store.{load_hosts, parse_hosts}
use clawrium.Secrets.{remove_instance_secrets}
use clawrium.Secrets.View.{secret_at}
use clawrium.Secrets.Removal.{remove_instance_secrets_lem}
use clawrium.Channels.{
  load_channels, save_channels, get_channel, get_channel_instance_key, find_agents_using_channel,
  refuse_used, check_unused, remove_channel, remove_channel_credentials,
}

find_agents_using_channel-config :
    (now name : String) (c : Config) → (find_agents_using_channel now name c).1 ≡ c
unfolding find_agents_using_channel load_hosts
find_agents_using_channel-config now name c = elim (Result-cases (parse_hosts now c.hosts)) [
  | inr (x, p) ↦ rw p refl
  | inl (hs, p) ↦ rw p refl
]

check_unused-config :
    (now name : String) (force : Bool) (c : Config) → (check_unused now name force c).1 ≡ c
unfolding check_unused
check_unused-config now name true c = refl
check_unused-config now name false c =
    let same = find_agents_using_channel-config now name c in
    elim (Result-cases (find_agents_using_channel now name c).0) [
      | inr (x, p) ↦ rw (p, same) refl
      | inl (xs, p) ↦ rw (p, same) refl
    ]

refuse_used-eq-ok : (xs : List (Json × String)) (u : Unit {0}) → refuse_used xs ≡ ok u → xs ≡ []
unfolding refuse_used
refuse_used-eq-ok [] u e = refl
refuse_used-eq-ok (x ∷ xs) u e = cc

check_unused-users :
    (now name : String) (c : Config) (u : Unit {0})
    → (check_unused now name false c).0 ≡ ok u
    → (find_agents_using_channel now name c).0 ≡ ok []
unfolding check_unused
check_unused-users now name c u e = elim (Result-cases (find_agents_using_channel now name c).0) [
  | inr (x, p) ↦ let e' = rw p at e in cc
  | inl (xs, p) ↦ p ∙ ap ok (refuse_used-eq-ok xs u (rw p at e))
]

pub after_removal :
    (name other : String) (ds : List Dict)
    → ok (find_first (named "name" other) (keep (λ d. not (named "name" name d)) ds))
      ≡ (if name == other then ok none else ok (find_first (named "name" other) ds))
after_removal name other ds = ap ok (find_named-keep name other ds) ∙ ok-if _ _ _

pub none_removed :
    (name other : String) (ds : List Dict)
    → nat_eq (length (keep (λ d. not (named "name" name d)) ds)) (length ds) ≡ true
    → ok (find_first (named "name" other) ds)
      ≡ (if name == other then ok none else ok (find_first (named "name" other) ds))
none_removed name other ds t =
    ap (λ es. ok (find_first (named "name" other) es)) (sym (keep_of_length _ ds t))
    ∙ after_removal name other ds

-- What `remove_channel` returns `True` or `False` for: afterwards the name leads to no channel, and
-- every other name to what it led to before. If a channel was removed, its credentials are gone and
-- all other secrets are as they were; else no file has changed. hosts.json never changes, and
-- without `force` no agent has used the channel.
pub remove_channel_lem :
    (now name other i k : String) (force : Bool) (c : Config) (b : Bool)
    → (remove_channel now name force c).0 ≡ ok b
    → ((get_channel other (remove_channel now name force c).1).0
        ≡ (if name == other then ok none else (get_channel other c).0))
      × (secret_at i k (remove_channel now name force c).1
          ≡ (if b && (get_channel_instance_key name == i) then none else secret_at i k c))
      × (b ≡ false → (remove_channel now name force c).1 ≡ c)
      × ((remove_channel now name force c).1.hosts ≡ c.hosts)
      × (force ≡ false → (find_agents_using_channel now name c).0 ≡ ok [])
unfolding remove_channel remove_channel_credentials load_channels save_channels get_channel
remove_channel_lem now name other i k force c b e =
    let same = check_unused-config now name force c in
    elim (Result-cases (check_unused now name force c).0) [
      | inr (x, p) ↦ let e' = rw p at e in cc
      | inl (u, p) ↦ elim (Result-cases (parse_records channels_corrupted c.channels)) [
        | inr (x, q) ↦ let e' = rw (p, same, q) at e in cc
        | inl (ds, q) ↦
            let used : force ≡ false → (find_agents_using_channel now name c).0 ≡ ok [] =
              λ f. check_unused-users now name c u (rw f at p) in
            elim (Bool-cases
              (nat_eq (length (keep (λ d. not (named "name" name d)) ds)) (length ds))) [
                | inl t ↦
                    let no : false ≡ b = ok-injective _ _ (rw (p, same, q, t) at e) in
                    rw (sym no, p, same, q, t)
                      (rw q (none_removed name other ds t), refl, λ f. refl, refl, used)
                | inr f ↦
                    elim (Result-cases
                      (remove_instance_secrets (get_channel_instance_key name) c).0) [
                        | inr (x, r) ↦ let e' = rw (p, same, q, f, r) at e in cc
                        | inl (removed, r) ↦
                            let (secrets, files) =
                              remove_instance_secrets_lem (get_channel_instance_key name) i k c
                                removed r in
                            let yes : true ≡ b = ok-injective _ _ (rw (p, same, q, f, r) at e) in
                            rw (sym yes, p, same, q, f, r, parse-written)
                              (
                                after_removal name other ds,
                                secrets,
                                (λ g. cc),
                                ap (λ (d : Config). d.hosts) files,
                                used,
                              )
                      ]
              ]
      ]
    ]
