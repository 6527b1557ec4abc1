-- ===== src/Hosts/Addresses/Primary.antt =====
-- A host keeps exactly one primary address, which is its hostname, and no address twice.
use clawrium.Prelude.{
  ◌∙◌, refl, Result-cases, attribute_error, address_error, ◌≡◌, refl, ap, ◌∙◌, sym, String, true,
  false, some, [], ◌∷◌, ok, Error, >>=-eq-ok, ok-injective, inl, inr,
}
use clawrium.Json.{Json, Items, Dict, str, arr, nil, find, get_or, put}
use clawrium.Json.Laws.{has_of_find, get_or_of_find, find-put}
use clawrium.Hosts.Migrate.Idempotent.{find-migrate, find-migrate_addresses}
use clawrium.Hosts.Migrate.{migrate, ensure_addresses, address_entry}
use clawrium.Hosts.Addresses.{
  as_addresses, has_address, without_address, mark_primary, add_address, remove_address,
  make_primary,
}
use clawrium.Hosts.Addresses.Entries.{
  primaries, Distinct, new_entry, primaries-append_item, Distinct-append_item,
  primaries-without_address, Distinct-without_address, primaries-mark_primary,
  Distinct-mark_primary,
}

-- One primary address, which is the hostname, and no address twice.
pub record IsConsistent (h : Dict) : Type 0 where
  pub name : String
  pub entries : Items
  pub hostname : find "hostname" h ≡ some (str name)
  pub addresses : find "addresses" h ≡ some (arr entries)
  pub one_primary : primaries entries ≡ str name ∷ []
  pub distinct : Distinct entries

ensure_addresses_of_IsConsistent :
    (now : String) (h : Dict) → IsConsistent h → ensure_addresses now h ≡ ok h
unfolding ensure_addresses
ensure_addresses_of_IsConsistent now h c = rw (has_of_find "addresses" _ h c.addresses)

addresses_of_IsConsistent :
    (after : Error) (h : Dict) (c : IsConsistent h)
    → as_addresses after (get_or "addresses" (arr nil) h) ≡ ok c.entries
unfolding as_addresses
addresses_of_IsConsistent after h c =
    ap (as_addresses after) (get_or_of_find "addresses" (arr nil) (arr c.entries) h c.addresses)

with_addresses :
    (h : Dict) (c : IsConsistent h) (ys : Items)
    → primaries ys ≡ str c.name ∷ []
    → Distinct ys
    → IsConsistent (put "addresses" (arr ys) h)
with_addresses h c ys one d = record {
  name = c.name;
  entries = ys;
  hostname = rw find-put c.hostname;
  addresses = rw find-put;
  one_primary = one;
  distinct = d;
}

pub add_address-IsConsistent :
    (now address : String) (label : Json) (h h' : Dict)
    → add_address now address label h ≡ ok (tt, h')
    → IsConsistent h
    → IsConsistent h'
unfolding add_address
add_address-IsConsistent now address label h h' e c =
    elim (Result-cases (has_address address c.entries)) [
      | inr (x, p) ↦
          let e' =
            rw
              (
                ensure_addresses_of_IsConsistent now h c,
                addresses_of_IsConsistent attribute_error h c,
                p,
              )
              at e in
          cc
      | inl (true, p) ↦
          let e' =
            rw
              (
                ensure_addresses_of_IsConsistent now h c,
                addresses_of_IsConsistent attribute_error h c,
                p,
              )
              at e in
          cc
      | inl (false, p) ↦
          let e' =
            rw
              (
                ensure_addresses_of_IsConsistent now h c,
                addresses_of_IsConsistent attribute_error h c,
                p,
              )
              at e in
          rw (sym (ap (λ (r : Unit {0} × Dict). r.1) (ok-injective _ _ e'))) (
            with_addresses h c _ (primaries-append_item address now label c.entries ∙ c.one_primary)
              (Distinct-append_item address (address_entry (str address) false label (str now))
                c.entries (new_entry address label now) p c.distinct))
    ]

pub remove_address-IsConsistent :
    (now address : String) (h h' : Dict)
    → remove_address now address h ≡ ok (tt, h')
    → IsConsistent h
    → IsConsistent h'
unfolding remove_address
remove_address-IsConsistent now address h h' e c =
    let (ys, p, e') = >>=-eq-ok (without_address address c.entries) _ (
      rw (ensure_addresses_of_IsConsistent now h c, addresses_of_IsConsistent address_error h c) at
        e) in
    rw (sym (ap (λ (r : Unit {0} × Dict). r.1) (ok-injective _ _ e'))) (
      with_addresses h c ys (primaries-without_address address c.entries ys p ∙ c.one_primary)
        (Distinct-without_address address c.entries ys p c.distinct))

-- A host with one primary address, its hostname, and no address twice is such a host after another
-- address is made primary, and its hostname is then that address.
pub make_primary-IsConsistent :
    (now address : String) (h h' : Dict)
    → make_primary now address h ≡ ok (tt, h')
    → IsConsistent h
    → (g : IsConsistent h') × (g.name ≡ address)
unfolding make_primary
make_primary-IsConsistent now address h h' e c =
    elim (Result-cases (has_address address c.entries)) [
      | inr (x, p) ↦
          let e' =
            rw
              (
                ensure_addresses_of_IsConsistent now h c,
                addresses_of_IsConsistent address_error h c,
                p,
              )
              at e in
          cc
      | inl (false, p) ↦
          let e' =
            rw
              (
                ensure_addresses_of_IsConsistent now h c,
                addresses_of_IsConsistent address_error h c,
                p,
              )
              at e in
          cc
      | inl (true, p) ↦
          let (ys, q, e') = >>=-eq-ok (mark_primary address c.entries) _ (
            rw
              (
                ensure_addresses_of_IsConsistent now h c,
                addresses_of_IsConsistent address_error h c,
                p,
              )
              at e) in
          rw (sym (ap (λ (r : Unit {0} × Dict). r.1) (ok-injective _ _ e'))) (
            record {
              name = address;
              entries = ys;
              hostname = rw find-put;
              addresses = simp find-put;
              one_primary = primaries-mark_primary address c.entries ys q p c.distinct;
              distinct = Distinct-mark_primary address c.entries ys q c.distinct;
            },
            refl,
          )
    ]

-- The migrations of a load leave a consistent record consistent.
pub IsConsistent-migrate :
    (now : String) (h h' : Dict) → migrate now h ≡ ok h' → IsConsistent h → IsConsistent h'
IsConsistent-migrate now h h' e c = record {
  name = c.name;
  entries = c.entries;
  hostname = find-migrate now "hostname" h h' (refl, refl, refl) e ∙ c.hostname;
  addresses =
      find-migrate_addresses now h h' e (has_of_find "addresses" _ h c.addresses) ∙ c.addresses;
  one_primary = c.one_primary;
  distinct = c.distinct;
}
