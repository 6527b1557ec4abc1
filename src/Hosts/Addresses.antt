-- ===== src/Hosts/Addresses.antt =====
-- core/hosts.py: the addresses of a host.

pub mod Entries
pub mod Primary
pub mod Fleet
use clawrium.Prelude.{
  String, Bool, true, false, not, Option, none, some, ◌==◌, if◌then◌else◌, Result, ok, err, Error,
  address_error, attribute_error, type_error, ◌>>=◌ as ◌>>=ʳ◌,
}
use clawrium.Json.{
  Json, Items, Dict, bool, str, arr, obj, nil, cons, empty, get, get_or, put, truthy, index, is_str,
}
use clawrium.Json.Lists.{append_item}
use clawrium.Config.{Exec, pure, raise, lift, ◌>>=◌, ◌>>◌}
use clawrium.Hosts.Migrate.{ensure_addresses, address_entry}
use clawrium.Hosts.Store.{update_host}
use clawrium.Hosts.Registry.{get_host}
use clawrium.Hosts.Address.{validate_address}

-- The loop `for addr in addresses` needs a list. Over an empty text or dict it does nothing, and
-- what follows raises `after`.
unfoldable pub as_addresses : Error → Json → Result Items
as_addresses after (arr xs) = ok xs
as_addresses after (str s) = if s == "" then err after else err attribute_error
as_addresses after (obj empty) = err after
as_addresses after (obj _) = err attribute_error
as_addresses after _ = err type_error

-- The search for an address, which stops at the first.
unfoldable pub has_address : String → Items → Result Bool
has_address address nil = ok false
has_address address (cons (obj a) xs) =
    let rest = has_address address xs in if is_str (get "address" a) address then ok true else rest
has_address address (cons _ xs) = err attribute_error

unfoldable pub add_address : String → String → Json → Dict → Result (Unit {0} × Dict)
add_address now address label h = ensure_addresses now h >>=ʳ λ h1.
    as_addresses attribute_error (get_or "addresses" (arr nil) h1) >>=ʳ λ addresses.
    has_address address addresses >>=ʳ λ found.
    if found
    then err address_error
    else ok (
      tt,
      put "addresses"
          (arr (append_item (obj (address_entry (str address) false label (str now))) addresses))
          h1,
    )

-- The list without the first entry of the address, unless that is primary.
unfoldable pub without_address : String → Items → Result Items
without_address address nil = err address_error
without_address address (cons (obj a) xs) =
    let rest = without_address address xs in
    if is_str (get "address" a) address
    then (if truthy (get "is_primary" a) then err address_error else ok xs)
    else (rest >>=ʳ λ ys. ok (cons (obj a) ys))
without_address address (cons _ xs) = err attribute_error

unfoldable pub remove_address : String → String → Dict → Result (Unit {0} × Dict)
remove_address now address h = ensure_addresses now h >>=ʳ λ h1.
    as_addresses address_error (get_or "addresses" (arr nil) h1) >>=ʳ λ addresses.
    without_address address addresses >>=ʳ λ left. ok (tt, put "addresses" (arr left) h1)

-- `for addr in addresses: addr["is_primary"] = addr.get("address") == address`
unfoldable pub mark_primary : String → Items → Result Items
mark_primary address nil = ok nil
mark_primary address (cons (obj a) xs) = mark_primary address xs >>=ʳ λ ys.
    ok (cons (obj (put "is_primary" (bool (is_str (get "address" a) address)) a)) ys)
mark_primary address (cons _ xs) = err attribute_error

unfoldable pub make_primary : String → String → Dict → Result (Unit {0} × Dict)
make_primary now address h = ensure_addresses now h >>=ʳ λ h1.
    as_addresses address_error (get_or "addresses" (arr nil) h1) >>=ʳ λ addresses.
    has_address address addresses >>=ʳ λ found.
    if not found
    then err address_error
    else (mark_primary address addresses >>=ʳ λ marked.
        ok (tt, put "hostname" (str address) (put "addresses" (arr marked) h1)))

-- `if not update_host(actual_hostname, updater): raise AddressError`
unfoldable pub update_found :
    String → (Dict → Result (Unit {0} × Dict)) → Option Dict → Exec (Unit {0})
update_found now updater none = raise address_error
update_found now updater (some host) = do
  actual_hostname ← lift (index "hostname" host)
  updated ← update_host now actual_hostname tt updater
  if updated.0 then pure tt else raise address_error

unfoldable pub add_address_to_host : String → String → String → Json → Exec (Unit {0})
add_address_to_host now hostname address label = do
  lift (validate_address address)
  host ← get_host now hostname
  update_found now (add_address now address label) host

unfoldable pub remove_address_from_host : String → String → String → Exec (Unit {0})
remove_address_from_host now hostname address = do
  host ← get_host now hostname
  update_found now (remove_address now address) host

unfoldable pub set_primary_address : String → String → String → Exec (Unit {0})
set_primary_address now hostname address = do
  lift (validate_address address)
  host ← get_host now hostname
  update_found now (make_primary now address) host

unfoldable pub addresses_of : String → Option Dict → Result Json
addresses_of now none = err address_error
addresses_of now (some host) =
    ensure_addresses now host >>=ʳ λ h. ok (get_or "addresses" (arr nil) h)

unfoldable pub get_host_addresses : String → String → Exec Json
get_host_addresses now hostname = do host ← get_host now hostname; lift (addresses_of now host)
