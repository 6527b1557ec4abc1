-- ===== src/Hosts/Addresses/Fleet.antt =====
-- The operations on addresses keep every host of the file consistent.
use clawrium.Prelude.{◌≡◌, String, Option, none, some, Result, ok}
use clawrium.Json.{Json, Dict, index}
use clawrium.Config.{Config}
use clawrium.Config.Keeps.{
  Keeps, Keeps-lift, Keeps-pure, Keeps-raise, Keeps-reads, Keeps-if, Keeps-bind,
}
use clawrium.Hosts.Store.{load_hosts}
use clawrium.Hosts.Store.Invariant.{AllHosts, update_host-AllHosts}
use clawrium.Hosts.Registry.{get_host}
use clawrium.Hosts.Address.{validate_address}
use clawrium.Hosts.Addresses.{
  update_found, add_address_to_host, remove_address_from_host, set_primary_address,
}
use clawrium.Hosts.Addresses.Primary.{
  IsConsistent, IsConsistent-migrate, add_address-IsConsistent, remove_address-IsConsistent,
  make_primary-IsConsistent,
}

abbrev pub HasConsistentHosts : Config → Type 0
HasConsistentHosts = AllHosts IsConsistent

get_host-Keeps : (now identifier : String) → Keeps HasConsistentHosts (get_host now identifier)
unfolding get_host load_hosts
get_host-Keeps now identifier =
    Keeps-bind HasConsistentHosts _ _ (Keeps-reads _ _) (λ hs. Keeps-pure _ _)

update_found-Keeps :
    (now : String) (updater : Dict → Result (Unit {0} × Dict))
    → ((h h' : Dict) (a : Unit {0}) → updater h ≡ ok (a, h') → IsConsistent h → IsConsistent h')
    → (host : Option Dict) → Keeps HasConsistentHosts (update_found now updater host)
unfolding update_found
update_found-Keeps now updater keeps none = Keeps-raise _ _
update_found-Keeps now updater keeps (some host) =
    Keeps-bind HasConsistentHosts _ _ (Keeps-lift _ (index "hostname" host)) λ actual.
      Keeps-bind HasConsistentHosts _ _
        (update_host-AllHosts IsConsistent IsConsistent-migrate now actual tt updater keeps)
        λ updated. Keeps-if _ _ _ _ (Keeps-pure _ _) (Keeps-raise _ _)

-- If every host of the file has one primary address, which is its hostname, and no address twice,
-- then so it is after an address is added, whether the operation succeeds or raises.
pub add_address_to_host-HasConsistentHosts :
    (now hostname address : String) (label : Json) (c : Config)
    → HasConsistentHosts c
    → HasConsistentHosts (add_address_to_host now hostname address label c).1
unfolding add_address_to_host
add_address_to_host-HasConsistentHosts now hostname address label c h =
    (Keeps-bind HasConsistentHosts _ _ (Keeps-lift _ (validate_address address)) λ _.
        Keeps-bind HasConsistentHosts _ _ (get_host-Keeps now hostname) λ host.
          update_found-Keeps now _ (λ h h' _ e. add_address-IsConsistent now address label h h' e)
            host).at
      c h

-- If every host of the file has one primary address, which is its hostname, and no address twice,
-- then so it is after an address is removed, whether the operation succeeds or raises.
pub remove_address_from_host-HasConsistentHosts :
    (now hostname address : String) (c : Config)
    → HasConsistentHosts c
    → HasConsistentHosts (remove_address_from_host now hostname address c).1
unfolding remove_address_from_host
remove_address_from_host-HasConsistentHosts now hostname address c h =
    (Keeps-bind HasConsistentHosts _ _ (get_host-Keeps now hostname) λ host.
        update_found-Keeps now _ (λ h h' _ e. remove_address-IsConsistent now address h h' e)
          host).at
      c h

-- If every host of the file has one primary address, which is its hostname, and no address twice,
-- then so it is after another address is made primary, whether the operation succeeds or raises.
pub set_primary_address-HasConsistentHosts :
    (now hostname address : String) (c : Config)
    → HasConsistentHosts c
    → HasConsistentHosts (set_primary_address now hostname address c).1
unfolding set_primary_address
set_primary_address-HasConsistentHosts now hostname address c h =
    (Keeps-bind HasConsistentHosts _ _ (Keeps-lift _ (validate_address address)) λ _.
        Keeps-bind HasConsistentHosts _ _ (get_host-Keeps now hostname) λ host.
          update_found-Keeps now _
            (λ h h' _ e k. (make_primary-IsConsistent now address h h' e k).0) host).at
      c h
