-- ===== src/Tests/Fleet.antt =====
-- A small fleet, as the files of its configuration directory.
use clawrium.Prelude.{true, false, [], ◌∷◌}
use clawrium.Json.{Json, Dict, empty, entry, str, bool, null, arr, obj, nil, cons}
use clawrium.Hosts.Store.{saved}
use clawrium.Config.{Config, missing}

abbrev pub lab_addresses : Json
lab_addresses = arr (
    cons
      (obj (
        entry "address" (str "10.0.0.1") (
          entry "is_primary" (bool true) (entry "label" null (entry "added_at" (str "t0") empty)))))
      nil)

abbrev pub scout : Dict
scout = entry "type" (str "hermes") (entry "config" (obj (entry "gateway" (obj empty) empty)) empty)

-- A host as an old version wrote it, and as a load at time t0 returns it.
abbrev pub lab_old : Dict
lab_old =
    entry "hostname" (str "10.0.0.1")
      (entry "alias" (str "lab") (entry "agents" (obj (entry "scout" (obj scout) empty)) empty))

abbrev pub lab : Dict
lab = entry "hostname" (str "10.0.0.1") (
    entry "alias" (str "lab") (
      entry "agents" (obj (entry "scout" (obj scout) empty))
        (entry "addresses" lab_addresses (entry "os_family" (str "linux") empty))))

abbrev pub desk_new : Dict
desk_new = entry "hostname" (str "desk") (entry "addresses" (arr nil) empty)

abbrev pub desk : Dict
desk =
    entry "hostname" (str "desk")
      (entry "addresses" (arr nil) (entry "os_family" (str "linux") empty))

abbrev pub fleet : Config
fleet = record {
  hosts = saved (lab_old ∷ []);
  providers = missing;
  channels = missing;
  integrations = missing;
  secrets = missing;
}

-- A host with two addresses, and the same after the second is made primary.
abbrev pub lab_two : Dict
lab_two = entry "hostname" (str "10.0.0.1") (
    entry "addresses"
      (arr (
        cons
          (obj (
            entry "address" (str "10.0.0.1") (
              entry "is_primary" (bool true)
                (entry "label" null (entry "added_at" (str "t0") empty)))))
          (cons
            (obj (
              entry "address" (str "10.0.0.2") (
                entry "is_primary" (bool false)
                  (entry "label" null (entry "added_at" (str "t0") empty)))))
            nil)))
      empty)

abbrev pub lab_two' : Dict
lab_two' = entry "hostname" (str "10.0.0.2") (
    entry "addresses"
      (arr (
        cons
          (obj (
            entry "address" (str "10.0.0.1") (
              entry "is_primary" (bool false)
                (entry "label" null (entry "added_at" (str "t0") empty)))))
          (cons
            (obj (
              entry "address" (str "10.0.0.2") (
                entry "is_primary" (bool true)
                  (entry "label" null (entry "added_at" (str "t0") empty)))))
            nil)))
      empty)
