-- ===== src/Install.antt =====
-- core/install.py: the ports of an agent's listeners. `digest` is the number that the MD5 digest of
-- the agent's name is read as. Ports are naturals, as the numbers of the files are.
pub mod Ports
pub mod Records
pub mod Search
pub mod Cleanup
pub mod Failure
pub mod Choice
use Prim.Native.Nat.{◌%◌}
use clawrium.Prelude.{
  ℕ, zero, ◌+◌, suc, ltb, leb, nat_eq, not, String, Bool, true, false, ◌&&◌, ◌||◌, Option, none,
  some, List, [], ◌∷◌, ◌==◌, if◌then◌else◌, Result, ok, err, ◌>>=◌, zero_division,
  installation_error,
}
use clawrium.Json.{Json, Dict, null, num, obj, empty, entry, get, get_or, index, as_dict}

unfoldable pub port_of : Json → Option ℕ
port_of (num n) = some n
port_of _ = none

-- `node` after the segments of the path
unfoldable pub walk : List String → Json → Json
walk [] node = node
walk (segment ∷ path) (obj d) = walk path (get segment d)
walk (segment ∷ path) _ = null

unfoldable pub peer_port : List String → Json → Option ℕ
unfolding port_of walk
peer_port path (obj other_agent) = port_of (walk path (get_or "config" (obj empty) other_agent))
peer_port path _ = none

unfoldable pub with_port : Option ℕ → List ℕ → List ℕ
with_port none used = used
with_port (some n) used = n ∷ used

-- The ports of the other agents.
unfoldable pub used_ports : String → List String → Dict → List ℕ
used_ports agent_name path empty = []
used_ports agent_name path (entry other_key other_agent more) =
    let rest = used_ports agent_name path more in
    if other_key == agent_name then rest else with_port (peer_port path other_agent) rest

unfoldable pub is_used : ℕ → List ℕ → Bool
is_used p [] = false
is_used p (q ∷ used) = nat_eq p q || is_used p used

unfoldable pub next_port : ℕ → ℕ → ℕ → ℕ
next_port base span candidate = if leb (base + span) (suc candidate) then base else suc candidate

-- `for _ in range(span)`
unfoldable pub free_port : ℕ → ℕ → List ℕ → ℕ → ℕ → Option ℕ
free_port base span used zero candidate = none
free_port base span used (suc n) candidate =
    let rest = free_port base span used n (next_port base span candidate) in
    if is_used candidate used then rest else some candidate

unfoldable pub in_window : ℕ → ℕ → Json → Option ℕ
in_window base span (num p) = if leb base p && ltb p (base + span) then some p else none
in_window base span _ = none

-- `port_hash % span`
unfoldable pub first_port : ℕ → ℕ → ℕ → Result ℕ
first_port base zero digest = err zero_division
first_port base (suc n) digest = ok (base + digest % suc n)

unfoldable pub found_port : Dict → Option ℕ → Result ℕ
found_port host (some p) = ok p
found_port host none = do hostname ← index "hostname" host; err installation_error

unfoldable pub pick_new_port : (String → ℕ) → Dict → String → ℕ → ℕ → List String → Result ℕ
pick_new_port digest host agent_name base span path = do
  candidate ← first_port base span (digest agent_name)
  agents ← as_dict (get_or "agents" (obj empty) host)
  found_port host (free_port base span (used_ports agent_name path agents) span candidate)

unfoldable pub pick_per_instance_port :
    (String → ℕ) → Dict → String → ℕ → ℕ → List String → Json → Result ℕ
pick_per_instance_port digest host agent_name base span path preserved_port =
    elim (in_window base span preserved_port) [
      | some p ↦ ok p
      | none ↦ pick_new_port digest host agent_name base span path
    ]
