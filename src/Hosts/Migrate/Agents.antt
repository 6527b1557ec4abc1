-- ===== src/Hosts/Migrate/Agents.antt =====
-- A migrated host stays one when a field of an agent's record is changed.
use mathlib.Core.Path.{◌∙◌}
use clawrium.Prelude.{
  eq_refl, ◌≡◌, refl, ap, sym, String, false, some, arith, ◌==◌, Bool-cases, inl, inr,
}
use clawrium.Json.{get_or, Json, Dict, empty, entry, obj, find, get, put}
use clawrium.Json.Laws.{find-put, get-put, put-put, has-put, get_of_find, put_of_find}
use clawrium.Hosts.Migrate.{
  prune_keys, prune_config, prune_record, prune_records, prune_agents, prune_agent_config_mirror,
  IsMigrated,
}

-- A record whose `config` holds no pruned key.
abbrev pub IsPruned : Dict → Type 0
IsPruned r = prune_record (obj r) ≡ obj r

find-prune_records :
    (k : String) (v : Json) (d : Dict)
    → find k d ≡ some v
    → find k (prune_records d) ≡ some (prune_record v)
unfolding find prune_records
find-prune_records k v empty e = cc
find-prune_records k v (entry j w d) e = elim (Bool-cases (j == k)) [
  | inl t ↦ let e' = rw t at e in rw t (let q : w ≡ v = cc in ap (λ u. some (prune_record u)) q)
  | inr f ↦ rw f (find-prune_records k v d (rw f at e))
]

prune_records-put :
    (k : String) (v : Json) (d : Dict)
    → prune_records (put k v d) ≡ put k (prune_record v) (prune_records d)
unfolding put prune_records
prune_records-put k v empty = refl
prune_records-put k v (entry j w d) = elim (Bool-cases (j == k)) [
  | inl t ↦ rw t refl
  | inr f ↦ rw f (ap (entry j (prune_record w)) (prune_records-put k v d))
]

pub find_of_get : (k : String) (a d : Dict) → get k d ≡ obj a → find k d ≡ some (obj a)
unfolding get get_or
find_of_get k a d e = ground arith

-- Where putting a value back changes nothing, it is the value that was there.
same_value : (k : String) (a b d : Dict) → put k (obj a) d ≡ d → find k d ≡ some (obj b) → a ≡ b
same_value k a b d e f =
    let g : some (obj a) ≡ some (obj b) =
      sym (find-put k k (obj a) d ∙ rw (eq_refl k) refl) ∙ ap (find k) e ∙ f in
    cc

pruned_agents :
    (h agents : Dict)
    → prune_agent_config_mirror h ≡ h
    → find "agents" h ≡ some (obj agents)
    → prune_records agents ≡ agents
unfolding prune_agent_config_mirror prune_agents
pruned_agents h agents e f =
    same_value "agents" (prune_records agents) agents h
      (rw (get_of_find "agents" (obj agents) h f) at e) f

pub IsPruned-of_IsMigrated :
    (key : String) (h agents r : Dict)
    → IsMigrated h
    → find "agents" h ≡ some (obj agents)
    → find key agents ≡ some (obj r)
    → IsPruned r
IsPruned-of_IsMigrated key h agents r m a f =
    let g : some (prune_record (obj r)) ≡ some (obj r) =
      sym (find-prune_records key (obj r) agents f)
      ∙ ap (find key) (pruned_agents h agents m.pruned a)
      ∙ f in
    cc

prune_config-put :
    (field : String) (v c : Json) (r : Dict)
    → ((field == "config") ≡ false)
    → get "config" r ≡ c
    → prune_config c r ≡ r
    → prune_config c (put field v r) ≡ put field v r
unfolding prune_config
prune_config-put field v (obj config) r ne g e =
    let there = find_of_get "config" config r g in
    let same = same_value "config" (prune_keys config) config r e there in
    rw same (
      put_of_find "config" (obj config) (put field v r) (find-put field "config" v r ∙ rw ne there))
prune_config-put field v _ r ne g e = refl

pub IsPruned-put :
    (field : String) (v : Json) (r : Dict)
    → ((field == "config") ≡ false)
    → IsPruned r
    → IsPruned (put field v r)
unfolding prune_record
IsPruned-put field v r ne p =
    let e : prune_config (get "config" r) r ≡ r = cc in
    rw (get-put, ne) (ap obj (prune_config-put field v (get "config" r) r ne refl e))

pub IsMigrated-put_agent :
    (key : String) (r agents h : Dict)
    → IsMigrated h
    → find "agents" h ≡ some (obj agents)
    → IsPruned r
    → IsMigrated (put "agents" (obj (put key (obj r) agents)) h)
unfolding prune_agent_config_mirror prune_agents
IsMigrated-put_agent key r agents h m a p = record {
  addressed = has-put "agents" "addresses" _ h ∙ m.addressed;
  family = has-put "agents" "os_family" _ h ∙ m.family;
  pruned =
      let same : prune_records (put key (obj r) agents) ≡ put key (obj r) agents =
        prune_records-put key (obj r) agents ∙ rw (p, pruned_agents h agents m.pruned a) refl in
      rw (get-put, same) (put-put "agents" _ _ h);
}
