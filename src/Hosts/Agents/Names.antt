-- ===== src/Hosts/Agents/Names.antt =====
-- What the search for an agent's name returns.
use clawrium.Prelude.{
  All-append, ◌≡◌, refl, String, true, false, some, List, [], ◌∷◌, ◌++◌, ok, err, ◌==◌, All,
  Bool-cases, inl, inr, ◌⊎◌, value_error,
}
use clawrium.Json.{Json, Dict, empty, entry, obj, get, null}
use clawrium.Config.{Config}
use clawrium.Text.{strip}
use clawrium.Hosts.Store.{parse_hosts, load_hosts}
use clawrium.Hosts.Agents.{
  Match, is_called, type_or_key, agent_matches, host_matches, all_matches, the_match,
  get_agent_by_name,
}

-- The entry stands in the dict.
pub data At : String → Json → Dict → Type 0 where
  here : {k : String} {v : Json} {d : Dict} → At k v (entry k v d)
  there : {k j : String} {v w : Json} {d : Dict} → At k v d → At k v (entry j w d)

-- An agent record stands under the key in a host of the list.
pub data Installed (key : String) (agent : Dict) : Dict → List Dict → Type 0 where
  first :
      {h agents : Dict} {hs : List Dict}
      → get "agents" h ≡ obj agents
      → At key (obj agent) agents
      → Installed key agent h (h ∷ hs)
  next : {h g : Dict} {hs : List Dict} → Installed key agent h hs → Installed key agent h (g ∷ hs)

-- One of the matches, if there is at most one.
abbrev Only : Match → List Match → Type 0
Only m [] = ⊥
Only m (n ∷ []) = m ≡ n
Only m (n ∷ n' ∷ ns) = Unit

Only-append_left : (m : Match) (ms ns : List Match) → Only m ms → Only m (ms ++ ns)
Only-append_left m [] ns h = absurd h
Only-append_left m (x ∷ []) [] h = h
Only-append_left m (x ∷ []) (n ∷ ns) h = tt
Only-append_left m (x ∷ y ∷ ms) ns h = tt

Only-append_right : (m : Match) (ms ns : List Match) → Only m ns → Only m (ms ++ ns)
Only-append_right m [] ns h = h
Only-append_right m (x ∷ []) [] h = absurd h
Only-append_right m (x ∷ []) (n ∷ ns) h = tt
Only-append_right m (x ∷ y ∷ ms) ns h = tt

abbrev the : Dict → String → Dict → Match
the h key agent = record {
  host = h;
  agent_type = type_or_key (get "type" agent) key;
  agent = agent;
}

Only-skip :
    (query : String) (m : Match) (h : Dict) (j : String) (w : Json) (d : Dict)
    → Only m (agent_matches query h d)
    → Only m (agent_matches query h (entry j w d))
unfolding agent_matches
Only-skip query m h j (obj r) d o = elim (Bool-cases (is_called query j r)) [
  | inl t ↦ rw t (Only-append_right m (the h j r ∷ []) (agent_matches query h d) o)
  | inr f ↦ rw f o
]
Only-skip query m h j null d o = o
Only-skip query m h j _ d o = o

module _ (query key : String) (agent : Dict) (called : is_called query key agent ≡ true) where
  agent_matches-Only :
      (h d : Dict) → At key (obj agent) d → Only (the h key agent) (agent_matches query h d)
  unfolding agent_matches
  agent_matches-Only h _ (At.here {d = d}) =
      rw called
        (Only-append_left (the h key agent) (the h key agent ∷ []) (agent_matches query h d) refl)
  agent_matches-Only h _ (At.there {j = j} {w = w} {d = d} a) =
      Only-skip query (the h key agent) h j w d (agent_matches-Only h d a)

  all_matches-Only :
      (h : Dict) (hs : List Dict)
      → Installed key agent h hs
      → Only (the h key agent) (all_matches query hs)
  unfolding all_matches host_matches
  all_matches-Only h _ (Installed.first {agents = agents} {hs = hs} e a) =
      rw e (Only-append_left _ (agent_matches query h agents) _ (agent_matches-Only h agents a))
  all_matches-Only h _ (Installed.next {g = g} {hs = hs} i) =
      Only-append_right _ (host_matches query g (get "agents" g)) (all_matches query hs)
        (all_matches-Only h hs i)

the_match_of_Only :
    (m : Match) (ms : List Match)
    → Only m ms
    → (the_match ms ≡ ok (some m)) ⊎ (the_match ms ≡ err value_error)
unfolding the_match
the_match_of_Only m [] o = absurd o
the_match_of_Only m (x ∷ []) o = inl (rw o)
the_match_of_Only m (x ∷ y ∷ ms) o = inr refl

-- An installed agent that is called by a name, by its key or by either stored name, is what the
-- search for the name returns, or the search raises because the name is ambiguous: it is never
-- passed over for another agent, nor reported missing.
pub get_agent_by_name-Installed :
    (now name key : String) (agent h : Dict) (hs : List Dict) (c : Config)
    → (strip name == "") ≡ false
    → parse_hosts now c.hosts ≡ ok hs
    → Installed key agent h hs
    → is_called (strip name) key agent ≡ true
    → (get_agent_by_name now name c ≡ (
      ok (
          some
            (record { host = h; agent_type = type_or_key (get "type" agent) key; agent = agent })),
      c,
    ))
      ⊎ (get_agent_by_name now name c ≡ (err value_error, c))
unfolding get_agent_by_name load_hosts
get_agent_by_name-Installed now name key agent h hs c ne e i called =
    elim (the_match_of_Only _ _ (all_matches-Only (strip name) key agent called h hs i)) [
      | inl found ↦ inl (rw (ne, e, found))
      | inr many ↦ inr (rw (ne, e, many))
    ]

-- What a match is: an installed agent of that name.
abbrev IsFound : String → List Dict → Match → Type 0
IsFound query hs m =
    (key : String) × Installed key m.agent m.host hs × (is_called query key m.agent ≡ true)

module _ (query : String) where
  agent_matches_sound :
      (h agents : Dict) (hs : List Dict) (d : Dict)
      → ((k : String) (v : Json) → At k v d → At k v agents)
      → get "agents" h ≡ obj agents
      → All (IsFound query (h ∷ hs)) (agent_matches query h d)
  unfolding agent_matches
  agent_matches_sound h agents hs empty sub e = tt
  agent_matches_sound h agents hs (entry k (obj r) d) sub e =
      let rest = agent_matches_sound h agents hs d (λ j v a. sub j v (At.there a)) e in
      elim (Bool-cases (is_called query k r)) [
        | inl t ↦ rw t ((k, Installed.first e (sub k (obj r) At.here), t), rest)
        | inr f ↦ rw f rest
      ]
  agent_matches_sound h agents hs (entry k null d) sub e =
      agent_matches_sound h agents hs d (λ j v a. sub j v (At.there a)) e
  agent_matches_sound h agents hs (entry k _ d) sub e =
      agent_matches_sound h agents hs d (λ j v a. sub j v (At.there a)) e

  host_matches_sound :
      (h : Dict) (hs : List Dict) (v : Json)
      → get "agents" h ≡ v
      → All (IsFound query (h ∷ hs)) (host_matches query h v)
  unfolding host_matches
  host_matches_sound h hs (obj agents) e = agent_matches_sound h agents hs agents (λ k v a. a) e
  host_matches_sound h hs null e = tt
  host_matches_sound h hs _ e = tt

  All-weaken :
      (g : Dict) (hs : List Dict) (ms : List Match)
      → All (IsFound query hs) ms
      → All (IsFound query (g ∷ hs)) ms
  All-weaken g hs [] a = tt
  All-weaken g hs (m ∷ ms) a = ((a.0.0, Installed.next a.0.1, a.0.2), All-weaken g hs ms a.1)

  all_matches_sound : (hs : List Dict) → All (IsFound query hs) (all_matches query hs)
  unfolding all_matches
  all_matches_sound [] = tt
  all_matches_sound (h ∷ hs) =
      All-append (IsFound query (h ∷ hs)) _ _ (host_matches_sound h hs (get "agents" h) refl)
        (All-weaken h hs _ (all_matches_sound hs))

the_match_sound :
    (query : String) (hs : List Dict) (ms : List Match) (m : Match)
    → All (IsFound query hs) ms
    → the_match ms ≡ ok (some m)
    → IsFound query hs m
unfolding the_match
the_match_sound query hs [] m a e = cc
the_match_sound query hs (x ∷ []) m a e = let q : x ≡ m = cc in rw q at a.0
the_match_sound query hs (x ∷ y ∷ ms) m a e = cc

-- What the search returns is an agent that is installed on a host of the file and is called by
-- the name, less the spaces around it.
pub get_agent_by_name_sound :
    (now name : String) (m : Match) (hs : List Dict) (c : Config)
    → parse_hosts now c.hosts ≡ ok hs
    → (get_agent_by_name now name c).0 ≡ ok (some m)
    → (key : String) × Installed key m.agent m.host hs × (is_called (strip name) key m.agent ≡ true)
unfolding get_agent_by_name load_hosts
get_agent_by_name_sound now name m hs c e found = elim (Bool-cases (strip name == "")) [
  | inl blank ↦ let f = rw blank at found in cc
  | inr named ↦
      the_match_sound (strip name) hs _ m (all_matches_sound (strip name) hs)
        (rw (named, e) at found)
]
