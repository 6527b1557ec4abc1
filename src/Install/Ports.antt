-- ===== src/Install/Ports.antt =====
-- Where the search for a port ends.
use clawrium.Install.{
  installation_error, err, num, index, Json, pick_per_instance_port, in_window, as_dict,
  pick_new_port, first_port, found_port, free_port, next_port, is_used, used_ports, with_port,
  peer_port,
}
use clawrium.Prelude.{
  ◌∙◌, installation_error, err, ℕ, zero, ◌+◌, suc, ◌≤◌, ◌<◌, ◌≡◌, refl, ◌⊎◌, inl, inr, String, true,
  false, Option, none, some, List, ◌==◌, Bool-cases, Option-cases, nat_eq_iff, arith, ok,
}
use clawrium.Json.{num, find, index, Json, as_dict, Dict, obj, empty, entry, get_or}

-- Another agent of the host listens at the port.
abbrev pub Taken : String → List String → Dict → ℕ → Type 0
Taken name path empty q = ⊥
Taken name path (entry key agent more) q =
    (((key == name) ≡ false) × (peer_port path agent ≡ some q)) ⊎ Taken name path more q

abbrev pub InWindow : ℕ → ℕ → ℕ → Type 0
InWindow base span q = (base ≤ q) × (q < base + span)

used-with_port :
    (q : ℕ) (o : Option ℕ) (used : List ℕ)
    → is_used q (with_port o used) ≡ true
    → (o ≡ some q) ⊎ (is_used q used ≡ true)
unfolding is_used with_port
used-with_port q none used h = inr h
used-with_port q (some p) used h = ground (arith, nat_eq_iff q p)

with_port-used :
    (q : ℕ) (o : Option ℕ) (used : List ℕ)
    → (o ≡ some q) ⊎ (is_used q used ≡ true)
    → is_used q (with_port o used) ≡ true
unfolding is_used with_port
with_port-used q none used h = ground arith
with_port-used q (some p) used h = ground (arith, nat_eq_iff q p)

Taken-of_used :
    (name : String) (path : List String) (agents : Dict) (q : ℕ)
    → is_used q (used_ports name path agents) ≡ true
    → Taken name path agents q
unfolding used_ports is_used
Taken-of_used name path empty q h = cc
Taken-of_used name path (entry key agent more) q h = elim (Bool-cases (key == name)) [
  | inl e ↦ inr (Taken-of_used name path more q (rw e at h))
  | inr e ↦ elim (used-with_port q (peer_port path agent) _ (rw e at h)) [
    | inl p ↦ inl (e, p)
    | inr u ↦ inr (Taken-of_used name path more q u)
  ]
]

used-of_Taken :
    (name : String) (path : List String) (agents : Dict) (q : ℕ)
    → Taken name path agents q
    → is_used q (used_ports name path agents) ≡ true
unfolding used_ports
used-of_Taken name path empty q t = elim t [ ]
used-of_Taken name path (entry key agent more) q (inl t) =
    rw t.0 (with_port-used q (peer_port path agent) _ (inl t.1))
used-of_Taken name path (entry key agent more) q (inr t) =
    let rest = used-of_Taken name path more q t in
    elim (Bool-cases (key == name)) [
      | inl e ↦ rw e rest
      | inr e ↦ rw e (with_port-used q (peer_port path agent) _ (inr rest))
    ]

next_port-InWindow :
    (base span c : ℕ) → InWindow base span c → InWindow base span (next_port base span c)
unfolding next_port
next_port-InWindow base span c w = ground arith

-- A port that the search finds.
free_port-InWindow :
    (base span : ℕ) (used : List ℕ) (n c p : ℕ)
    → InWindow base span c
    → free_port base span used n c ≡ some p
    → InWindow base span p × (is_used p used ≡ false)
unfolding free_port next_port
free_port-InWindow base span used zero c p w h = cc
free_port-InWindow base span used (suc n) c p w h =
    ground (arith, free_port-InWindow base span used n _ p (next_port-InWindow base span c w))

-- `q` is one of the `n` ports of the window that the search tries from `c` on.
abbrev Ahead : ℕ → ℕ → ℕ → ℕ → Type 0
Ahead span n c q = ((c ≤ q) × (q < c + n)) ⊎ ((q < c) × (q + span < c + n))

Ahead-next_port :
    (base span n c q : ℕ)
    → InWindow base span c
    → InWindow base span q
    → Ahead span (suc n) c q
    → (c ≡ q) ⊎ Ahead span n (next_port base span c) q
unfolding next_port
Ahead-next_port base span n c q w v d = ground arith

-- After `n` steps without a port, the `n` ports from the candidate on are used.
free_port-exhausted :
    (base span : ℕ) (used : List ℕ) (n c q : ℕ)
    → InWindow base span c
    → InWindow base span q
    → Ahead span n c q
    → free_port base span used n c ≡ none
    → is_used q used ≡ true
unfolding free_port
free_port-exhausted base span used zero c q w v d h = ground arith
free_port-exhausted base span used (suc n) c q w v d h = elim (Bool-cases (is_used c used)) [
  | inl u ↦ elim (Ahead-next_port base span n c q w v d) [
    | inl e ↦ cc
    | inr d1 ↦
        free_port-exhausted base span used n _ q (next_port-InWindow base span c w) v d1 (rw u at h)
  ]
  | inr u ↦ ground arith
]

Window-first_port :
    (base span d : ℕ)
    → zero < span
    → (c : ℕ) × (first_port base span d ≡ ok c) × InWindow base span c
unfolding first_port
Window-first_port base zero d h = ground arith
Window-first_port base (suc n) d h = (_, refl, (omega arith, omega arith))

Ahead-all : (base span c q : ℕ) → InWindow base span c → InWindow base span q → Ahead span span c q
Ahead-all base span c q w v = ground arith

pick_new_port-eq :
    (digest : String → ℕ) (host agents : Dict) (name : String) (base span c : ℕ)
    (path : List String)
    → first_port base span (digest name) ≡ ok c
    → get_or "agents" (obj empty) host ≡ obj agents
    → pick_new_port digest host name base span path
      ≡ found_port host (free_port base span (used_ports name path agents) span c)
unfolding pick_new_port as_dict
pick_new_port-eq digest host agents name base span c path f a = rw f (rw a refl)

pick_new_port_lem :
    (digest : String → ℕ) (host agents : Dict) (name : String) (base span : ℕ) (path : List String)
    → zero < span
    → get_or "agents" (obj empty) host ≡ obj agents
    → ((p : ℕ) × (pick_new_port digest host name base span path ≡ ok p)
        × InWindow base span p
        × ¬ Taken name path agents p)
      ⊎ ((pick_new_port digest host name base span path ≡ found_port host none)
          × ((q : ℕ) → InWindow base span q → Taken name path agents q))
unfolding found_port
pick_new_port_lem digest host agents name base span path h a =
    let first = Window-first_port base span (digest name) h in
    let used = used_ports name path agents in
    let e = pick_new_port-eq digest host agents name base span first.0 path first.1 a in
    elim (Option-cases (free_port base span used span first.0)) [
      | inl n ↦ inr (
        rw n at e,
        λ q w. Taken-of_used name path agents q (
            free_port-exhausted base span used span first.0 q first.2 w
              (Ahead-all base span first.0 q first.2 w) n),
      )
      | inr s ↦
          let found = free_port-InWindow base span used span first.0 s.0 first.2 s.1 in
          inl (s.0, (rw s.1 at e), found.0, λ t. let u = used-of_Taken name path agents s.0 t in cc)
    ]

in_window_sound :
    (base span p : ℕ) (v : Json)
    → in_window base span v ≡ some p
    → (v ≡ num p) × InWindow base span p
unfolding in_window
in_window_sound base span p (num q) h = ground arith
in_window_sound base span p _ h = cc

exhausted-error :
    (host : Dict) (hostname : Json)
    → find "hostname" host ≡ some hostname
    → found_port host none ≡ err installation_error
unfolding found_port index
exhausted-error host hostname n = rw (n, found_port, index) refl

-- Given a host with a hostname and a dict of agents, and a window that is not empty: the port is in
-- the window, and it is the preserved one or no other agent of the host has it; or every port of
-- the window is taken by another agent, and only then the installation fails. The search always
-- ends within as many steps as the window has ports.
pub pick_per_instance_port_lem :
    (digest : String → ℕ) (host agents : Dict) (hostname preserved : Json) (name : String)
    (base span : ℕ) (path : List String)
    → zero < span
    → find "hostname" host ≡ some hostname
    → get_or "agents" (obj empty) host ≡ obj agents
    → ((p : ℕ) × (pick_per_instance_port digest host name base span path preserved ≡ ok p)
        × InWindow base span p
        × ((preserved ≡ num p) ⊎ (¬ Taken name path agents p)))
      ⊎ ((pick_per_instance_port digest host name base span path preserved ≡ err installation_error)
          × ((q : ℕ) → InWindow base span q → Taken name path agents q))
unfolding pick_per_instance_port
pick_per_instance_port_lem digest host agents hostname preserved name base span path h n a =
    elim (Option-cases (in_window base span preserved)) [
      | inr s ↦
          let kept = in_window_sound base span s.0 preserved s.1 in
          inl (s.0, rw (s.1, pick_per_instance_port) refl, kept.1, inl kept.0)
      | inl k ↦ elim (pick_new_port_lem digest host agents name base span path h a) [
        | inl found ↦ inl (found.0, rw (k, pick_per_instance_port) found.1, found.2, inr found.3)
        | inr full ↦
            inr (rw (k, pick_per_instance_port) (full.0 ∙ exhausted-error host hostname n), full.1)
      ]
    ]
