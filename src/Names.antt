-- ===== src/Names.antt =====
-- core/names.py: the names of agents.
pub mod Generated
pub mod Checked
use clawrium.Prelude.{
  nat_eq, ℕ, String, ◌<>◌, Bool, true, false, not, ◌&&◌, ◌||◌, Option, none, some, List, [], ◌∷◌,
  ◌==◌, if◌then◌else◌, contains, length, ltb, leb, Result, ok, err, ◌>>=◌,
}
use clawrium.Json.{Json, Dict, empty, entry, obj, get, get_or, as_dict, is_str}
use clawrium.Json.Subscript.{holds_key}
use clawrium.Text.{codes, every_code, is_lower, is_digit}

abbrev pub adjectives : List String
adjectives =
    "clever" ∷ "swift" ∷ "bright" ∷ "calm" ∷ "bold" ∷ "eager" ∷ "gentle" ∷ "kind" ∷ "quick"
    ∷ "sharp" ∷ "steady" ∷ "vivid" ∷ "warm" ∷ "wise" ∷ "agile" ∷ "brave" ∷ "clear" ∷ "deft" ∷ "fair"
    ∷ "keen" ∷ "lively" ∷ "neat" ∷ "prime" ∷ "rapid" ∷ "smart" ∷ "sound" ∷ "strong" ∷ "true"
    ∷ "able" ∷ []

abbrev pub scientists : List String
scientists =
    "einstein" ∷ "curie" ∷ "newton" ∷ "darwin" ∷ "tesla" ∷ "lovelace" ∷ "turing" ∷ "hawking"
    ∷ "feynman" ∷ "bohr" ∷ "planck" ∷ "fermi" ∷ "dirac" ∷ "heisenberg" ∷ "schrodinger" ∷ "maxwell"
    ∷ "faraday" ∷ "galileo" ∷ "kepler" ∷ "copernicus" ∷ "euclid" ∷ "archimedes" ∷ "pythagoras"
    ∷ "aristotle" ∷ "hypatia" ∷ "noether" ∷ "meitner" ∷ "franklin" ∷ "hopper" ∷ "goodall" ∷ "carson"
    ∷ "sagan" ∷ "tyson" ∷ "lamarr" ∷ "wu" ∷ "rubin" ∷ "leavitt" ∷ "cannon" ∷ "payne" ∷ "burnell"
    ∷ "ride" ∷ "jemison" ∷ "elion" ∷ "yalow" ∷ "mcclintock" ∷ "blackwell" ∷ "hodgkin" ∷ "joliot"
    ∷ "germain" ∷ "chatelet" ∷ "rutherford" ∷ "hertz" ∷ "ohm" ∷ "ampere" ∷ "volta" ∷ "kelvin"
    ∷ "joule" ∷ "watt" ∷ "becquerel" ∷ "roentgen" ∷ "mendeleev" ∷ "pauling" ∷ "lavoisier" ∷ "dalton"
    ∷ "avogadro" ∷ "boyle" ∷ "priestley" ∷ "gauss" ∷ "euler" ∷ "riemann" ∷ "hilbert" ∷ "ramanujan"
    ∷ "erdos" ∷ "cauchy" ∷ "leibniz" ∷ "descartes" ∷ "pasteur" ∷ "lister" ∷ "jenner" ∷ "fleming"
    ∷ "watson" ∷ "crick" ∷ "mendel" ∷ "linnaeus" ∷ "knuth" ∷ "dijkstra" ∷ "shannon" ∷ "von_neumann"
    ∷ "babbage" ∷ "kaku" ∷ "penrose" ∷ "witten" ∷ "hinton" ∷ "lecun" ∷ "bengio" ∷ "nobel" ∷ "pascal"
    ∷ "bernoulli" ∷ "lagrange" ∷ "laplace" ∷ []

-- `random.choice` picks the two parts.
unfoldable pub generate_random_name : String → String → String
generate_random_name adjective scientist = adjective <> "-" <> scientist

abbrev pub reserved_unix_names : List String
reserved_unix_names =
    "root" ∷ "daemon" ∷ "nobody" ∷ "bin" ∷ "sys" ∷ "sync" ∷ "games" ∷ "man" ∷ "lp" ∷ "mail" ∷ "news"
    ∷ "uucp" ∷ "backup" ∷ "list" ∷ "irc" ∷ "gnats" ∷ "nogroup" ∷ "www-data" ∷ "syslog" ∷ "postfix"
    ∷ "sshd" ∷ "messagebus" ∷ "proxy" ∷ "systemd-network" ∷ "systemd-resolve" ∷ "systemd-timesync"
    ∷ "systemd-oom" ∷ "systemd-coredump" ∷ "admin" ∷ "wheel" ∷ "staff" ∷ "guest" ∷ "xclm" ∷ []

pub data Verdict : Type 0 where
  accepted : Verdict
  empty_name too_long wrong_form reserved : Verdict

-- `[a-z][a-z0-9_-]{0,31}`, by `fullmatch`.
unfoldable pub unix_name_pattern : List ℕ → Bool
unix_name_pattern [] = false
unix_name_pattern (c ∷ cs) =
    is_lower c
    && every_code (λ d. is_lower d || is_digit d || nat_eq d b'_' || nat_eq d b'-') cs
    && leb (length cs) 31

-- The message is the reason for which a name is refused.
unfoldable pub validate_agent_name : String → Verdict
unfolding unix_name_pattern
validate_agent_name name =
    if name == ""
    then empty_name
    else if ltb 32 (length (codes name))
    then too_long
    else if not (unix_name_pattern (codes name))
    then wrong_form
    else if contains reserved_unix_names name
    then reserved
    else accepted

-- `for agent_config in agents.values()`
unfoldable pub name_is_free : String → Dict → Result Bool
name_is_free name empty = ok true
name_is_free name (entry key v more) = do
  agent_config ← as_dict v
  if is_str (get "agent_name" agent_config) name || is_str (get "name" agent_config) name
      then ok false
      else name_is_free name more

unfoldable pub is_name_available_on_host : String → Dict → Result Bool
is_name_available_on_host name host = do
  taken ← holds_key name (get_or "agents" (obj empty) host)
  if taken
      then ok false
      else (do agents ← as_dict (get_or "agents" (obj empty) host); name_is_free name agents)
