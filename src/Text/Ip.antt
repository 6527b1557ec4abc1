-- ===== src/Text/Ip.antt =====
-- `ipaddress.ip_address` of Python's library: which texts it accepts.
use clawrium.Prelude.{
  ◌≡◌, refl, ℕ, suc, ◌+◌, ◌-◌, ◌*◌, String, Bool, true, false, not, ◌&&◌, ◌||◌, List, [], ◌∷◌, ◌++◌,
  leb, nat_eq, if◌then◌else◌, length,
}
use clawrium.Text.{codes, is_digit, any_code, every_code, split_on}

decimal : ℕ → List ℕ → ℕ
decimal n [] = n
decimal n (c ∷ cs) = decimal (n * 10 + (c - 48)) cs

leading_zero : List ℕ → Bool
leading_zero (c ∷ d ∷ cs) = nat_eq c b'0'
leading_zero _ = false

is_empty : List ℕ → Bool
is_empty [] = true
is_empty (c ∷ cs) = false

is_octet : List ℕ → Bool
is_octet s =
    not (is_empty s)
    && every_code is_digit s
    && leb (length s) 3
    && not (leading_zero s)
    && leb (decimal 0 s) 255

every_part : (List ℕ → Bool) → List (List ℕ) → Bool
every_part p [] = true
every_part p (s ∷ ss) = p s && every_part p ss

is_ipv4 : List ℕ → Bool
is_ipv4 s = let parts = split_on b'.' s in nat_eq (length parts) 4 && every_part is_octet parts

is_hex : ℕ → Bool
is_hex c = is_digit c || (leb b'a' c && leb c b'f') || (leb b'A' c && leb c b'F')

is_hextet : List ℕ → Bool
is_hextet s = not (is_empty s) && every_code is_hex s && leb (length s) 4

count_empty : List (List ℕ) → ℕ
count_empty [] = 0
count_empty (s ∷ ss) = if is_empty s then suc (count_empty ss) else count_empty ss

last_part : List (List ℕ) → List ℕ
last_part [] = []
last_part (s ∷ []) = s
last_part (s ∷ t ∷ ss) = last_part (t ∷ ss)

init_parts : List (List ℕ) → List (List ℕ)
init_parts [] = []
init_parts (s ∷ []) = []
init_parts (s ∷ t ∷ ss) = s ∷ init_parts (t ∷ ss)

tail_parts : List (List ℕ) → List (List ℕ)
tail_parts [] = []
tail_parts (s ∷ ss) = ss

-- The parts after an IPv4 address in the last place has been put as two groups.
expand_ipv4 : List (List ℕ) → List (List ℕ)
expand_ipv4 parts =
    if any_code (λ c. nat_eq c b'.') (last_part parts)
    then init_parts parts ++ ((b'0' ∷ []) ∷ (b'0' ∷ []) ∷ [])
    else parts

last_fits : List (List ℕ) → Bool
last_fits parts = not (any_code (λ c. nat_eq c b'.') (last_part parts)) || is_ipv4 (last_part parts)

-- The parts between the first and the last.
inner : List (List ℕ) → List (List ℕ)
inner parts = init_parts (tail_parts parts)

first_part : List (List ℕ) → List ℕ
first_part [] = []
first_part (s ∷ ss) = s

-- With an empty inner part, `::` stands there. An empty first or last part is right beside it.
opens_well : List (List ℕ) → Bool
opens_well parts = not (is_empty (first_part parts)) || is_empty (first_part (inner parts))

closes_well : List (List ℕ) → Bool
closes_well parts = not (is_empty (last_part parts)) || is_empty (last_part (inner parts))

groups : List (List ℕ) → ℕ
groups parts = length parts - count_empty parts

hextets : List (List ℕ) → Bool
hextets parts = every_part (λ s. is_empty s || is_hextet s) parts

is_groups : List (List ℕ) → Bool
is_groups parts =
    if nat_eq (count_empty (inner parts)) 0
    then nat_eq (length parts) 8 && every_part is_hextet parts
    else nat_eq (count_empty (inner parts)) 1
      && opens_well parts
      && closes_well parts
      && leb (groups parts) 7
      && hextets parts

is_ipv6_address : List ℕ → Bool
is_ipv6_address s =
    let parts = split_on b':' s in
    leb 3 (length parts)
    && last_fits parts
    && leb (length (expand_ipv4 parts)) 9
    && is_groups (expand_ipv4 parts)

-- A scope follows one `%`, and is not empty.
is_scoped : List (List ℕ) → Bool
is_scoped (address ∷ []) = is_ipv6_address address
is_scoped (address ∷ scope ∷ []) = not (is_empty scope) && is_ipv6_address address
is_scoped _ = false

is_ipv6 : List ℕ → Bool
is_ipv6 s = not (any_code (λ c. nat_eq c b'/') s) && is_scoped (split_on b'%' s)

unfoldable pub is_ip_address : String → Bool
unfolding decimal leading_zero is_empty is_octet every_part is_ipv4 is_hex is_hextet count_empty
    last_part init_parts tail_parts expand_ipv4 last_fits inner first_part opens_well closes_well
    groups hextets is_groups is_ipv6_address is_scoped is_ipv6 is_digit any_code every_code split_on
is_ip_address s = let cs = codes s in is_ipv4 cs || is_ipv6 cs

accepts :
    (is_ip_address "192.168.1.20" ≡ true)
    × (is_ip_address "fe80::1%eth0" ≡ true)
    × (is_ip_address "::" ≡ true)
    × (is_ip_address "::ffff:10.0.0.1" ≡ true)
    × (is_ip_address "1:2:3:4:5:6:7:8" ≡ true)
unfolding is_ip_address
accepts = (refl, refl, refl, refl, refl)

refuses :
    (is_ip_address "192.168.01.20" ≡ false)
    × (is_ip_address "256.1.1.1" ≡ false)
    × (is_ip_address "1::2::3" ≡ false)
    × (is_ip_address ":1::2" ≡ false)
    × (is_ip_address "1:2:3:4:5:6:7" ≡ false)
    × (is_ip_address "1::2:3:4:5:6:7:8" ≡ false)
    × (is_ip_address ":::" ≡ false)
unfolding is_ip_address
refuses = (refl, refl, refl, refl, refl, refl, refl)
