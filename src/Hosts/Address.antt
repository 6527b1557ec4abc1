-- ===== src/Hosts/Address.antt =====
-- core/hosts.py: `_validate_address`.
use clawrium.Prelude.{
  ◌≡◌, refl, ℕ, String, Bool, true, false, ◌&&◌, ◌||◌, List, [], ◌∷◌, leb, ltb, nat_eq,
  if◌then◌else◌, length, Result, ok, err, address_error, ◌==◌,
}
use clawrium.Text.{codes, strip, any_code, every_code, is_alnum, split_on, matches_dollar}
use clawrium.Text.Ip.{is_ip_address}

-- The class of characters that the code calls dangerous.
unfoldable pub is_dangerous : ℕ → Bool
is_dangerous c = any_code (nat_eq c) (codes "|&;$`'\"\\<>(){}!") || leb c 0x1f

-- `[a-zA-Z0-9]([a-zA-Z0-9-]{0,61}[a-zA-Z0-9])?`: the last character is tested when it is met.
unfoldable pub label_rest : List ℕ → Bool
label_rest [] = true
label_rest (c ∷ []) = is_alnum c
label_rest (c ∷ d ∷ cs) = (is_alnum c || nat_eq c b'-') && label_rest (d ∷ cs)

unfoldable pub is_label : List ℕ → Bool
is_label [] = false
is_label (c ∷ cs) = is_alnum c && label_rest cs && leb (length cs) 62

unfoldable pub every_label : List (List ℕ) → Bool
every_label [] = true
every_label (l ∷ ls) = is_label l && every_label ls

unfoldable pub is_hostname : List ℕ → Bool
is_hostname = matches_dollar (λ cs. every_label (split_on b'.' cs))

-- The tests on the stripped text.
unfoldable pub check_address : String → Result (Unit {0})
check_address address =
    let cs = codes address in
    if any_code is_dangerous cs
    then err address_error
    else if any_code (λ c. nat_eq c b'@') cs
    then err address_error
    else if is_ip_address address
    then ok tt
    else if any_code (λ c. nat_eq c b'/') cs
    then err address_error
    else if ltb 253 (length cs)
    then err address_error
    else if is_hostname cs
    then ok tt
    else err address_error

unfoldable pub validate_address : String → Result (Unit {0})
validate_address address =
    if address == "" || strip address == ""
    then err address_error
    else check_address (strip address)

open_address : Unit {0}
unfolding validate_address check_address strip any_code every_code is_alnum split_on matches_dollar
    is_dangerous label_rest is_label every_label is_hostname is_ip_address
open_address = tt

accepts : (validate_address " host-1.lan " ≡ ok tt) × (validate_address "::1" ≡ ok tt)
unfolding open_address
accepts = (refl, refl)

refuses :
    (validate_address "a;b" ≡ err address_error)
    × (validate_address "root@a" ≡ err address_error)
    × (validate_address "10.0.0.0/8" ≡ err address_error)
    × (validate_address "-a" ≡ err address_error)
    × (validate_address "  " ≡ err address_error)
unfolding open_address
refuses = (refl, refl, refl, refl, refl)
