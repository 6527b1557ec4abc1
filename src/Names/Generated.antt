-- ===== src/Names/Generated.antt =====
-- Every name that is generated is one that `validate_agent_name` accepts.
use clawrium.Text.{is_digit, is_lower, every_code}
use clawrium.Prelude.{
  [], ◌∷◌, inr, ◌∙◌, eq_iff, sym, ap, inl, ◌==◌, Bool-cases, contains, List, ◌&&◌, String, ◌≡◌,
  refl, Bool, true, false, all,
}
use clawrium.Names.{
  ◌∷◌, List, contains, empty_name, String, is_digit, is_lower, every_code, Verdict, accepted,
  adjectives, scientists, generate_random_name, validate_agent_name,
}

is_accepted : Verdict → Bool
is_accepted accepted = true
is_accepted _ = false

every_name : Bool
every_name =
    all (λ a. all (λ s. is_accepted (validate_agent_name (generate_random_name a s))) scientists)
      adjectives

every_name_accepted : every_name ≡ true
unfolding every_name is_accepted validate_agent_name generate_random_name every_code is_lower
    is_digit
every_name_accepted = refl

and_left : (a b : Bool) → (a && b) ≡ true → a ≡ true
and_left true b e = refl
and_left false b e = e

and_right : (a b : Bool) → (a && b) ≡ true → b ≡ true
and_right true b e = e
and_right false b e = cc

all_member :
    (p : String → Bool) (xs : List String) (x : String)
    → all p xs ≡ true
    → contains xs x ≡ true
    → p x ≡ true
all_member p [] x h m = cc
all_member p (y ∷ ys) x h m = elim (Bool-cases (y == x)) [
  | inl e ↦ ap p (sym ((eq_iff y x).0 e)) ∙ (and_left (p y) (all p ys) h)
  | inr f ↦ all_member p ys x (and_right (p y) (all p ys) h) (rw f at m)
]

accepted_of : (v : Verdict) → is_accepted v ≡ true → v ≡ accepted
unfolding is_accepted
accepted_of accepted e = refl
accepted_of empty_name e = cc
accepted_of _ e = cc

-- Whatever adjective and whatever scientist the choice falls on, the name that is generated has the
-- form of a Unix account, 32 characters at most, and is none of the reserved accounts.
pub validate_agent_name-generate_random_name :
    (adjective scientist : String)
    → contains adjectives adjective ≡ true
    → contains scientists scientist ≡ true
    → validate_agent_name (generate_random_name adjective scientist) ≡ accepted
unfolding every_name
validate_agent_name-generate_random_name adjective scientist a s = accepted_of _ (
    all_member (λ s. is_accepted (validate_agent_name (generate_random_name adjective s)))
      scientists scientist
      (all_member
        (λ a. all (λ s. is_accepted (validate_agent_name (generate_random_name a s))) scientists)
        adjectives adjective every_name_accepted a)
      s)
