-- ===== src/Attachments/Roles.antt =====
-- The validation of a hermes agent's attachments against the counts of their roles.
use clawrium.Prelude.{
  ◌⊎◌, ◌≡◌, refl, ap, ◌∙◌, sym, ◌≢◌, ℕ, suc, ◌+◌, ◌≤◌, String, true, false, not, some, List, [],
  ◌∷◌, nat_eq, if◌then◌else◌, contains, ok, ◌==◌, arith, eq_iff, >>=-eq-ok, ok-injective,
  Bool-cases, inl, inr, length, ◌↔◌,
}
use clawrium.Json.{Json, Items, Dict, null, str, obj, nil, cons, get, is_str}
use clawrium.Attachments.{
  valid_roles, supports_multi_provider, valid_role, is_name, entry_role, check_entries, validate,
  count_items, get_primary, get_auxiliary, is_auxiliary,
}

-- How often a role stands in a list of roles.
abbrev pub count : String → List String → ℕ
count s [] = 0
count s (r ∷ rs) = if r == s then suc (count s rs) else count s rs

-- The roles of entries that are each well formed.
pub data HasRoles : Items → List String → Type 0 where
  none_left : HasRoles nil []
  one_more :
      {x : Json} {xs : Items} {r : String} {rs : List String}
      → entry_role x ≡ ok r
      → HasRoles xs rs
      → HasRoles (cons x xs) (r ∷ rs)

abbrev taken : List String → String → ℕ
taken seen slot = if contains seen slot then 1 else 0

-- No auxiliary slot is filled twice, counting those that were filled before.
abbrev Fits : List String → List String → Type 0
Fits seen rs = (slot : String) → ("primary" == slot) ≡ false → count slot rs + taken seen slot ≤ 1

module _ (seen rs : List String) (r : String) where
  Fits-primary : (r == "primary") ≡ true → Fits seen rs ↔ Fits seen (r ∷ rs)
  Fits-primary p = (
    (λ fits slot ne.
        ground (arith, eq_iff r "primary", eq_iff r slot, eq_iff "primary" slot, fits slot ne)),
    (λ fits slot ne.
        ground (arith, eq_iff r "primary", eq_iff r slot, eq_iff "primary" slot, fits slot ne)),
  )

  same_taken : (slot : String) → (r == slot) ≡ true → contains seen slot ≡ contains seen r
  same_taken slot t = ap (contains seen) (sym ((eq_iff r slot).0 t))

  Fits-auxiliary :
      (r == "primary") ≡ false → contains seen r ≡ false → Fits (r ∷ seen) rs ↔ Fits seen (r ∷ rs)
  Fits-auxiliary np new = (
    (λ fits slot ne. elim (Bool-cases (r == slot)) [
      | inl t ↦ let h = fits slot ne in let q = same_taken slot t ∙ new in ground arith
      | inr f ↦ let h = fits slot ne in ground arith
    ]),
    (λ fits slot ne. elim (Bool-cases (r == slot)) [
      | inl t ↦ let h = fits slot ne in let q = same_taken slot t ∙ new in ground arith
      | inr f ↦ let h = fits slot ne in ground arith
    ]),
  )

  -- A role that was seen does not fit.
  Fits-again : (r == "primary") ≡ false → contains seen r ≡ true → Fits seen (r ∷ rs) → ⊥
  Fits-again np again fits =
      let ne : ("primary" == r) ≡ false = ground (arith, eq_iff "primary" r, eq_iff r "primary") in
      let h = fits r ne in ground (arith, eq_iff r r)

check_entries_sound :
    (n m : ℕ) (seen : List String) (xs : Items)
    → check_entries n seen xs ≡ ok m
    → (rs : List String) × HasRoles xs rs × (m ≡ n + count "primary" rs) × Fits seen rs
unfolding check_entries
check_entries_sound n m seen nil e =
    ([], none_left, omega (arith, ok-injective n m e), λ slot ne. ground arith)
check_entries_sound n m seen (cons x xs) e =
    let (r, e1, e2) = >>=-eq-ok (entry_role x) _ e in
    elim (Bool-cases (r == "primary")) [
      | inl p ↦
          let (rs, roles, total, fits) = check_entries_sound (suc n) m seen xs (rw p at e2) in
          (r ∷ rs, one_more e1 roles, rw p (omega arith), (Fits-primary seen rs r p).0 fits)
      | inr np ↦ elim (Bool-cases (contains seen r)) [
        | inl again ↦ let e3 = rw (np, again) at e2 in cc
        | inr new ↦
            let (rs, roles, total, fits) =
              check_entries_sound n m (r ∷ seen) xs (rw (np, new) at e2) in
            (r ∷ rs, one_more e1 roles, rw np total, (Fits-auxiliary seen rs r np new).0 fits)
      ]
    ]

check_entries_complete :
    (n : ℕ) (seen : List String) (xs : Items) (rs : List String)
    → HasRoles xs rs
    → Fits seen rs
    → check_entries n seen xs ≡ ok (n + count "primary" rs)
unfolding check_entries
check_entries_complete n seen _ _ none_left fits = ap ok (omega arith)
check_entries_complete n seen _ _ (one_more {x} {xs} {r} {rs} e h) fits =
    elim (Bool-cases (r == "primary")) [
      | inl p ↦
          rw (e, p)
            (check_entries_complete (suc n) seen xs rs h ((Fits-primary seen rs r p).1 fits)
              ∙ ap ok (omega arith))
      | inr np ↦ elim (Bool-cases (contains seen r)) [
        | inl again ↦ absurd (Fits-again seen rs r np again fits)
        | inr new ↦
            rw (e, np, new)
              (check_entries_complete n (r ∷ seen) xs rs h
                ((Fits-auxiliary seen rs r np new).1 fits))
      ]
    ]

nonempty : (n : ℕ) → nat_eq (suc n) 0 ≡ false
nonempty n = ground arith

-- A hermes agent's attachments are valid exactly if there are none, or if every entry has a name
-- and a valid role, one entry is the primary, and no auxiliary slot is filled twice.
pub validate_iff :
    (xs : Items)
    → (validate xs (some "hermes") ≡ ok tt) ↔ (
        (xs ≡ nil)
        ⊎ ((rs : List String) × HasRoles xs rs
            × (count "primary" rs ≡ 1)
            × ((slot : String) → ("primary" == slot) ≡ false → count slot rs ≤ 1)))
unfolding validate supports_multi_provider count_items
validate_iff nil = ((λ e. inl refl), (λ h. refl))
validate_iff (cons x xs) = (
  (λ e.
      let (m, e1, e2) =
        >>=-eq-ok (check_entries 0 [] (cons x xs)) _ (rw (nonempty (count_items xs)) at e) in
      let (rs, roles, total, fits) = check_entries_sound 0 m [] (cons x xs) e1 in
      let one : m ≡ 1 = ground arith in
      inr (rs, roles, omega arith, λ slot ne. omega (arith, fits slot ne))),
  (λ h. elim h [
    | inl none_attached ↦ cc none_attached
    | inr (rs, roles, one, fits) ↦
        rw
          (
            nonempty (count_items xs),
            check_entries_complete 0 [] (cons x xs) rs roles
                (λ slot ne. omega (arith, fits slot ne)),
          )
          (ground arith)
  ]),
)

valid_role-str :
    (v : Json) (r : String) → valid_role v ≡ ok r → (v ≡ str r) × (contains valid_roles r ≡ true)
unfolding valid_role
valid_role-str (str s) r e = elim (Bool-cases (contains valid_roles s)) [
  | inl t ↦ let q : s ≡ r = ok-injective _ _ (rw t at e) in (ap str q, rw (sym q) t)
  | inr f ↦ let e' = rw f at e in cc
]
valid_role-str null r e = cc
valid_role-str _ r e = cc

entry_role-obj :
    (x : Json) (r : String)
    → entry_role x ≡ ok r
    → (d : Dict) × (x ≡ obj d) × ((get "role" d ≡ str r) × (contains valid_roles r ≡ true))
unfolding entry_role
entry_role-obj (obj d) r e = elim (Bool-cases (is_name (get "name" d))) [
  | inl t ↦ (d, refl, valid_role-str (get "role" d) r (rw t at e))
  | inr f ↦ let e' = rw f at e in cc
]
entry_role-obj null r e = cc
entry_role-obj _ r e = cc

not_blank : (r : String) → contains valid_roles r ≡ true → (r == "") ≡ false
not_blank r v = elim (Bool-cases (r == "")) [
  | inl t ↦
      let q : contains valid_roles r ≡ false = ap (contains valid_roles) ((eq_iff r "").0 t) in cc
  | inr f ↦ f
]

auxiliary_role :
    (d : Dict) (r : String)
    → get "role" d ≡ str r
    → contains valid_roles r ≡ true
    → is_auxiliary (get "role" d) ≡ not (r == "primary")
unfolding is_auxiliary
auxiliary_role d r e v = rw (e, not_blank r v)

primary_role :
    (d : Dict) (r : String)
    → get "role" d ≡ str r
    → is_str (get "role" d) "primary" ≡ (r == "primary")
unfolding is_str
primary_role d r e = rw e

split_roles :
    (xs : Items) (rs : List String)
    → HasRoles xs rs
    → (length (get_auxiliary xs) + count "primary" rs ≡ count_items xs)
      × ((count "primary" rs ≡ 0)
          ⊎ ((d : Dict) × (get_primary xs ≡ some d) × (get "role" d ≡ str "primary")))
unfolding get_auxiliary get_primary count_items
split_roles _ _ none_left = (omega arith, inl refl)
split_roles _ _ (one_more {x} {xs} {r} {rs} e h) =
    let (d, q, (role, v)) = entry_role-obj x r e in
    let (total, found) = split_roles xs rs h in
    elim (Bool-cases (r == "primary")) [
      | inl t ↦
          rw (q, auxiliary_role d r role v, primary_role d r role, t)
            (omega (arith, total), inr (d, refl, role ∙ ap str ((eq_iff r "primary").0 t)))
      | inr f ↦
          rw (q, auxiliary_role d r role v, primary_role d r role, f) (omega (arith, total), found)
    ]

-- Where a hermes agent's attachments are valid and not empty, there is a primary, its role says
-- so, and all other attachments are auxiliary.
pub validate-get_primary :
    (xs : Items)
    → validate xs (some "hermes") ≡ ok tt
    → xs ≢ nil
    → (d : Dict) × (get_primary xs ≡ some d)
      × (get "role" d ≡ str "primary")
      × (length (get_auxiliary xs) + 1 ≡ count_items xs)
validate-get_primary xs e ne = elim ((validate_iff xs).0 e) [
  | inl none_attached ↦ absurd (ne none_attached)
  | inr (rs, roles, one, fits) ↦
      let (total, found) = split_roles xs rs roles in
      elim found [
        | inl zero_count ↦ absurd (omega (arith, one, zero_count))
        | inr (d, p, role) ↦ (d, p, role, omega (arith, total, one))
      ]
]
