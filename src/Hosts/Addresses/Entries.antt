-- ===== src/Hosts/Addresses/Entries.antt =====
-- The edits of an address list, the primary entries and distinctness.
use clawrium.Prelude.{
  ◌≡◌, refl, ap, ◌∙◌, sym, String, Bool, true, false, List, [], ◌∷◌, if◌then◌else◌, ok, ◌==◌, ◌≢◌,
  >>=-eq-ok, ok-injective, arith, Bool-cases, inl, inr,
}
use clawrium.Json.{
  Json, Items, Dict, bool, null, str, obj, nil, cons, find, get, get_or, put, truthy, is_str,
}
use clawrium.Json.Laws.{get-put, is_str_sound, is_str_self}
use clawrium.Json.Lists.{append_item}
use clawrium.Hosts.Migrate.{address_entry}
use clawrium.Hosts.Addresses.{has_address, without_address, mark_primary}

-- The addresses of the primary entries.
abbrev pub primaries : Items → List Json
primaries nil = []
primaries (cons (obj a) xs) =
    if truthy (get "is_primary" a) then get "address" a ∷ primaries xs else primaries xs
primaries (cons _ xs) = primaries xs

-- Every entry is a dict of another address.
abbrev pub IsFree : Json → Items → Type 0
IsFree v nil = Unit
IsFree v (cons (obj a) xs) = (get "address" a ≢ v) × IsFree v xs
IsFree v (cons _ xs) = ⊥

abbrev pub Distinct : Items → Type 0
Distinct nil = Unit
Distinct (cons (obj a) xs) = IsFree (get "address" a) xs × Distinct xs
Distinct (cons _ xs) = ⊥

pub new_entry :
    (address : String) (label : Json) (now : String)
    → get "address" (address_entry (str address) false label (str now)) ≡ str address
unfolding address_entry get find get_or
new_entry address label now = refl

pub primaries-append_item :
    (address now : String) (label : Json) (xs : Items)
    → primaries (append_item (obj (address_entry (str address) false label (str now))) xs)
      ≡ primaries xs
unfolding append_item address_entry get get_or find truthy
primaries-append_item address now label nil = refl
primaries-append_item address now label (cons (obj a) xs) =
    ground (arith, primaries-append_item address now label xs)
primaries-append_item address now label (cons _ xs) = primaries-append_item address now label xs

IsFree-append_item :
    (v : Json) (a : Dict) (xs : Items)
    → get "address" a ≢ v
    → IsFree v xs
    → IsFree v (append_item (obj a) xs)
unfolding append_item
IsFree-append_item v a nil ne h = (ne, tt)
IsFree-append_item v a (cons (obj b) xs) ne h = (h.0, IsFree-append_item v a xs ne h.1)
IsFree-append_item v a (cons _ xs) ne h = elim h [ ]

other_address :
    (a b : Dict) (address : String)
    → get "address" a ≡ str address
    → is_str (get "address" b) address ≡ false
    → get "address" a ≢ get "address" b
other_address a b address e f q = cc (ap (λ v. is_str v address) (sym q ∙ e), is_str_self address)

pub Distinct-append_item :
    (address : String) (a : Dict) (xs : Items)
    → get "address" a ≡ str address
    → has_address address xs ≡ ok false
    → Distinct xs
    → Distinct (append_item (obj a) xs)
unfolding append_item has_address
Distinct-append_item address a nil e h d = (tt, tt)
Distinct-append_item address a (cons (obj b) xs) e h d =
    elim (Bool-cases (is_str (get "address" b) address)) [
      | inl t ↦ let h' = rw t at h in cc
      | inr f ↦ (
        IsFree-append_item (get "address" b) a xs (λ q. other_address a b address e f q) d.0,
        Distinct-append_item address a xs e (rw f at h) d.1,
      )
    ]
Distinct-append_item address a (cons _ xs) e h d = elim d [ ]

pub primaries-without_address :
    (address : String) (xs ys : Items)
    → without_address address xs ≡ ok ys
    → primaries ys ≡ primaries xs
unfolding without_address
primaries-without_address address nil ys e = cc
primaries-without_address address (cons (obj a) xs) ys e =
    elim (Bool-cases (is_str (get "address" a) address)) [
      | inl t ↦ elim (Bool-cases (truthy (get "is_primary" a))) [
        | inl p ↦ let e' = rw (t, p) at e in cc
        | inr p ↦ rw p (ap primaries (sym (ok-injective _ _ (rw (t, p) at e))))
      ]
      | inr f ↦
          let (zs, e1, e2) = >>=-eq-ok (without_address address xs) _ (rw f at e) in
          rw (sym (ok-injective _ _ e2))
            (ground (arith, primaries-without_address address xs zs e1))
    ]
primaries-without_address address (cons null xs) ys e = cc
primaries-without_address address (cons _ xs) ys e = cc

IsFree-without_address :
    (v : Json) (address : String) (xs ys : Items)
    → without_address address xs ≡ ok ys
    → IsFree v xs
    → IsFree v ys
unfolding without_address
IsFree-without_address v address nil ys e h = cc
IsFree-without_address v address (cons (obj a) xs) ys e h =
    elim (Bool-cases (is_str (get "address" a) address)) [
      | inl t ↦ elim (Bool-cases (truthy (get "is_primary" a))) [
        | inl p ↦ let e' = rw (t, p) at e in cc
        | inr p ↦ rw (sym (ok-injective _ _ (rw (t, p) at e))) h.1
      ]
      | inr f ↦
          let (zs, e1, e2) = >>=-eq-ok (without_address address xs) _ (rw f at e) in
          rw (sym (ok-injective _ _ e2)) (h.0, IsFree-without_address v address xs zs e1 h.1)
    ]
IsFree-without_address v address (cons _ xs) ys e h = elim h [ ]

pub Distinct-without_address :
    (address : String) (xs ys : Items)
    → without_address address xs ≡ ok ys
    → Distinct xs
    → Distinct ys
unfolding without_address
Distinct-without_address address nil ys e d = cc
Distinct-without_address address (cons (obj a) xs) ys e d =
    elim (Bool-cases (is_str (get "address" a) address)) [
      | inl t ↦ elim (Bool-cases (truthy (get "is_primary" a))) [
        | inl p ↦ let e' = rw (t, p) at e in cc
        | inr p ↦ rw (sym (ok-injective _ _ (rw (t, p) at e))) d.1
      ]
      | inr f ↦
          let (zs, e1, e2) = >>=-eq-ok (without_address address xs) _ (rw f at e) in
          rw (sym (ok-injective _ _ e2)) (
            IsFree-without_address (get "address" a) address xs zs e1 d.0,
            Distinct-without_address address xs zs e1 d.1,
          )
    ]
Distinct-without_address address (cons _ xs) ys e d = elim d [ ]

get-mark :
    (k : String) (v : Json) (a : Dict)
    → ("is_primary" == k) ≡ false
    → get k (put "is_primary" v a) ≡ get k a
get-mark k v a ne = rw get-put (rw ne)

truthy-mark : (b : Bool) (a : Dict) → truthy (get "is_primary" (put "is_primary" (bool b) a)) ≡ b
unfolding truthy
truthy-mark b a = rw get-put

module _ (address : String) where
  IsFree-mark_primary :
      (v : Json) (xs ys : Items) → mark_primary address xs ≡ ok ys → IsFree v xs → IsFree v ys
  unfolding mark_primary
  IsFree-mark_primary v nil ys e h = rw (sym (ok-injective _ _ e)) tt
  IsFree-mark_primary v (cons (obj a) xs) ys e h =
      let (zs, e1, e2) = >>=-eq-ok (mark_primary address xs) _ e in
      rw (sym (ok-injective _ _ e2))
        ((λ q. h.0 (sym (get-mark "address" _ a refl) ∙ q)), IsFree-mark_primary v xs zs e1 h.1)
  IsFree-mark_primary v (cons _ xs) ys e h = elim h [ ]

  pub Distinct-mark_primary :
      (xs ys : Items) → mark_primary address xs ≡ ok ys → Distinct xs → Distinct ys
  unfolding mark_primary
  Distinct-mark_primary nil ys e d = rw (sym (ok-injective _ _ e)) tt
  Distinct-mark_primary (cons (obj a) xs) ys e d =
      let (zs, e1, e2) = >>=-eq-ok (mark_primary address xs) _ e in
      rw (sym (ok-injective _ _ e2)) (
        rw (get-mark "address" (bool (is_str (get "address" a) address)) a refl)
            (IsFree-mark_primary (get "address" a) xs zs e1 d.0),
        Distinct-mark_primary xs zs e1 d.1,
      )
  Distinct-mark_primary (cons _ xs) ys e d = elim d [ ]

  primaries-mark_free :
      (xs ys : Items)
      → mark_primary address xs ≡ ok ys
      → IsFree (str address) xs
      → primaries ys ≡ []
  unfolding mark_primary
  primaries-mark_free nil ys e h = rw (sym (ok-injective _ _ e))
  primaries-mark_free (cons (obj a) xs) ys e h =
      let (zs, e1, e2) = >>=-eq-ok (mark_primary address xs) _ e in
      rw (sym (ok-injective _ _ e2)) (elim (Bool-cases (is_str (get "address" a) address)) [
        | inl t ↦ absurd (h.0 (is_str_sound _ _ t))
        | inr f ↦ rw (truthy-mark, f) (primaries-mark_free xs zs e1 h.1)
      ])
  primaries-mark_free (cons _ xs) ys e h = elim h [ ]

  -- Marking an address that is there makes it the one primary address.
  pub primaries-mark_primary :
      (xs ys : Items)
      → mark_primary address xs ≡ ok ys
      → has_address address xs ≡ ok true
      → Distinct xs
      → primaries ys ≡ str address ∷ []
  unfolding mark_primary has_address
  primaries-mark_primary nil ys e h d = cc
  primaries-mark_primary (cons (obj a) xs) ys e h d =
      let (zs, e1, e2) = >>=-eq-ok (mark_primary address xs) _ e in
      rw (sym (ok-injective _ _ e2)) (elim (Bool-cases (is_str (get "address" a) address)) [
        | inl t ↦
            let q = is_str_sound _ _ t in
            rw (truthy-mark, t, get-mark "address" (bool true) a refl)
              (rw (q, primaries-mark_free xs zs e1 (rw q at d.0)))
        | inr f ↦ rw (truthy-mark, f) (primaries-mark_primary xs zs e1 (rw f at h) d.1)
      ])
  primaries-mark_primary (cons _ xs) ys e h d = elim d [ ]
