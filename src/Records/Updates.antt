-- ===== src/Records/Updates.antt =====
-- What `update_first` does, as a relation, and the invariants that it keeps.
use clawrium.Prelude.{
  ◌≡◌, refl, ap, ◌∙◌, ok-injective, Bool, true, false, Option, none, some, List, [], ◌∷◌, Result,
  ok, >>=-eq-ok, Bool-cases, inl, inr, All,
}
use clawrium.Json.{Dict}
use clawrium.Records.{update_first, past}

module _ {A : Type 0} (p : Dict → Bool) (f : Dict → Result (A × Dict)) where
  -- The first record that passes the test is replaced, and no other.
  pub data UpdatesFirst : List Dict → A → List Dict → Type 0 where
    here :
        {d d' : Dict} {ds : List Dict} {a : A}
        → p d ≡ true
        → f d ≡ ok (a, d')
        → UpdatesFirst (d ∷ ds) a (d' ∷ ds)
    later :
        {d : Dict} {ds ds' : List Dict} {a : A}
        → p d ≡ false
        → UpdatesFirst ds a ds'
        → UpdatesFirst (d ∷ ds) a (d ∷ ds')

  pub update_first_complete :
      {ds ds' : List Dict} {a : A}
      → UpdatesFirst ds a ds'
      → update_first p f ds ≡ ok (some (a, ds'))
  unfolding update_first
  update_first_complete (here t e) = rw (t, e)
  update_first_complete (later t u) = rw (t, update_first_complete u)

  past-eq-none : (d : Dict) (r : Option (A × List Dict)) → past d r ≡ none → r ≡ none
  unfolding past
  past-eq-none d none e = refl
  past-eq-none d (some (a, ds)) e = cc

  sound_later :
      {d : Dict} {ds ds' : List Dict} {a : A} (r : Option (A × List Dict))
      → p d ≡ false
      → ok (past d r) ≡ ok (some (a, ds'))
      → ((es : List Dict) → r ≡ some (a, es) → UpdatesFirst ds a es)
      → UpdatesFirst (d ∷ ds) a ds'
  unfolding past
  sound_later none t e ih = cc
  sound_later {d} {ds' = ds'} {a} (some (b, es)) t e ih =
      let q : ds' ≡ d ∷ es = cc in rw q (later t (ih es (cc)))

  pub update_first_sound :
      (ds ds' : List Dict) (a : A)
      → update_first p f ds ≡ ok (some (a, ds'))
      → UpdatesFirst ds a ds'
  unfolding update_first
  update_first_sound [] ds' a e = cc
  update_first_sound (d ∷ ds) ds' a e = elim (Bool-cases (p d)) [
    | inl t ↦
        let (r, e1, e2) = >>=-eq-ok (f d) _ (rw t at e) in
        let q : (a ≡ r.0) × (ds' ≡ r.1 ∷ ds) = (cc, cc) in rw (q.0, q.1) (here t e1)
    | inr t ↦
        let (r, e1, e2) = >>=-eq-ok (update_first p f ds) _ (rw t at e) in
        sound_later r t e2 (λ es e3. update_first_sound ds es a (e1 ∙ ap ok e3))
  ]

  -- Where no record passes the test, nothing is found.
  pub update_first_absent :
      (ds : List Dict) → All (λ d. p d ≡ false) ds → update_first p f ds ≡ ok none
  unfolding update_first
  update_first_absent [] h = refl
  update_first_absent (d ∷ ds) h = rw (h.0, update_first_absent ds h.1)

  pub UpdatesFirst-All :
      (P : Dict → Type 0)
      → ((d d' : Dict) (a : A) → f d ≡ ok (a, d') → P d → P d')
      → {ds ds' : List Dict} {a : A} → UpdatesFirst ds a ds'
      → All P ds
      → All P ds'
  UpdatesFirst-All P keeps (here t e) h = (keeps _ _ _ e h.0, h.1)
  UpdatesFirst-All P keeps (later t u) h = (h.0, UpdatesFirst-All P keeps u h.1)

  pub absent_of_update_first :
      (ds : List Dict) → update_first p f ds ≡ ok none → All (λ d. p d ≡ false) ds
  unfolding update_first
  absent_of_update_first [] e = tt
  absent_of_update_first (d ∷ ds) e = elim (Bool-cases (p d)) [
    | inl t ↦ let (r, e1, e2) = >>=-eq-ok (f d) _ (rw t at e) in cc
    | inr t ↦
        let (r, e1, e2) = >>=-eq-ok (update_first p f ds) _ (rw t at e) in
        (t, absent_of_update_first ds (e1 ∙ ap ok (past-eq-none d r (ok-injective _ _ e2))))
  ]
