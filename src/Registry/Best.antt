-- ===== src/Registry/Best.antt =====
-- `check_compatibility` finds an entry that fits, and of those the one of the highest version.
use clawrium.Registry.Fits.{reasons_of_complete, Fits, reasons_of_sound}
use clawrium.Registry.Load.{platforms_of, load_manifest, Bundled}
use clawrium.Registry.Order.{
  All-of_sorted_versions, sorted_versions-Descending, IsIn-sorted_versions, le_refl, IsIn,
  Descending,
}
use clawrium.Prelude.{
  inr, inl, Result-cases, All, ok-injective, >>=-eq-ok, ◌≡◌, refl, sym, String, Bool, true, false,
  not, Option, none, some, List, [], ◌∷◌, Result, ok, err,
}
use clawrium.Json.{Json, Dict}
use clawrium.Registry.Version.{Versions, IsOrdered}
use clawrium.Registry.Compatibility.{
  with_versions, hardware_known, check_platforms, check_latest, check_candidates, verdict,
  CompatibilityResult, check_compatibility, Reason, sorted_versions, without_versions, reasons_of,
  first_match, next_platform, Search, matched, unmatched,
}

abbrev pub is_absent_entry : Option Dict → Bool
is_absent_entry none = true
is_absent_entry (some p) = false

module _ (V : Versions) (ordered : IsOrdered V) (hardware : Dict) where
  -- An entry that fits and that no fitting entry surpasses.
  abbrev pub IsBest : V.Version → Dict → List (V.Version × Dict) → Type 0
  IsBest v p xs =
      IsIn (v, p) xs
      × Fits V hardware p
      × All (λ (x : V.Version × Dict). Fits V hardware x.1 → V.le x.0 v ≡ true) xs

  All-weaken :
      (v : V.Version) (xs : List (V.Version × Dict))
      → All (λ (y : V.Version × Dict). V.le y.0 v ≡ true) xs
      → All (λ (x : V.Version × Dict). Fits V hardware x.1 → V.le x.0 v ≡ true) xs
  All-weaken v [] h = tt
  All-weaken v (x ∷ xs) h = ((λ _. h.0), All-weaken v xs h.1)

  unfit :
      (q : Dict) (r : Reason) (rs : List Reason)
      → reasons_of V hardware q ≡ ok (r ∷ rs)
      → ¬ Fits V hardware q
  unfit q r rs e f = let k = reasons_of_complete V hardware q f in cc

  found_later :
      (q p : Dict) (r : Reason) (rs : List Reason) (rest : Result (Search V))
      → next_platform V q (r ∷ rs) rest ≡ ok (matched p)
      → rest ≡ ok (matched p)
  unfolding next_platform
  found_later q p r rs (ok (matched p')) e = e
  found_later q p r rs (ok (unmatched all_reasons)) e = cc
  found_later q p r rs (err x) e = cc

  later-IsBest :
      (v w : V.Version) (p q : Dict) (xs : List (V.Version × Dict))
      → ¬ Fits V hardware q
      → IsBest v p xs
      → IsBest v p ((w, q) ∷ xs)
  later-IsBest v w p q xs bad b = (inr b.0, b.1, ((λ f. absurd (bad f)), b.2))

  first_match-IsBest :
      (p : Dict) (xs : List (V.Version × Dict))
      → Descending V ordered xs
      → first_match V hardware (without_versions V xs) ≡ ok (matched p)
      → (v : V.Version) × IsBest v p xs
  unfolding first_match without_versions next_platform
  first_match-IsBest p [] d e = cc
  first_match-IsBest p ((v, q) ∷ xs) d e = elim (Result-cases (reasons_of V hardware q)) [
    | inr (x, f) ↦ let e' = rw f at e in cc
    | inl ([], f) ↦
        let found : ok (matched q) ≡ ok (matched p) = rw f at e in
        let same : q ≡ p = cc in
        rw (sym same) (
          v,
          (
            inl refl,
            reasons_of_sound V hardware q f,
            ((λ _. le_refl V ordered v), All-weaken v xs d.0),
          ),
        )
    | inl (r ∷ rs, f) ↦
        let (w, b) = first_match-IsBest p xs d.1 (found_later q p r rs _ (rw f at e)) in
        (w, later-IsBest w v p q xs (unfit q r rs f) b)
  ]

  lost_later :
      (q : Dict) (r : Reason) (rs all_reasons : List Reason) (rest : Result (Search V))
      → next_platform V q (r ∷ rs) rest ≡ ok (unmatched all_reasons)
      → (others : List Reason) × (rest ≡ ok (unmatched others))
  unfolding next_platform
  lost_later q r rs all_reasons (ok (matched p)) e = cc
  lost_later q r rs all_reasons (ok (unmatched others)) e = (others, refl)
  lost_later q r rs all_reasons (err x) e = cc

  first_match-none :
      (all_reasons : List Reason) (xs : List (V.Version × Dict))
      → first_match V hardware (without_versions V xs) ≡ ok (unmatched all_reasons)
      → All (λ (x : V.Version × Dict). ¬ Fits V hardware x.1) xs
  unfolding first_match without_versions next_platform
  first_match-none all_reasons [] e = tt
  first_match-none all_reasons ((v, q) ∷ xs) e = elim (Result-cases (reasons_of V hardware q)) [
    | inr (x, f) ↦ let e' = rw f at e in cc
    | inl ([], f) ↦ let e' = rw f at e in cc
    | inl (r ∷ rs, f) ↦
        let (others, lost) = lost_later q r rs all_reasons _ (rw f at e) in
        (unfit q r rs f, first_match-none others xs lost)
  ]

  IsBest-sorted :
      (v : V.Version) (p : Dict) (xs : List (V.Version × Dict))
      → IsBest v p (sorted_versions V xs)
      → IsBest v p xs
  IsBest-sorted v p xs b =
      (IsIn-sorted_versions V ordered (v, p) xs b.0, b.1, All-of_sorted_versions V ordered _ xs b.2)

  -- What the verdict says of the entries, each with its version.
  pub record IsVerdict (xs : List (V.Version × Dict)) (r : CompatibilityResult) : Type 0 where
    pub best : (p : Dict) → r.matched_entry ≡ some p → (v : V.Version) × IsBest v p xs
    pub unfitting :
        r.matched_entry ≡ none → All (λ (x : V.Version × Dict). ¬ Fits V hardware x.1) xs
    pub agrees : r.compatible ≡ not (is_absent_entry r.matched_entry)

  verdict-IsVerdict :
      (text : Reason → String) (xs : List (V.Version × Dict)) (found : Search V)
      → first_match V hardware (without_versions V (sorted_versions V xs)) ≡ ok found
      → IsVerdict xs (verdict V text found)
  unfolding verdict
  verdict-IsVerdict text xs (matched p) e = record {
    best = λ q same.
        let there : p ≡ q = cc in
        rw (sym there) (
          let (v, b) =
            first_match-IsBest p (sorted_versions V xs) (sorted_versions-Descending V ordered xs)
              e in
          (v, IsBest-sorted v p xs b));
    unfitting = λ same. cc;
    agrees = refl;
  }
  verdict-IsVerdict text xs (unmatched all_reasons) e = record {
    best = λ q same. cc;
    unfitting = λ _.
        All-of_sorted_versions V ordered _ xs
          (first_match-none all_reasons (sorted_versions V xs) e);
    agrees = refl;
  }

  -- For hardware that is known, and no version asked for: the entry that `check_compatibility`
  -- matches is one of the manifest's, fits the hardware, and no entry that fits has a higher
  -- version. If it matches none, none fits. It says "compatible" exactly if it matches one.
  pub check_compatibility-IsVerdict :
      (text : Reason → String) (registry_package : String → Bundled) (claw_name : String)
      (manifest : Json) (ps : List Dict) (r : CompatibilityResult)
      → load_manifest registry_package claw_name ≡ ok manifest
      → platforms_of manifest ≡ ok ps
      → hardware_known hardware ≡ ok true
      → check_compatibility V text registry_package claw_name hardware none ≡ ok r
      → (xs : List (V.Version × Dict)) × (with_versions V ps ≡ ok xs) × IsVerdict xs r
  unfolding check_compatibility check_candidates check_latest check_platforms
  check_compatibility-IsVerdict text registry_package claw_name manifest ps r m p known e =
      let (xs, e1, e2) = >>=-eq-ok (with_versions V ps) _ (rw (m, p) at e) in
      let (found, e3, e4) =
        >>=-eq-ok (first_match V hardware (without_versions V (sorted_versions V xs))) _
          (rw known at e2) in
      (xs, e1, rw (sym (ok-injective _ _ e4)) (verdict-IsVerdict text xs found e3))
