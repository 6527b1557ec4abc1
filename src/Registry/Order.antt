-- ===== src/Registry/Order.antt =====
-- The order of the platforms by their versions.
use clawrium.Registry.Compatibility.{sorted_versions, insert_version}
use clawrium.Registry.Version.{IsOrdered, Versions}
use clawrium.Prelude.{inr, inl, Bool-cases, All, ◌⊎◌, ◌≡◌, true, List, [], ◌∷◌}
use clawrium.Json.{Dict}

abbrev pub IsIn : {A : Type 0} → A → List A → Type 0
IsIn z [] = ⊥
IsIn z (x ∷ xs) = (z ≡ x) ⊎ IsIn z xs

module _ (V : Versions) (ordered : IsOrdered V) where
  abbrev pub Descending : List (V.Version × Dict) → Type 0
  Descending [] = Unit
  Descending (x ∷ xs) = All (λ (y : V.Version × Dict). V.le y.0 x.0 ≡ true) xs × Descending xs

  pub le_refl : (a : V.Version) → V.le a a ≡ true
  le_refl a = elim (Bool-cases (V.le a a)) [ inl t ↦ t | inr f ↦ ordered.total a a f ]

  module _ (P : V.Version × Dict → Type 0) where
    All-insert_version :
        (x : V.Version × Dict) (xs : List (V.Version × Dict))
        → P x
        → All P xs
        → All P (insert_version V x xs)
    unfolding insert_version
    All-insert_version x [] h k = (h, tt)
    All-insert_version x (y ∷ ys) h k = elim (Bool-cases (V.le y.0 x.0)) [
      | inl t ↦ rw t (h, k)
      | inr f ↦ rw f (k.0, All-insert_version x ys h k.1)
    ]

    All-of_insert_version :
        (x : V.Version × Dict) (xs : List (V.Version × Dict))
        → All P (insert_version V x xs)
        → P x × All P xs
    unfolding insert_version
    All-of_insert_version x [] k = (k.0, tt)
    All-of_insert_version x (y ∷ ys) k = elim (Bool-cases (V.le y.0 x.0)) [
      | inl t ↦ rw t at k
      | inr f ↦
          let k' : P y × All P (insert_version V x ys) = rw f at k in
          let (h, rest) = All-of_insert_version x ys k'.1 in (h, (k'.0, rest))
    ]

    pub All-of_sorted_versions :
        (xs : List (V.Version × Dict)) → All P (sorted_versions V xs) → All P xs
    unfolding sorted_versions
    All-of_sorted_versions [] k = tt
    All-of_sorted_versions (x ∷ xs) k =
        let (h, rest) = All-of_insert_version x (sorted_versions V xs) k in
        (h, All-of_sorted_versions xs rest)

  IsIn-insert_version :
      (z x : V.Version × Dict) (xs : List (V.Version × Dict))
      → IsIn z (insert_version V x xs)
      → (z ≡ x) ⊎ IsIn z xs
  unfolding insert_version
  IsIn-insert_version z x [] m = m
  IsIn-insert_version z x (y ∷ ys) m = elim (Bool-cases (V.le y.0 x.0)) [
    | inl t ↦ rw t at m
    | inr f ↦
        let m' : (z ≡ y) ⊎ IsIn z (insert_version V x ys) = rw f at m in
        elim m' [
          | inl e ↦ inr (inl e)
          | inr later ↦ elim (IsIn-insert_version z x ys later) [
            | inl e ↦ inl e
            | inr there ↦ inr (inr there)
          ]
        ]
  ]

  pub IsIn-sorted_versions :
      (z : V.Version × Dict) (xs : List (V.Version × Dict))
      → IsIn z (sorted_versions V xs)
      → IsIn z xs
  unfolding sorted_versions
  IsIn-sorted_versions z [] m = m
  IsIn-sorted_versions z (x ∷ xs) m = elim (IsIn-insert_version z x (sorted_versions V xs) m) [
    | inl e ↦ inl e
    | inr there ↦ inr (IsIn-sorted_versions z xs there)
  ]

  All-below :
      (x y : V.Version × Dict) (xs : List (V.Version × Dict))
      → V.le y.0 x.0 ≡ true
      → All (λ (z : V.Version × Dict). V.le z.0 y.0 ≡ true) xs
      → All (λ (z : V.Version × Dict). V.le z.0 x.0 ≡ true) xs
  All-below x y [] h k = tt
  All-below x y (z ∷ zs) h k = (ordered.trans z.0 y.0 x.0 k.0 h, All-below x y zs h k.1)

  insert_version-Descending :
      (x : V.Version × Dict) (xs : List (V.Version × Dict))
      → Descending xs
      → Descending (insert_version V x xs)
  unfolding insert_version
  insert_version-Descending x [] d = (tt, tt)
  insert_version-Descending x (y ∷ ys) d = elim (Bool-cases (V.le y.0 x.0)) [
    | inl t ↦ rw t ((t, All-below x y ys t d.0), d)
    | inr f ↦ rw f (
      All-insert_version (λ (z : V.Version × Dict). V.le z.0 y.0 ≡ true) x ys
          (ordered.total y.0 x.0 f) d.0,
      insert_version-Descending x ys d.1,
    )
  ]

  pub sorted_versions-Descending :
      (xs : List (V.Version × Dict)) → Descending (sorted_versions V xs)
  unfolding sorted_versions
  sorted_versions-Descending [] = tt
  sorted_versions-Descending (x ∷ xs) =
      insert_version-Descending x (sorted_versions V xs) (sorted_versions-Descending xs)
