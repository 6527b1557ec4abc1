-- ===== src/Config/Keeps.antt =====
-- Invariants of the files: one rule for each way to build an operation.
use clawrium.Prelude.{Bool, true, false, if◌then◌else◌, Result, ok, err, Error}
use clawrium.Config.{Config, pure, raise, lift, reads, continue, ◌>>=◌}

-- The operation keeps the property of the files, whether it returns or raises.
pub record Keeps {ℓ} {A : Type ℓ} (P : Config → Type 0) (m : Config → Result A × Config)
    : Type ℓ where
  pub at : (c : Config) → P c → P (m c).1

module _ {ℓ} {A : Type ℓ} (P : Config → Type 0) where
  pub Keeps-lift : (r : Result A) → Keeps P (lift r)
  Keeps-lift r = record { at = λ c h. h }

  pub Keeps-pure : (a : A) → Keeps P (pure a)
  Keeps-pure a = record { at = λ c h. h }

  pub Keeps-raise : (e : Error) → Keeps {A = A} P (raise e)
  Keeps-raise e = record { at = λ c h. h }

  pub Keeps-reads : (f : Config → Result A) → Keeps P (reads f)
  Keeps-reads f = record { at = λ c h. h }

  pub Keeps-if :
      (b : Bool) (m n : Config → Result A × Config)
      → Keeps P m
      → Keeps P n
      → Keeps P (if b then m else n)
  Keeps-if true m n km kn = km
  Keeps-if false m n km kn = kn

module _ {ℓ κ} {A : Type ℓ} {B : Type κ} (P : Config → Type 0) where
  Keeps-continue :
      (r : Result A) (f : A → Config → Result B × Config)
      → ((a : A) → Keeps P (f a))
      → (c : Config) → P c
      → P (continue r f c).1
  Keeps-continue (ok a) f kf c h = (kf a).at c h
  Keeps-continue (err e) f kf c h = h

  pub Keeps-bind :
      (m : Config → Result A × Config) (f : A → Config → Result B × Config)
      → Keeps P m
      → ((a : A) → Keeps P (f a))
      → Keeps P (m >>= f)
  Keeps-bind m f km kf = record { at = λ c h. Keeps-continue (m c).0 f kf (m c).1 (km.at c h) }
