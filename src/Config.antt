-- ===== src/Config.antt =====
-- The configuration directory: the JSON files that the core modules share, and the actions that
-- read and write them. A file is written whole (temporary file and rename) while its lock is held,
-- so an action's writes are one step; errors of the operating system are not modelled.
pub mod Keeps
use clawrium.Prelude.{◌≡◌, refl, Bool, true, false, Result, ok, err, Error}
use clawrium.Json.{Json}

-- `corrupted` is a file that `json.load` rejects.
pub data File : Type 0 where
  missing corrupted : File
  holds : Json → File

pub record Config : Type 0 where
  pub hosts : File
  pub channels : File
  pub integrations : File
  pub secrets : File
  pub providers : File

-- An operation that may raise: what was written before a raise stays written.
abbrev pub Exec {ℓ} : Type ℓ → Type ℓ
Exec A = Config → Result A × Config

module _ {ℓ} {A : Type ℓ} where
  abbrev pub pure : A → Exec A
  pure a c = (ok a, c)

  abbrev pub raise : Error → Exec A
  raise e c = (err e, c)

  abbrev pub lift : Result A → Exec A
  lift r c = (r, c)

  abbrev pub reads : (Config → Result A) → Exec A
  reads f c = (f c, c)

abbrev pub modify : (Config → Config) → Exec (Unit {0})
modify f c = (ok tt, f c)

module _ {ℓ κ} {A : Type ℓ} {B : Type κ} where
  abbrev pub continue : Result A → (A → Config → Result B × Config) → Config → Result B × Config
  continue (ok a) f c = f a c
  continue (err e) f c = (err e, c)

  infixl 5 ◌>>=◌ ◌>>◌
  abbrev pub ◌>>=◌ :
      (Config → Result A × Config) → (A → Config → Result B × Config) → Config → Result B × Config
  ◌>>=◌ m f c = continue (m c).0 f (m c).1

  abbrev pub ◌>>◌ :
      (Config → Result A × Config) → (Config → Result B × Config) → Config → Result B × Config
  m >> k = m >>= λ _. k
