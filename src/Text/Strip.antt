-- ===== src/Text/Strip.antt =====
-- `strip` is idempotent.
use Prim.Native.Char.{code}
use clawrium.Prelude.{◌≡◌, refl, ap, ◌∙◌, String, false, ◌&&◌, ◌==◌, Bool-cases, inl, inr}
use clawrium.Text.{is_space, strip_start, strip_end, strip}

-- A text that is empty or begins with no space.
abbrev BeginsPlain : String → Type 0
BeginsPlain String.[] = Unit
BeginsPlain (String.◌∷◌ c s) = is_space (code c) ≡ false

strip_start-BeginsPlain : (s : String) → BeginsPlain (strip_start s)
unfolding strip_start
strip_start-BeginsPlain String.[] = tt
strip_start-BeginsPlain (String.◌∷◌ c s) = elim (Bool-cases (is_space (code c))) [
  | inl t ↦ rw t (strip_start-BeginsPlain s)
  | inr f ↦ rw f f
]

strip_start-strip_end : (s : String) → BeginsPlain s → strip_start (strip_end s) ≡ strip_end s
unfolding strip_start strip_end
strip_start-strip_end String.[] h = refl
strip_start-strip_end (String.◌∷◌ c s) h = rw (h, h) refl

strip_end-strip_end : (s : String) → strip_end (strip_end s) ≡ strip_end s
unfolding strip_end
strip_end-strip_end String.[] = refl
strip_end-strip_end (String.◌∷◌ c s) = elim (Bool-cases (is_space (code c) && strip_end s == "")) [
  | inl t ↦ rw t refl
  | inr f ↦ rw (f, strip_end-strip_end s, f) refl
]

pub strip-strip : (s : String) → strip (strip s) ≡ strip s
unfolding strip
strip-strip s =
    ap strip_end (strip_start-strip_end (strip_start s) (strip_start-BeginsPlain s))
    ∙ strip_end-strip_end (strip_start s)
