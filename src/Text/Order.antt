-- ===== src/Text/Order.antt =====
-- Python's order of texts, by their code points, and `sorted(set(…))`.
use mathlib.Core.Path.{subst}
use Prim.Native.Char.{code}
use text.Mathlib.TextEquality.{Char-path}
use clawrium.Prelude.{
  eq_refl, sym, inr, inl, Bool-cases, ◌≡◌, refl, ap, ◌∙◌, String, Bool, true, false, ◌||◌, List, [],
  ◌∷◌, ◌==◌, if◌then◌else◌, ltb, contains, All, arith, eq_iff,
}

unfoldable pub before : String → String → Bool
before String.[] String.[] = false
before String.[] (String.◌∷◌ d t) = true
before (String.◌∷◌ c s) String.[] = false
before (String.◌∷◌ c s) (String.◌∷◌ d t) =
    if ltb (code c) (code d) then true else if ltb (code d) (code c) then false else before s t

before_irrefl : (s : String) → before s s ≡ false
unfolding before
before_irrefl String.[] = refl
before_irrefl (String.◌∷◌ c s) = ground (arith, before_irrefl s)

before_trans : (s t u : String) → before s t ≡ true → before t u ≡ true → before s u ≡ true
unfolding before
before_trans String.[] String.[] u e f = cc
before_trans String.[] (String.◌∷◌ d t) String.[] e f = cc
before_trans String.[] (String.◌∷◌ d t) (String.◌∷◌ x u) e f = refl
before_trans (String.◌∷◌ c s) String.[] u e f = cc
before_trans (String.◌∷◌ c s) (String.◌∷◌ d t) String.[] e f = cc
before_trans (String.◌∷◌ c s) (String.◌∷◌ d t) (String.◌∷◌ x u) e f =
    ground (arith, before_trans s t u)

-- Of two texts that differ, one is before the other.
before_total : (s t : String) → before s t ≡ false → before t s ≡ false → s ≡ t
unfolding before
before_total String.[] String.[] e f = refl
before_total String.[] (String.◌∷◌ d t) e f = cc
before_total (String.◌∷◌ c s) String.[] e f = cc
before_total (String.◌∷◌ c s) (String.◌∷◌ d t) e f =
    let head : c ≡ d = Char-path c d (ground arith) in
    let tail : s ≡ t = before_total s t (ground arith) (ground arith) in cc

-- A sorted list without repetitions, and the text put into it.
unfoldable pub insert_text : String → List String → List String
insert_text s [] = s ∷ []
insert_text s (x ∷ xs) =
    let rest = insert_text s xs in
    if s == x then x ∷ xs else if before s x then s ∷ x ∷ xs else x ∷ rest

-- `sorted(set(xs))`
unfoldable pub sorted_set : List String → List String
sorted_set [] = []
sorted_set (x ∷ xs) = insert_text x (sorted_set xs)

abbrev pub IsSorted : List String → Type 0
IsSorted [] = Unit
IsSorted (x ∷ xs) = All (λ (y : String). before x y ≡ true) xs × IsSorted xs

All-insert_text :
    (x s : String) (xs : List String)
    → before x s ≡ true
    → All (λ (y : String). before x y ≡ true) xs
    → All (λ (y : String). before x y ≡ true) (insert_text s xs)
unfolding insert_text
All-insert_text x s [] h k = (h, tt)
All-insert_text x s (y ∷ ys) h k = elim (Bool-cases (s == y)) [
  | inl t ↦ rw t k
  | inr f ↦ elim (Bool-cases (before s y)) [
    | inl t ↦ rw (f, t) (h, k)
    | inr g ↦ rw (f, g) (k.0, All-insert_text x s ys h k.1)
  ]
]

All-before :
    (s x : String) (xs : List String)
    → before s x ≡ true
    → All (λ (y : String). before x y ≡ true) xs
    → All (λ (y : String). before s y ≡ true) xs
All-before s x [] h k = tt
All-before s x (y ∷ ys) h k = (before_trans s x y h k.0, All-before s x ys h k.1)

after_other : (s x : String) → (s == x) ≡ false → before s x ≡ false → before x s ≡ true
after_other s x f g = elim (Bool-cases (before x s)) [
  | inl t ↦ t
  | inr h ↦ let same = (eq_iff s x).1 (before_total s x g h) in cc
]

pub insert_text-IsSorted :
    (s : String) (xs : List String) → IsSorted xs → IsSorted (insert_text s xs)
unfolding insert_text
insert_text-IsSorted s [] h = (tt, tt)
insert_text-IsSorted s (x ∷ xs) h = elim (Bool-cases (s == x)) [
  | inl t ↦ rw t h
  | inr f ↦ elim (Bool-cases (before s x)) [
    | inl t ↦ rw (f, t) ((t, All-before s x xs t h.0), h)
    | inr g ↦
        rw (f, g) (All-insert_text x s xs (after_other s x f g) h.0, insert_text-IsSorted s xs h.1)
  ]
]

pub sorted_set-IsSorted : (xs : List String) → IsSorted (sorted_set xs)
unfolding sorted_set
sorted_set-IsSorted [] = tt
sorted_set-IsSorted (x ∷ xs) = insert_text-IsSorted x (sorted_set xs) (sorted_set-IsSorted xs)

pub contains-insert_text :
    (s t : String) (xs : List String) → contains (insert_text s xs) t ≡ (s == t || contains xs t)
unfolding insert_text
contains-insert_text s t [] = refl
contains-insert_text s t (x ∷ xs) =
    ground (arith, contains-insert_text s t xs, eq_iff s x, eq_iff s t, eq_iff x t)

pub contains-sorted_set :
    (xs : List String) (t : String) → contains (sorted_set xs) t ≡ contains xs t
unfolding sorted_set
contains-sorted_set [] t = refl
contains-sorted_set (x ∷ xs) t =
    contains-insert_text x t (sorted_set xs) ∙ ap (λ b. x == t || b) (contains-sorted_set xs t)

member_after :
    (x t : String) (xs : List String)
    → All (λ (y : String). before x y ≡ true) xs
    → contains xs t ≡ true
    → before x t ≡ true
member_after x t [] h m = cc
member_after x t (y ∷ ys) h m = elim (Bool-cases (y == t)) [
  | inl e ↦ rw (sym ((eq_iff y t).0 e)) h.0
  | inr f ↦ member_after x t ys h.1 (rw f at m)
]

not_member_after :
    (x : String) (xs : List String)
    → All (λ (y : String). before x y ≡ true) xs
    → contains xs x ≡ false
not_member_after x xs h = elim (Bool-cases (contains xs x)) [
  | inl m ↦ let e = member_after x x xs h m in let f = before_irrefl x in cc
  | inr f ↦ f
]

same_head :
    (x y : String) (xs ys : List String)
    → IsSorted (x ∷ xs)
    → IsSorted (y ∷ ys)
    → contains (y ∷ ys) x ≡ true
    → contains (x ∷ xs) y ≡ true
    → x ≡ y
same_head x y xs ys h k m n = elim (Bool-cases (x == y)) [
  | inl e ↦ (eq_iff x y).0 e
  | inr f ↦
      let g : (y == x) ≡ false = ground (arith, eq_iff x y, eq_iff y x) in
      let one : before y x ≡ true = member_after y x ys k.0 (rw g at m) in
      let two : before x y ≡ true = member_after x y xs h.0 (rw f at n) in
      let loop = before_trans x y x two one in let no_loop = before_irrefl x in cc
]

same_tail :
    (x t : String) (xs ys : List String)
    → IsSorted (x ∷ xs)
    → IsSorted (x ∷ ys)
    → contains (x ∷ xs) t ≡ contains (x ∷ ys) t
    → contains xs t ≡ contains ys t
same_tail x t xs ys h k e = elim (Bool-cases (x == t)) [
  | inl s ↦
      rw (sym ((eq_iff x t).0 s)) (not_member_after x xs h.0 ∙ sym (not_member_after x ys k.0))
  | inr f ↦ rw f at e
]

contains_head : (x : String) (xs : List String) → contains (x ∷ xs) x ≡ true
contains_head x xs = rw (eq_refl x) refl

-- A sorted list is determined by its members.
pub sorted_ext :
    (xs ys : List String)
    → IsSorted xs
    → IsSorted ys
    → ((t : String) → contains xs t ≡ contains ys t)
    → xs ≡ ys
sorted_ext [] [] h k e = refl
sorted_ext [] (y ∷ ys) h k e = let f = e y in let g = eq_refl y in ground arith
sorted_ext (x ∷ xs) [] h k e = let f = e x in let g = eq_refl x in ground arith
sorted_ext (x ∷ xs) (y ∷ ys) h k e =
    let at_x : contains (y ∷ ys) x ≡ true = sym (e x) ∙ contains_head x xs in
    let at_y : contains (x ∷ xs) y ≡ true = e y ∙ contains_head y ys in
    let head : x ≡ y = same_head x y xs ys h k at_x at_y in
    let k' : IsSorted (x ∷ ys) = subst (λ z. IsSorted (z ∷ ys)) (sym head) k in
    let e' : (t : String) → contains (x ∷ xs) t ≡ contains (x ∷ ys) t =
      subst (λ z. (t : String) → contains (x ∷ xs) t ≡ contains (z ∷ ys) t) (sym head) e in
    let tail : xs ≡ ys = sorted_ext xs ys h.1 k.1 (λ t. same_tail x t xs ys h k' (e' t)) in
    λ i. head i ∷ tail i
