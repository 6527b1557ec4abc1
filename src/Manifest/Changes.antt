-- ===== src/Manifest/Changes.antt =====
-- What each step of `compute` does to the emptiness of the changes.
use clawrium.Prelude.{
  if◌then◌else◌, arith, ◌≡◌, refl, ap, ◌∙◌, sym, String, Bool, true, false, List, [], ◌∷◌, ◌++◌,
  ◌&&◌,
}
use clawrium.Json.{str, Items, nil, cons}
use clawrium.Json.Lists.{has_item}
use clawrium.Manifest.{op, Op, AttachOp, Kind, ChangeSet, is_empty, is_nil}
use clawrium.Manifest.Differ.{
  attach_op, settle, attach_missing, is_desired, reconcile, detach_extra,
}

module _ {A : Type 0} where
  pub is_nil-append : (xs : List A) (x : A) → is_nil (xs ++ (x ∷ [])) ≡ false
  unfolding is_nil
  is_nil-append [] x = refl
  is_nil-append (y ∷ ys) x = refl

pub and_false : (b : Bool) → (b && false) ≡ false
and_false true = refl
and_false false = refl

pub and_true : (b : Bool) → (b && true) ≡ b
and_true true = refl
and_true false = refl

pub and_assoc : (a b c : Bool) → ((a && b) && c) ≡ (a && (b && c))
and_assoc true b c = refl
and_assoc false b c = refl

-- Adding a change.
module _ (cs : ChangeSet) where
  pub is_empty-creates :
      (x : Op) → is_empty (record cs { creates = cs.creates ++ (x ∷ []) }) ≡ false
  unfolding is_empty
  is_empty-creates x = rw (is_nil-append cs.creates x) refl

  is_empty-attaches :
      (x : AttachOp) → is_empty (record cs { attaches = cs.attaches ++ (x ∷ []) }) ≡ false
  unfolding is_empty
  is_empty-attaches x = ground (arith, is_nil-append cs.attaches x)

  is_empty-detaches :
      (x : AttachOp) → is_empty (record cs { detaches = cs.detaches ++ (x ∷ []) }) ≡ false
  unfolding is_empty
  is_empty-detaches x = ground (arith, is_nil-append cs.detaches x)

  pub is_empty-starts :
      (x : String) → is_empty (record cs { starts = cs.starts ++ (x ∷ []) }) ≡ false
  unfolding is_empty
  is_empty-starts x = ground (arith, is_nil-append cs.starts x)

  pub is_empty-restarts :
      (xs : List Op) (x : String)
      → is_empty (record cs { updates = xs; restarts = cs.restarts ++ (x ∷ []) }) ≡ false
  unfolding is_empty
  is_empty-restarts xs x = ground (arith, is_nil-append cs.restarts x)

  pub is_empty-noops :
      (x : Op) → is_empty (record cs { noops = cs.noops ++ (x ∷ []) }) ≡ is_empty cs
  unfolding is_empty
  is_empty-noops x = refl

  pub is_empty-settle :
      (known : Bool) (kind : Kind) (name : String)
      → is_empty (settle known kind name cs) ≡ (is_empty cs && known)
  unfolding settle
  is_empty-settle true kind name = is_empty-noops (op kind name) ∙ sym (and_true (is_empty cs))
  is_empty-settle false kind name = is_empty-creates (op kind name) ∙ sym (and_false (is_empty cs))

  -- A change that is made unless a test holds.
  is_empty-unless :
      (b : Bool) (changed : ChangeSet)
      → is_empty changed ≡ false
      → is_empty (if b then cs else changed) ≡ (is_empty cs && b)
  is_empty-unless true changed e = sym (and_true (is_empty cs))
  is_empty-unless false changed e = e ∙ sym (and_false (is_empty cs))

-- Every text is an item, and every item one of the texts.
abbrev pub holds_all : List String → Items → Bool
holds_all [] actual = true
holds_all (x ∷ xs) actual = has_item x actual && holds_all xs actual

abbrev pub holds_only : List String → Items → Bool
holds_only desired nil = true
holds_only desired (cons x xs) = is_desired desired x && holds_only desired xs

abbrev pub same_members : List String → Items → Bool
same_members desired actual = holds_all desired actual && holds_only desired actual

pub attach_missing-is_empty :
    (name : String) (kind : Kind) (xs : List String) (actual : Items) (cs : ChangeSet)
    → is_empty (attach_missing name kind xs actual cs) ≡ (is_empty cs && holds_all xs actual)
unfolding attach_missing
attach_missing-is_empty name kind [] actual cs = sym (and_true (is_empty cs))
attach_missing-is_empty name kind (x ∷ xs) actual cs =
    attach_missing-is_empty name kind xs actual _
    ∙ ap (λ b. b && holds_all xs actual)
        (is_empty-unless cs (has_item x actual) _
          (is_empty-attaches cs (attach_op name kind (str x))))
    ∙ and_assoc (is_empty cs) (has_item x actual) (holds_all xs actual)

detach_extra-is_empty :
    (name : String) (kind : Kind) (desired : List String) (xs : Items) (cs : ChangeSet)
    → is_empty (detach_extra name kind desired xs cs) ≡ (is_empty cs && holds_only desired xs)
unfolding detach_extra
detach_extra-is_empty name kind desired nil cs = sym (and_true (is_empty cs))
detach_extra-is_empty name kind desired (cons x xs) cs =
    detach_extra-is_empty name kind desired xs _
    ∙ ap (λ b. b && holds_only desired xs)
        (is_empty-unless cs (is_desired desired x) _ (is_empty-detaches cs (attach_op name kind x)))
    ∙ and_assoc (is_empty cs) (is_desired desired x) (holds_only desired xs)

pub reconcile-is_empty :
    (name : String) (kind : Kind) (desired : List String) (actual : Items) (cs : ChangeSet)
    → is_empty (reconcile name kind desired actual cs)
      ≡ (is_empty cs && same_members desired actual)
unfolding reconcile
reconcile-is_empty name kind desired actual cs =
    detach_extra-is_empty name kind desired actual _
    ∙ ap (λ b. b && holds_only desired actual) (attach_missing-is_empty name kind desired actual cs)
    ∙ and_assoc (is_empty cs) (holds_all desired actual) (holds_only desired actual)
