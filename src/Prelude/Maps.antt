-- ===== src/Prelude/Maps.antt =====
-- Go maps with text keys as association lists.
use Prim.Native.Nat.{suc, ◌≤◌}
use mathlib.Core.Path.{◌≡◌, refl, subst, ◌∙◌}
use mathlib.Core.Logic.{inl, inr}
use mathlib.Core.Option.{Option, none, some}
use mathlib.Core.List.{List, [], ◌∷◌}
use native.Mathlib.Omega.{arith}
use offveil.Prelude.Tests.{if◌then◌else◌, Bool-cases}
use offveil.Prelude.Lists.{length}
use offveil.Prelude.Texts.{Text, text_eq, text_eq→eq, text_eq_iff, text_eq_refl}

module _ {ℓ} {V : Type ℓ} where
  -- `v, ok := m[k]`.
  unfoldable pub lookup : Text → List (Text × V) → Option V
  unfolding text_eq
  lookup k [] = none
  lookup k ((j, v) ∷ m) = if text_eq j k then some v else lookup k m

  -- `m[k] = v`.
  unfoldable pub insert : Text → V → List (Text × V) → List (Text × V)
  unfolding text_eq
  insert k v [] = (k, v) ∷ []
  insert k v ((j, w) ∷ m) = if text_eq j k then (k, v) ∷ m else (j, w) ∷ insert k v m

  -- `delete(m, k)`.
  unfoldable pub delete : Text → List (Text × V) → List (Text × V)
  unfolding text_eq
  delete k [] = []
  delete k ((j, w) ∷ m) = if text_eq j k then delete k m else (j, w) ∷ delete k m

  pub lookup-insert :
      (k j : Text) (v : V) (m : List (Text × V))
      → lookup j (insert k v m) ≡ (if text_eq k j then some v else lookup j m)
  unfolding lookup insert
  lookup-insert k j v [] = refl
  lookup-insert k j v ((i, w) ∷ m) =
      ground (arith, text_eq_iff k j, text_eq_iff i k, text_eq_iff i j, lookup-insert k j v m)

  pub lookup-delete :
      (k j : Text) (m : List (Text × V))
      → lookup j (delete k m) ≡ (if text_eq k j then none else lookup j m)
  unfolding lookup delete
  lookup-delete k j [] = ground arith
  lookup-delete k j ((i, w) ∷ m) =
      ground (arith, text_eq_iff k j, text_eq_iff i k, text_eq_iff i j, lookup-delete k j m)

  pub length-insert-le :
      (k : Text) (v : V) (m : List (Text × V)) → length (insert k v m) ≤ suc (length m)
  unfolding insert
  length-insert-le k v [] = omega arith
  length-insert-le k v ((j, w) ∷ m) = ground (arith, length-insert-le k v m)

  pub length-delete-le : (k : Text) (m : List (Text × V)) → length (delete k m) ≤ length m
  unfolding delete
  length-delete-le k [] = omega arith
  length-delete-le k ((j, w) ∷ m) = ground (arith, length-delete-le k m)

  -- Deleting a key that is present makes the map smaller.
  pub length-delete-lt :
      (k : Text) (v : V) (m : List (Text × V))
      → lookup k m ≡ some v
      → suc (length (delete k m)) ≤ length m
  unfolding lookup delete
  length-delete-lt k v [] h = cc
  length-delete-lt k v ((j, w) ∷ m) h = ground (arith, length-delete-lt k v m, length-delete-le k m)

  pub lookup-insert_self :
      (k : Text) (v : V) (m : List (Text × V)) → lookup k (insert k v m) ≡ some v
  lookup-insert_self k v m = simp (lookup-insert, text_eq_refl)

-- Every value of a map has a property.
module _ {V : Type 0} (P : V → Type 0) where
  abbrev pub Each : List (Text × V) → Type 0
  Each [] = Unit {0}
  Each ((k, v) ∷ m) = P v × Each m

  pub Each-insert : (k : Text) (v : V) (m : List (Text × V)) → P v → Each m → Each (insert k v m)
  unfolding insert
  Each-insert k v [] p h = (p, tt)
  Each-insert k v ((j, w) ∷ m) p h = elim (Bool-cases (text_eq j k)) [
    | inl e ↦ simp e (p, h.1)
    | inr e ↦ simp e (h.0, Each-insert k v m p h.1)
  ]

  pub Each-delete : (k : Text) (m : List (Text × V)) → Each m → Each (delete k m)
  unfolding delete
  Each-delete k [] h = tt
  Each-delete k ((j, w) ∷ m) h = elim (Bool-cases (text_eq j k)) [
    | inl e ↦ simp e (Each-delete k m h.1)
    | inr e ↦ simp e (h.0, Each-delete k m h.1)
  ]

  pub Each-lookup : (k : Text) (m : List (Text × V)) (v : V) → Each m → lookup k m ≡ some v → P v
  unfolding lookup
  Each-lookup k [] v h e = cc e
  Each-lookup k ((j, w) ∷ m) v h e = elim (Bool-cases (text_eq j k)) [
    | inl t ↦ subst P (ground (arith, t, e)) h.0
    | inr t ↦ Each-lookup k m v h.1 (ground (arith, t, e))
  ]

-- A map has each key once.
module _ {V : Type 0} where
  abbrev pub Unique : List (Text × V) → Type 0
  Unique [] = Unit {0}
  Unique ((k, v) ∷ m) = (lookup k m ≡ none) × Unique m

  pub insert-Unique : (k : Text) (v : V) (m : List (Text × V)) → Unique m → Unique (insert k v m)
  unfolding insert
  insert-Unique k v [] u = (unfold lookup in refl, tt)
  insert-Unique k v ((j, w) ∷ m) u = elim (Bool-cases (text_eq j k)) [
    | inl e ↦ simp e (subst (λ i. lookup i m ≡ none) (text_eq→eq j k e) u.0, u.1)
    | inr e ↦ simp e (
      lookup-insert k j v m ∙ ground (arith, e, u.0, text_eq_iff j k, text_eq_iff k j),
      insert-Unique k v m u.1,
    )
  ]

  pub delete-Unique : (k : Text) (m : List (Text × V)) → Unique m → Unique (delete k m)
  unfolding delete
  delete-Unique k [] u = tt
  delete-Unique k ((j, w) ∷ m) u = elim (Bool-cases (text_eq j k)) [
    | inl e ↦ simp e (delete-Unique k m u.1)
    | inr e ↦ simp e (lookup-delete k j m ∙ ground (arith, u.0), delete-Unique k m u.1)
  ]
