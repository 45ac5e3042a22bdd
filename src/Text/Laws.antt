-- ===== src/Text/Laws.antt =====
-- Equality of texts, and the laws of maps.
use sun_ray2server.Prelude.{
  ◌≡◌, ◌↔◌, ◌≢◌, ◌⊎◌, inl, inr, refl, true, List, [], ◌∷◌, none, some, if◌then◌else◌, Bool-cases,
  All, arith,
}
use mathlib.Core.Path.{subst}
use sun_ray2server.Text.{Text, Unicode, same, lookup, insert, remove, find_fold, equal_fold}

pub same_iff : (s t : Text) → (same s t ≡ true) ↔ (s ≡ t)
unfolding same
same_iff [] [] = ground arith
same_iff [] (d ∷ t) = ground arith
same_iff (c ∷ s) [] = ground arith
same_iff (c ∷ s) (d ∷ t) = ground (arith, same_iff s t)

pub same_self : (s : Text) → same s s ≡ true
same_self s = (same_iff s s).1 refl

module _ {ℓ} {V : Type ℓ} where
  pub lookup-insert :
      (k j : Text) (v : V) (m : List (Text × V))
      → lookup j (insert k v m) ≡ (if same k j then some v else lookup j m)
  unfolding lookup insert
  lookup-insert k j v [] = refl
  lookup-insert k j v ((i, w) ∷ m) =
      ground (arith, same_iff k j, same_iff i k, same_iff i j, lookup-insert k j v m)

  pub lookup-remove :
      (k j : Text) (m : List (Text × V))
      → lookup j (remove k m) ≡ (if same k j then none else lookup j m)
  unfolding lookup remove
  lookup-remove k j [] = ground arith
  lookup-remove k j ((i, w) ∷ m) =
      ground (arith, same_iff k j, same_iff i k, same_iff i j, lookup-remove k j m)

  -- An entry after an insertion is the new one or was there before, under another key.
  pub insert-cases :
      (k j : Text) (v w : V) (m : List (Text × V))
      → lookup j (insert k v m) ≡ some w
      → ((k ≡ j) × (v ≡ w)) ⊎ ((k ≢ j) × (lookup j m ≡ some w))
  insert-cases k j v w m e = ground (arith, e, same_iff k j, lookup-insert k j v m)

  pub remove-cases :
      (k j : Text) (w : V) (m : List (Text × V))
      → lookup j (remove k m) ≡ some w
      → (k ≢ j) × (lookup j m ≡ some w)
  remove-cases k j w m e = ground (arith, e, same_iff k j, lookup-remove k j m)

  -- What holds of every entry holds of one that is found.
  pub lookup-All :
      (P : V → Type 0) (k : Text) (m : List (Text × V)) (v : V)
      → All (λ e. P e.1) m
      → lookup k m ≡ some v
      → P v
  unfolding lookup
  lookup-All P k [] v a e = absurd (ground (arith, e))
  lookup-All P k ((j, w) ∷ m) v (p, a) e = elim (Bool-cases (same j k)) [
    | inl s ↦ subst P (ground (arith, e, s)) p
    | inr s ↦ lookup-All P k m v a (ground (arith, e, s))
  ]

  pub find_fold-All :
      (P : V → Type 0) (u : Unicode) (k : Text) (m : List (Text × V)) (v : V)
      → All (λ e. P e.1) m
      → find_fold u k m ≡ some v
      → P v
  unfolding find_fold
  find_fold-All P u k [] v a e = absurd (ground (arith, e))
  find_fold-All P u k ((j, w) ∷ m) v (p, a) e = elim (Bool-cases (equal_fold u j k)) [
    | inl s ↦ subst P (ground (arith, e, s)) p
    | inr s ↦ find_fold-All P u k m v a (ground (arith, e, s))
  ]
