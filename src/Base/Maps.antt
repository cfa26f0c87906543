-- ===== src/Base/Maps.antt =====
-- Go's maps as association lists: a write replaces, `delete` of a missing key does nothing.
use Prim.Native.Nat.{◌+◌}
use mathlib.Core.List.{List, [], ◌∷◌}
use mathlib.Core.Logic.{ite}
use mathlib.Core.Option.{Option, none, some}
use mathlib.Core.Path.{◌≡◌, refl}
use native.Mathlib.Omega.{arith}
use beaconprobe.Base.Decisions.{Key}
use beaconprobe.Base.Lists.{length}

abbrev pub GoMap {ℓ} : Type ℓ → Type ℓ → Type ℓ
GoMap K V = List (K × V)

module _ {ℓ} {K V : Type ℓ} ⦃k : Key K⦄ where
  unfoldable pub lookup : K → GoMap K V → Option V
  lookup a [] = none
  lookup a ((b, v) ∷ m) = ite (k.dec a b) (some v) (lookup a m)

  unfoldable pub delete : K → GoMap K V → GoMap K V
  delete a [] = []
  delete a ((b, v) ∷ m) = ite (k.dec a b) (delete a m) ((b, v) ∷ delete a m)

  unfoldable pub insert : K → V → GoMap K V → GoMap K V
  unfolding delete
  insert a v m = (a, v) ∷ delete a m

  pub lookup-delete :
      (a b : K) (m : GoMap K V) → lookup a (delete b m) ≡ ite (k.dec a b) none (lookup a m)
  unfolding lookup delete
  lookup-delete a b [] = ground arith
  lookup-delete a b ((c, v) ∷ m) = ground (arith, lookup-delete a b m)

  pub lookup-insert :
      (a b : K) (v : V) (m : GoMap K V)
      → lookup a (insert b v m) ≡ ite (k.dec a b) (some v) (lookup a m)
  unfolding lookup insert
  lookup-insert a b v m = ground (arith, lookup-delete a b m)

  -- No key stands twice.
  abbrev pub Distinct : GoMap K V → Type ℓ
  Distinct [] = Unit
  Distinct ((a, v) ∷ m) = (lookup a m ≡ none) × Distinct m

  pub delete-Distinct : (a : K) (m : GoMap K V) → Distinct m → Distinct (delete a m)
  unfolding lookup delete
  delete-Distinct a [] d = d
  delete-Distinct a ((b, v) ∷ m) d = ground (arith, delete-Distinct a m d.1, lookup-delete b a m)

  pub insert-Distinct : (a : K) (v : V) (m : GoMap K V) → Distinct m → Distinct (insert a v m)
  unfolding insert
  insert-Distinct a v m d = (ground (arith, lookup-delete a a m), delete-Distinct a m d)

  pub delete_absent : (a : K) (m : GoMap K V) → lookup a m ≡ none → delete a m ≡ m
  unfolding lookup delete
  delete_absent a [] h = refl
  delete_absent a ((b, v) ∷ m) h = ground (arith, delete_absent a m)

  pub length-delete :
      (a : K) (v : V) (m : GoMap K V)
      → Distinct m
      → lookup a m ≡ some v
      → length (delete a m) + 1 ≡ length m
  unfolding lookup delete
  length-delete a v [] d h = absurd (ground arith)
  length-delete a v ((b, w) ∷ m) d h = ground (arith, length-delete a v m d.1, delete_absent a m)
