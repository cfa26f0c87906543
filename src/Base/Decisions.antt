-- ===== src/Base/Decisions.antt =====
-- Decidable equality as an instance, Boolean tests and the conditional.
use Prim.Native.Nat.{ℕ, compare, Ordering, ◌≤◌, ◌<◌}
use Prim.Native.String.{String}
use mathlib.Core.Bool.{Bool, true, false}
use mathlib.Core.Logic.{◌⊎◌, inl, inr, ◌≢◌}
use mathlib.Core.Option.{Option, none, some}
use mathlib.Core.Path.{◌≡◌, refl, sym, ◌∙◌}
use native.Mathlib.Decide.{ℕ_discrete}
use native.Mathlib.Omega.{arith}
use text.Mathlib.Text.{◌==◌ as str_eq}
use text.Mathlib.TextEquality.{eq_iff}

pub Bool-cases : (b : Bool) → (b ≡ true) ⊎ (b ≡ false)
Bool-cases true = inl refl
Bool-cases false = inr refl

pub Option-cases {ℓ} : {A : Type ℓ} (o : Option A) → (o ≡ none) ⊎ ((a : A) × (o ≡ some a))
Option-cases none = inl refl
Option-cases (some a) = inr (a, refl)

-- What Go's `==` needs of a comparable type, and what a map needs of its keys.
pub record Key {ℓ} (A : Type ℓ) : Type ℓ where
  pub dec : Discrete A

of_test : (s t : String) (b : Bool) → str_eq s t ≡ b → Dec (s ≡ t)
of_test s t true e = yes ((eq_iff s t).0 e)
of_test s t false e = no (λ p. ne_of_false (sym e ∙ (eq_iff s t).1 p))
  where
    ne_of_false : false ≡ true → ⊥
    ne_of_false h = cc

unfoldable pub String_discrete : Discrete String
unfolding of_test
String_discrete s t = of_test s t (str_eq s t) refl

instance abbrev pub nat_key : Key ℕ
nat_key = record { dec = ℕ_discrete }

instance abbrev pub string_key : Key String
string_key = record { dec = String_discrete }

-- Go's `==` as a Boolean.
infix 50 ◌==◌
abbrev pub ◌==◌ {ℓ} : {A : Type ℓ} ⦃k : Key A⦄ → A → A → Bool
◌==◌ ⦃k⦄ a b = elim (k.dec a b) [ yes _ ↦ true | no _ ↦ false ]

abbrev pub ltb : ℕ → ℕ → Bool
ltb a b = elim (compare a b) [ Ordering.lt ↦ true | _ ↦ false ]

abbrev pub leb : ℕ → ℕ → Bool
leb a b = elim (compare a b) [ Ordering.gt ↦ false | _ ↦ true ]

infix 1 if◌then◌else◌
abbrev pub if◌then◌else◌ {ℓ} : {A : Type ℓ} → Bool → A → A → A
if true then x else y = x
if false then x else y = y

pub ltb→lt : (a b : ℕ) → ltb a b ≡ true → a < b
ltb→lt a b h = ground arith

pub lt→ltb : (a b : ℕ) → a < b → ltb a b ≡ true
lt→ltb a b h = ground arith

pub leb→le : (a b : ℕ) → leb a b ≡ true → a ≤ b
leb→le a b h = ground arith

pub le→leb : (a b : ℕ) → a ≤ b → leb a b ≡ true
le→leb a b h = ground arith

pub ruleset tests = (arith, ltb→lt, lt→ltb, leb→le, le→leb)

pub ==_sound {ℓ} : {A : Type ℓ} ⦃k : Key A⦄ (a b : A) → (a == b) ≡ true → a ≡ b
==_sound a b h = ground arith

pub ==_refl {ℓ} : {A : Type ℓ} ⦃k : Key A⦄ (a : A) → (a == a) ≡ true
==_refl a = ground arith

pub ==_ne {ℓ} : {A : Type ℓ} ⦃k : Key A⦄ (a b : A) → a ≢ b → (a == b) ≡ false
==_ne a b h = ground arith
