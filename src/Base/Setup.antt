-- ===== src/Base/Setup.antt =====
-- How the set-up of the program runs: a sequence of steps over a state, any of which may end it.
use beaconprobe.Base.{Bool, true, false, Option, none, some}

pub data Run (W E A : Type 0) : Type 0 where
  exited : W → E → Run W E A
  running : W → A → Run W E A

abbrev pub Setup : Type 0 → Type 0 → Type 0 → Type 0
Setup W E A = W → Run W E A

module _ {W E : Type 0} where
  unfoldable pub pure : {A : Type 0} → A → Setup W E A
  pure a w = running w a

  infixl 5 ◌>>=◌ ◌>>◌
  unfoldable pub ◌>>=◌ : {A B : Type 0} → Setup W E A → (A → Setup W E B) → Setup W E B
  ◌>>=◌ m rest w = elim (m w) [ exited w' e ↦ exited w' e | running w' a ↦ rest a w' ]

  unfoldable pub ◌>>◌ : {B : Type 0} → Setup W E (Unit {0}) → Setup W E B → Setup W E B
  ◌>>◌ m rest w = elim (m w) [ exited w' e ↦ exited w' e | running w' a ↦ rest w' ]

  -- `if err != nil { os.Exit(1) }`, with a value and without one.
  unfoldable pub or_exit : {A : Type 0} → Option A → E → Setup W E A
  or_exit none e w = exited w e
  or_exit (some a) e w = running w a

  unfoldable pub check : Bool → E → Setup W E (Unit {0})
  check true e w = running w tt
  check false e w = exited w e
