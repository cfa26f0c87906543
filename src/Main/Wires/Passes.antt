-- ===== src/Main/Wires/Passes.antt =====
-- Parts of the set-up of main.go that do not exit, whatever the state.
use beaconprobe.Base.{
  ◌≡◌, refl, ap, ◌∙◌, Bool, true, false, Option, none, some, arith, nat_key, string_key,
}
use beaconprobe.Base.Setup.{Run, exited, running, Setup, pure, ◌>>=◌, ◌>>◌, or_exit, check}
use beaconprobe.Main.Probe.{Call, Exit, World, call}

-- A part that does not exit, whatever the state.
pub record Passes {S A : Type 0} (m : Setup (World S) Exit A) : Type 0 where
  pub passed : (w : World S) → (w' : World S) × (x : A) × (m w ≡ running w' x)

-- A chain whose first part ends well goes on from there.
pub goes_on :
    {S A B : Type 0} (m : Setup (World S) Exit A) (f : A → Setup (World S) Exit B) (w w' : World S)
    (x : A)
    → m w ≡ running w' x
    → (m >>= f) w ≡ f x w'
unfolding ◌>>=◌
goes_on {S} {A} {B} m f w w' x h =
    ap
      (λ r. elim r as (λ _. Run (World S) Exit B) [ exited v e ↦ exited v e | running v y ↦ f y v ])
      h

-- If a chain ends well, both parts do.
pub both_ran :
    {S A B : Type 0} (m : Setup (World S) Exit A) (f : A → Setup (World S) Exit B) (w w' : World S)
    (y : B)
    → (m >>= f) w ≡ running w' y
    → (v : World S) × (x : A) × (m w ≡ running v x) × (f x v ≡ running w' y)
unfolding ◌>>=◌
both_ran {S} {A} {B} m f w w' y h = go (m w) refl h
  where
    go :
        (r : Run (World S) Exit A)
        → m w ≡ r
        → elim r as (λ _. Run (World S) Exit B) [ exited v e ↦ exited v e | running v x ↦ f x v ]
          ≡ running w' y
        → (v : World S) × (x : A) × (m w ≡ running v x) × (f x v ≡ running w' y)
    go (exited v e) k h = absurd (ground arith)
    go (running v x) k h = (v, x, k, h)

goes_next :
    {S B : Type 0} (m : Setup (World S) Exit (Unit {0})) (f : Setup (World S) Exit B)
    (w w' : World S) (x : Unit {0})
    → m w ≡ running w' x
    → (m >> f) w ≡ f w'
unfolding ◌>>◌
goes_next {S} {B} m f w w' x h =
    ap (λ r. elim r as (λ _. Run (World S) Exit B) [ exited v e ↦ exited v e | running v y ↦ f v ])
      h

pub Passes-bind :
    {S A B : Type 0} {m : Setup (World S) Exit A} {f : A → Setup (World S) Exit B}
    → Passes m
    → ((x : A) → Passes (f x))
    → Passes (m >>= f)
Passes-bind {m = m} {f = f} hm hf = record {
  passed = λ w.
      let (w', x, e) = hm.passed w in
      let (v, y, k) = (hf x).passed w' in (v, y, goes_on m f w w' x e ∙ k);
}

pub Passes-next :
    {S B : Type 0} {m : Setup (World S) Exit (Unit {0})} {f : Setup (World S) Exit B}
    → Passes m
    → Passes f
    → Passes (m >> f)
Passes-next {m = m} {f = f} hm hf = record {
  passed = λ w.
      let (w', x, e) = hm.passed w in
      let (v, y, k) = hf.passed w' in (v, y, goes_next m f w w' x e ∙ k);
}

pub Passes-pure : {S A : Type 0} (x : A) → Passes {S = S} (pure x)
unfolding pure
Passes-pure x = record { passed = λ w. (w, x, refl) }

pub Passes-call : {S : Type 0} (k : Call) → Passes {S = S} (call k)
unfolding call
Passes-call k = record { passed = λ w. (_, tt, refl) }

pub Passes-check : {S : Type 0} (b : Bool) (e : Exit) → b ≡ true → Passes {S = S} (check b e)
unfolding check
Passes-check true e h = record { passed = λ w. (w, tt, refl) }
Passes-check false e h = absurd (ground arith)

pub Passes-or_exit :
    {S A : Type 0} (o : Option A) (x : A) (e : Exit) → o ≡ some x → Passes {S = S} (or_exit o e)
unfolding or_exit
Passes-or_exit none x e h = absurd (ground arith)
Passes-or_exit (some a) x e h = record { passed = λ w. (w, a, refl) }

pub silent :
    {S B : Type 0} (k : Call) {f : Setup (World S) Exit B} → Passes f → Passes (call k >> f)
silent k h = Passes-next (Passes-call k) h

pub checked :
    {S B : Type 0} (k : Call) (b : Bool) (e : Exit) {f : Setup (World S) Exit B}
    → b ≡ true
    → Passes f
    → Passes (call k >> (check b e >> f))
checked k b e t h = silent k (Passes-next (Passes-check b e t) h)
