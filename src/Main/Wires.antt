-- ===== src/Main/Wires.antt =====
-- What the parts of the set-up of main.go leave behind when they do not exit.
pub mod Loads
pub mod Siblings
pub mod Parts
pub mod Probes
pub mod Passes
pub mod Starts
pub mod Keys
pub mod Emits
pub mod Calls
use beaconprobe.Base.{
  ℕ, zero, suc, ◌+◌, ◌-◌, ◌*◌, ◌/◌, ◌%◌, ◌^◌, ◌≤◌, ◌<◌, min, max, String, ◌≡◌, refl, sym, ap, ◌∙◌,
  subst, ◌≢◌, ◌↔◌, ◌⊎◌, inl, inr, ite, if_pos, if_neg, Bool, true, false, not, ◌&&◌, ◌||◌, Option,
  none, some, List, [], ◌∷◌, ◌++◌, map, arith, dec_lt, dec_le, ℕ_discrete, String_discrete, lookup,
  insert, delete, lookup-insert, lookup-delete, GoMap, Distinct, delete-Distinct, insert-Distinct,
  delete_absent, length-delete, Bool-cases, Option-cases, Key, nat_key, string_key, ◌==◌, ltb, leb,
  if◌then◌else◌, ltb→lt, lt→ltb, leb→le, le→leb, tests, ==_sound, ==_refl, ==_ne, length, get_elem?,
  take, set, select, any, All, Has, here, there, length-append, length-take, length-select-le,
  get_elem?_total, All_Has, All-map, All-append, get_or, length-set, get_or-set_self, get_or-set_ne,
}
use beaconprobe.Base.Setup.{Run, exited, running, Setup, pure, ◌>>=◌, ◌>>◌, or_exit, check}
use beaconprobe.Main.Probe.{Call, Exit, World, call}
use beaconprobe.Config.{InstanceConfig}

-- A predicate of each instance and its index, from an index on.
abbrev pub Each : (ℕ → InstanceConfig → Type 0) → ℕ → List InstanceConfig → Type 0
Each P i [] = Unit
Each P i (inst ∷ insts) = P i inst × Each P (suc i) insts

-- Whenever a part does not exit, its result satisfies a predicate.
pub record Leaves {S A : Type 0} (m : Setup (World S) Exit A) (Q : A → Type 0) : Type 0 where
  pub left : (w w' : World S) (a : A) → m w ≡ running w' a → Q a

pub Leaves-bind :
    {S A B : Type 0} {m : Setup (World S) Exit A} {f : A → Setup (World S) Exit B} (P : A → Type 0)
    {Q : B → Type 0}
    → Leaves m P
    → ((a : A) → P a → Leaves (f a) Q)
    → Leaves (m >>= f) Q
unfolding ◌>>=◌
Leaves-bind {S} {A} {B} {m} {f} P {Q} hm hf = record { left = λ w w' b h. go w w' b (m w) refl h }
  where
    go :
        (w w' : World S) (b : B) (r : Run (World S) Exit A)
        → m w ≡ r
        → (elim r as (λ _. Run (World S) Exit B) [ exited v e ↦ exited v e | running v a ↦ f a v ])
          ≡ running w' b
        → Q b
    go w w' b (exited v e) k h = absurd (ground arith)
    go w w' b (running v a) k h = (hf a (hm.left w v a k)).left v w' b h

pub Leaves-imply :
    {S A : Type 0} {m : Setup (World S) Exit A} (P : A → Type 0) {Q : A → Type 0}
    → Leaves m P
    → ((a : A) → P a → Q a)
    → Leaves m Q
Leaves-imply P h f = record { left = λ w w' a e. f a (h.left w w' a e) }

pub Leaves-next :
    {S B : Type 0} {m : Setup (World S) Exit (Unit {0})} {f : Setup (World S) Exit B} (P : Type 0)
    {Q : B → Type 0}
    → Leaves m (λ _. P)
    → (P → Leaves f Q)
    → Leaves (m >> f) Q
unfolding ◌>>=◌ ◌>>◌
Leaves-next {S} {B} {m} {f} P {Q} hm hf = record {
  left = (Leaves-bind {m = m} {f = λ _. f} (λ _. P) {Q = Q} hm (λ _. hf)).left;
}

pub Leaves-pure : {S A : Type 0} (a : A) {Q : A → Type 0} → Q a → Leaves {S = S} (pure a) Q
unfolding pure
Leaves-pure a {Q} q = record { left = λ w w' b h. subst Q (ground arith) q }

pub Leaves-call : {S : Type 0} (k : Call) → Leaves {S = S} (call k) (λ _. Unit)
Leaves-call k = record { left = λ w w' b h. tt }

Leaves-check : {S : Type 0} (b : Bool) (e : Exit) → Leaves {S = S} (check b e) (λ _. b ≡ true)
unfolding check
Leaves-check true e = record { left = λ w w' b h. refl }
Leaves-check false e = record { left = λ w w' b h. absurd (ground arith) }

pub Leaves-or_exit :
    {S A : Type 0} (o : Option A) (e : Exit) → Leaves {S = S} (or_exit o e) (λ a. o ≡ some a)
unfolding or_exit
Leaves-or_exit none e = record { left = λ w w' b h. absurd (ground arith) }
Leaves-or_exit (some a) e = record { left = λ w w' b h. ground arith }

-- A call, and one followed by a check.
pub after_call :
    {S B : Type 0} (k : Call) {f : Setup (World S) Exit B} {Q : B → Type 0}
    → Leaves f Q
    → Leaves (call k >> f) Q
after_call k h = Leaves-next Unit (Leaves-call k) (λ _. h)

pub after_check :
    {S B : Type 0} (k : Call) (b : Bool) (x : Exit) {f : Setup (World S) Exit B} {Q : B → Type 0}
    → (b ≡ true → Leaves f Q)
    → Leaves (call k >> (check b x >> f)) Q
after_check k b x h = after_call k (Leaves-next (b ≡ true) (Leaves-check b x) h)
