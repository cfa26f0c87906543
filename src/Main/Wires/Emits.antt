-- ===== src/Main/Wires/Emits.antt =====
-- Which calls a part of the set-up of main.go has made when it does not exit.
use beaconprobe.Base.{
  ◌≡◌, refl, sym, ap, ◌∙◌, Bool, true, false, Option, none, some, List, [], ◌∷◌, ◌++◌, arith,
  nat_key, string_key,
}
use mathlib.Core.List.{append_assoc, append-nil}
use beaconprobe.Base.Setup.{Run, exited, running, Setup, pure, ◌>>=◌, ◌>>◌, or_exit, check}
use beaconprobe.Main.Probe.{Call, Exit, World, call}

-- Whenever a part does not exit, it has made these calls.
pub record Emits {S A : Type 0} (m : Setup (World S) Exit A) (ks : List Call) : Type 0 where
  pub emitted : (w w' : World S) (x : A) → m w ≡ running w' x → w'.calls ≡ w.calls ++ ks

pub Emits-bind :
    {S A B : Type 0} {m : Setup (World S) Exit A} {f : A → Setup (World S) Exit B}
    {ks ls : List Call}
    → Emits m ks
    → ((x : A) → Emits (f x) ls)
    → Emits (m >>= f) (ks ++ ls)
unfolding ◌>>=◌
Emits-bind {S} {A} {B} {m} {f} {ks} {ls} hm hf = record {
  emitted = λ w w' y h. go w w' y (m w) refl h;
}
  where
    go :
        (w w' : World S) (y : B) (r : Run (World S) Exit A)
        → m w ≡ r
        → (elim r as (λ _. Run (World S) Exit B) [ exited v e ↦ exited v e | running v x ↦ f x v ])
          ≡ running w' y
        → w'.calls ≡ w.calls ++ (ks ++ ls)
    go w w' y (exited v e) k h = absurd (ground arith)
    go w w' y (running v x) k h =
        (hf x).emitted v w' y h
        ∙ ap (λ l. l ++ ls) (hm.emitted w v x k)
        ∙ append_assoc w.calls ks ls

pub Emits-next :
    {S B : Type 0} {m : Setup (World S) Exit (Unit {0})} {f : Setup (World S) Exit B}
    {ks ls : List Call}
    → Emits m ks
    → Emits f ls
    → Emits (m >> f) (ks ++ ls)
unfolding ◌>>=◌ ◌>>◌
Emits-next {m = m} {f = f} hm hf = record {
  emitted = (Emits-bind {m = m} {f = λ _. f} hm (λ _. hf)).emitted;
}

pub Emits-pure : {S A : Type 0} (y : A) → Emits {S = S} (pure y) []
unfolding pure
Emits-pure y = record {
  emitted = λ w w' x h.
      let same : w' ≡ w = ground arith in ap (λ v. v.calls) same ∙ sym (append-nil w.calls);
}

pub Emits-call : {S : Type 0} (k : Call) → Emits {S = S} (call k) (k ∷ [])
unfolding call
Emits-call {S} k = record {
  emitted = λ w w' x h.
      let same : w' ≡ record w { calls = w.calls ++ k ∷ [] } = ground arith in
      ap (λ v. v.calls) same;
}

Emits-check : {S : Type 0} (b : Bool) (e : Exit) → Emits {S = S} (check b e) []
unfolding check
Emits-check true e = record {
  emitted = λ w w' x h.
      let same : w' ≡ w = ground arith in ap (λ v. v.calls) same ∙ sym (append-nil w.calls);
}
Emits-check false e = record { emitted = λ w w' x h. absurd (ground arith) }

pub Emits-or_exit : {S A : Type 0} (o : Option A) (e : Exit) → Emits {S = S} (or_exit o e) []
unfolding or_exit
Emits-or_exit none e = record { emitted = λ w w' x h. absurd (ground arith) }
Emits-or_exit (some y) e = record {
  emitted = λ w w' x h.
      let same : w' ≡ w = ground arith in ap (λ v. v.calls) same ∙ sym (append-nil w.calls);
}

-- A part that always exits.
pub Emits-none :
    {S A : Type 0} {ks : List Call} (e : Exit) → Emits {S = S} {A = A} (or_exit none e) ks
unfolding or_exit
Emits-none e = record { emitted = λ w w' x h. absurd (ground arith) }

pub Emits-cast :
    {S A : Type 0} {m : Setup (World S) Exit A} {ks ls : List Call}
    → Emits m ks
    → ks ≡ ls
    → Emits m ls
Emits-cast h e = record { emitted = λ w w' x k. h.emitted w w' x k ∙ ap (λ l. w.calls ++ l) e }

pub said :
    {S B : Type 0} (k : Call) {f : Setup (World S) Exit B} {ls : List Call}
    → Emits f ls
    → Emits (call k >> f) (k ∷ ls)
said k h = Emits-next (Emits-call k) h

pub granted :
    {S B : Type 0} (k : Call) (b : Bool) (e : Exit) {f : Setup (World S) Exit B} {ls : List Call}
    → Emits f ls
    → Emits (call k >> (check b e >> f)) (k ∷ ls)
granted k b e h = said k (Emits-next (Emits-check b e) h)
