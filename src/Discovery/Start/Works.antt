-- ===== src/Discovery/Start/Works.antt =====
-- Parts of a set-up that end well exactly under a condition and then add known calls, for
-- `StartDiscovery` of discovery/discovery.go.
use beaconprobe.Base.{
  ◌≡◌, refl, sym, ap, ◌∙◌, subst, Bool, true, false, Option, none, some, List, [], ◌∷◌, ◌++◌, arith,
  nat_key, string_key, if◌then◌else◌,
}
use mathlib.Core.List.{append_assoc, append-nil}
use beaconprobe.Base.Setup.{Run, exited, running, Setup, pure, ◌>>=◌, ◌>>◌, or_exit, check}
use beaconprobe.Discovery.Start.{Settings, Libraries, Call, Error, say}

-- A part that ends well exactly if P holds, and then adds the calls t.
pub record Works {N : Type 0} (m : Setup (List (Call N)) Error (Unit {0})) (P : Type 0)
    (t : List (Call N)) : Type 0 where
  pub needs : (w w' : List (Call N)) → m w ≡ running w' tt → P
  pub does : P → (w : List (Call N)) → m w ≡ running (w ++ t) tt

pub Works-next :
    {N P Q : Type 0} {m f : Setup (List (Call N)) Error (Unit {0})} {t u : List (Call N)}
    → Works m P t
    → Works f Q u
    → Works (m >> f) (P × Q) (t ++ u)
unfolding ◌>>◌
Works-next {N} {P} {Q} {m} {f} {t} {u} hm hf = record {
  needs = λ w w' h. go w w' (m w) refl h;
  does = λ (p, q) w.
      ap
        (λ r. elim r as (λ _. Run (List (Call N)) Error (Unit {0})) [
          | exited v e ↦ exited v e
          | running v x ↦ f v
        ])
        (hm.does p w)
      ∙ hf.does q (w ++ t)
      ∙ ap (λ l. running l tt) (append_assoc w t u);
}
  where
    go :
        (w w' : List (Call N)) (r : Run (List (Call N)) Error (Unit {0}))
        → m w ≡ r
        → elim r as (λ _. Run (List (Call N)) Error (Unit {0})) [
          | exited v e ↦ exited v e
          | running v x ↦ f v
        ]
          ≡ running w' tt
        → P × Q
    go w w' (exited v e) k h = absurd (ground arith)
    go w w' (running v x) k h = (hm.needs w v k, hf.needs v w' h)

pub Works-check : {N : Type 0} (b : Bool) (e : Error) → Works {N = N} (check b e) (b ≡ true) []
unfolding check
Works-check true e = record {
  needs = λ w w' h. refl;
  does = λ p w. ap (λ l. running l tt) (sym (append-nil w));
}
Works-check false e = record {
  needs = λ w w' h. absurd (ground arith);
  does = λ p w. absurd (ground arith);
}

Works-pure : {N : Type 0} → Works {N = N} (pure tt) Unit []
unfolding pure
Works-pure = record {
  needs = λ w w' h. tt;
  does = λ p w. ap (λ l. running l tt) (sym (append-nil w));
}

pub Works-cast :
    {N P : Type 0} {m : Setup (List (Call N)) Error (Unit {0})} {t u : List (Call N)}
    → Works m P t
    → t ≡ u
    → Works m P u
Works-cast {N} {P} {m} h e = subst (Works m P) e h

-- A part that is left out under a condition.
pub Works-unless :
    {N P : Type 0} {m : Setup (List (Call N)) Error (Unit {0})} {t : List (Call N)} (b : Bool)
    → Works m P t
    → Works (if b then pure tt else m) (b ≡ false → P) (if b then [] else t)
Works-unless true h = record {
  needs = λ w w' e no. absurd (ground arith);
  does = λ f w. Works-pure.does tt w;
}
Works-unless false h = record {
  needs = λ w w' e no. h.needs w w' e;
  does = λ f w. h.does (f refl) w;
}

pub Works-if :
    {N P : Type 0} {m : Setup (List (Call N)) Error (Unit {0})} {t : List (Call N)} (b : Bool)
    → Works m P t
    → Works (if b then m else pure tt) (b ≡ true → P) (if b then t else [])
Works-if true h = record { needs = λ w w' e yes. h.needs w w' e; does = λ f w. h.does (f refl) w }
Works-if false h = record {
  needs = λ w w' e yes. absurd (ground arith);
  does = λ f w. Works-pure.does tt w;
}

pub Works-some :
    {N A Q : Type 0} {f : A → Setup (List (Call N)) Error (Unit {0})} {t : List (Call N)}
    (o : Option A) (e : Error)
    → ((x : A) → o ≡ some x → Works (f x) Q t)
    → Works (or_exit o e >>= f) (((x : A) × (o ≡ some x)) × Q) t
unfolding or_exit ◌>>=◌
Works-some none e h = record {
  needs = λ w w' k. absurd (ground arith);
  does = λ p w. absurd (ground (arith, p.0.1));
}
Works-some (some x) e h = record {
  needs = λ w w' k. ((x, refl), (h x refl).needs w w' k);
  does = λ p w. (h x refl).does p.1 w;
}

module _ {N : Type 0} (libs : Libraries N) (s : Settings) where
  pub Works-say : (k : Call N) → Works (say libs s k) Unit (k ∷ [])
  unfolding say
  Works-say k = record { needs = λ w w' h. tt; does = λ p w. refl }

  -- A check and the call that it allows.
  pub allowed :
      {Q : Type 0} {f : Setup (List (Call N)) Error (Unit {0})} {u : List (Call N)} (b : Bool)
      (e : Error) (k : Call N)
      → Works f Q u
      → Works (check b e >> (say libs s k >> f)) ((b ≡ true) × (Unit {0} × Q)) (k ∷ u)
  allowed b e k h = Works-next (Works-check b e) (Works-next (Works-say k) h)
