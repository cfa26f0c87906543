-- ===== src/Main/Panics.antt =====
-- Parts of the set-up of main.go that run into no panic.
pub mod Modes
use beaconprobe.Base.{
  ℕ, suc, ◌+◌, ◌<◌, String, ◌≡◌, refl, ◌≢◌, Bool, true, false, ◌&&◌, Option, none, some, List, [],
  ◌∷◌, map, arith, nat_key, string_key, ◌==◌, if◌then◌else◌, length, get_elem?,
}
use beaconprobe.Config.{Result, ok, err, InstanceConfig, Config, key_file_total}
use beaconprobe.Config.Validity.{IsConsistent}
use beaconprobe.Node.PeerSet.{new_shared_peer_set}
use beaconprobe.Node.Host.{Disk, Codec}
use beaconprobe.Base.Setup.{Run, exited, running, Setup, pure, ◌>>=◌, ◌>>◌, or_exit, check}
use beaconprobe.Main.Probe.{
  Answers, DiscoveryConfig, Call, Exit, World, Hosts, Services, call, open_key, load_key, load_keys,
  create_hosts, set_up_blocks, set_up, set_up_all, start_discoveries, start_bootstrap, start_probe,
  run_probe,
}
use beaconprobe.Main.Crawl.{
  crawling, probing, create_host, crawl_with, run_crawl, run_mode, load_or_exit, main,
}
use beaconprobe.Main.Wires.{Leaves}
use beaconprobe.Main.Wires.Loads.{Leaves-load_or_exit, peer_set_made}

-- A part that never panics.
pub record Avoids {S A : Type 0} (m : Setup (World S) Exit A) : Type 0 where
  pub avoided : (w w' : World S) → m w ≢ exited w' Exit.panicked

pub Avoids-given :
    {S A B : Type 0} {m : Setup (World S) Exit A} {f : A → Setup (World S) Exit B} (P : A → Type 0)
    → Avoids m
    → Leaves m P
    → ((x : A) → P x → Avoids (f x))
    → Avoids (m >>= f)
unfolding ◌>>=◌
Avoids-given {S} {A} {B} {m} {f} P hm left hf = record { avoided = λ w w'. go w w' (m w) refl }
  where
    go :
        (w w' : World S) (r : Run (World S) Exit A)
        → m w ≡ r
        → (elim r as (λ _. Run (World S) Exit B) [ exited v e ↦ exited v e | running v x ↦ f x v ])
          ≢ exited w' Exit.panicked
    go w w' (exited v e) k h = hm.avoided w w' (ground (arith, k))
    go w w' (running v x) k h = (hf x (left.left w v x k)).avoided v w' h

pub Avoids-bind :
    {S A B : Type 0} {m : Setup (World S) Exit A} {f : A → Setup (World S) Exit B}
    → Avoids m
    → ((x : A) → Avoids (f x))
    → Avoids (m >>= f)
Avoids-bind hm hf = Avoids-given (λ _. Unit) hm (record { left = λ _ _ _ _. tt }) (λ x _. hf x)

pub Avoids-next :
    {S B : Type 0} {m : Setup (World S) Exit (Unit {0})} {f : Setup (World S) Exit B}
    → Avoids m
    → Avoids f
    → Avoids (m >> f)
unfolding ◌>>=◌ ◌>>◌
Avoids-next {m = m} {f = f} hm hf = record {
  avoided = (Avoids-bind {m = m} {f = λ _. f} hm (λ _. hf)).avoided;
}

pub Avoids-pure : {S A : Type 0} (x : A) → Avoids {S = S} (pure x)
unfolding pure
Avoids-pure x = record { avoided = λ w w' h. ground arith }

pub Avoids-call : {S : Type 0} (k : Call) → Avoids {S = S} (call k)
unfolding call
Avoids-call k = record { avoided = λ w w' h. ground arith }

-- Exits that are no panic.
pub Avoids-check :
    {S : Type 0} (b : Bool) (e : Exit) → e ≢ Exit.panicked → Avoids {S = S} (check b e)
unfolding check
Avoids-check true e ne = record { avoided = λ w w' h. ground arith }
Avoids-check false e ne = record { avoided = λ w w' h. ground arith }

pub Avoids-or_exit :
    {S A : Type 0} (o : Option A) (e : Exit) → e ≢ Exit.panicked → Avoids {S = S} (or_exit o e)
unfolding or_exit
Avoids-or_exit none e ne = record { avoided = λ w w' h. ground arith }
Avoids-or_exit (some x) e ne = record { avoided = λ w w' h. ground arith }

-- An answer that is there.
pub Avoids-some :
    {S A : Type 0} (o : Option A) (x : A) (e : Exit) → o ≡ some x → Avoids {S = S} (or_exit o e)
unfolding or_exit
Avoids-some none x e h = absurd (ground arith)
Avoids-some (some y) x e h = record { avoided = λ w w' h. ground arith }

pub silent :
    {S B : Type 0} (k : Call) {f : Setup (World S) Exit B} → Avoids f → Avoids (call k >> f)
silent k h = Avoids-next (Avoids-call k) h

pub checked :
    {S B : Type 0} (k : Call) (b : Bool) (e : Exit) {f : Setup (World S) Exit B}
    → e ≢ Exit.panicked
    → Avoids f
    → Avoids (call k >> (check b e >> f))
checked k b e ne h = silent k (Avoids-next (Avoids-check b e ne) h)
