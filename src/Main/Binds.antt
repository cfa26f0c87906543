-- ===== src/Main/Binds.antt =====
-- The ports that the calls of main.go bind: how often a part of the set-up binds a port.
pub mod Once
pub mod Modes
use beaconprobe.Base.{
  ℕ, zero, suc, ◌+◌, ◌-◌, ◌*◌, ◌/◌, ◌%◌, ◌^◌, ◌≤◌, ◌<◌, min, max, String, ◌≡◌, refl, sym, ap, ◌∙◌,
  subst, ◌≢◌, ◌↔◌, ◌⊎◌, inl, inr, ite, if_pos, if_neg, Bool, true, false, not, ◌&&◌, ◌||◌, Option,
  none, some, List, [], ◌∷◌, ◌++◌, map, arith, dec_lt, dec_le, ℕ_discrete, String_discrete, lookup,
  insert, delete, lookup-insert, lookup-delete, GoMap, Distinct, delete-Distinct, insert-Distinct,
  delete_absent, length-delete, Bool-cases, Option-cases, Key, nat_key, string_key, ◌==◌, ltb, leb,
  if◌then◌else◌, ltb→lt, lt→ltb, leb→le, le→leb, tests, ==_sound, ==_refl, ==_ne, length, get_elem?,
  take, set, select, any, All, Has, here, there, length-append, length-take, length-select-le,
  get_elem?_total, All_Has, All-map, All-append, get_or, length-set, get_or-set_self, get_or-set_ne,
}
use beaconprobe.Config.{InstanceConfig, Config, tcp_port, quic_port, disc_v5_port}
use beaconprobe.Config.Ports.{instance_ports, all_ports, Apart, AllApart}
use beaconprobe.Config.Validity.{IsConsistent}
use beaconprobe.Node.PeerSet.{new_shared_peer_set}
use beaconprobe.Node.Host.{Disk, Codec, Listen, tcp, quic, listen_addrs}
use beaconprobe.Base.Setup.{Run, exited, running, Setup, pure, ◌>>=◌, ◌>>◌, or_exit, check}
use beaconprobe.Main.Probe.{
  Answers, DiscoveryConfig, Call, Exit, World, Hosts, Services, Probe, call, load_key, load_keys,
  create_hosts, set_up_blocks, set_up, set_up_all, discovery_config, names_of, start_discoveries,
  start_bootstrap, run_probe,
}

abbrev pub port_of : Listen → ℕ
port_of (tcp p) = p
port_of (quic p) = p

-- The ports that a call binds; 0 lets the system choose one.
abbrev pub ports_of : Call → List ℕ
ports_of (Call.new_host name ls) = map port_of ls
ports_of (Call.start_discovery name d) = d.disc_port ∷ d.disc_v4_port ∷ []
ports_of (Call.serve_metrics addr p) = p ∷ []
ports_of _ = []

abbrev pub occurrences : ℕ → List ℕ → ℕ
occurrences p [] = 0
occurrences p (q ∷ qs) = (if q == p then 1 else 0) + occurrences p qs

pub occurrences-append :
    (p : ℕ) (qs rs : List ℕ) → occurrences p (qs ++ rs) ≡ occurrences p qs + occurrences p rs
occurrences-append p [] rs = omega arith
occurrences-append p (q ∷ qs) rs = omega (arith, occurrences-append p qs rs)

-- How often the calls bind a port.
abbrev pub times_bound : ℕ → List Call → ℕ
times_bound p [] = 0
times_bound p (k ∷ ks) = occurrences p (ports_of k) + times_bound p ks

-- The calls of a run, whether it has exited or not.
abbrev pub calls_of : {S A : Type 0} → Run (World S) Exit A → List Call
calls_of (exited w e) = w.calls
calls_of (running w a) = w.calls

times_bound-append :
    (p : ℕ) (ks ls : List Call) → times_bound p (ks ++ ls) ≡ times_bound p ks + times_bound p ls
times_bound-append p [] ls = omega arith
times_bound-append p (k ∷ ks) ls = omega (arith, times_bound-append p ks ls)

-- A part of the set-up that binds the port n times at most.
pub record Binds {S A : Type 0} (p : ℕ) (m : Setup (World S) Exit A) (n : ℕ) : Type 0 where
  pub bound : (w : World S) → times_bound p (calls_of (m w)) ≤ times_bound p w.calls + n

pub Binds-bind :
    {S A B : Type 0} {p k n : ℕ} {m : Setup (World S) Exit A} {f : A → Setup (World S) Exit B}
    → Binds p m k
    → ((a : A) → Binds p (f a) n)
    → Binds p (m >>= f) (k + n)
unfolding ◌>>=◌
Binds-bind {S} {A} {B} {p} {k} {n} {m} {f} hm hf = record { bound = λ w. go w (m w) (hm.bound w) }
  where
    go :
        (w : World S) (r : Run (World S) Exit A)
        → times_bound p (calls_of r) ≤ times_bound p w.calls + k
        → times_bound p (
            calls_of (elim r as (λ _. Run (World S) Exit B) [
              | exited w' e ↦ exited w' e
              | running w' a ↦ f a w'
            ]))
          ≤ times_bound p w.calls + (k + n)
    go w (exited w' e) b = omega arith
    go w (running w' a) b = omega (arith, (hf a).bound w')

pub Binds-next :
    {S B : Type 0} {p k n : ℕ} {m : Setup (World S) Exit (Unit {0})} {f : Setup (World S) Exit B}
    → Binds p m k
    → Binds p f n
    → Binds p (m >> f) (k + n)
unfolding ◌>>◌ ◌>>=◌
Binds-next {S} {B} {p} {k} {n} {m} {f} hm hf = record {
  bound = (Binds-bind {p = p} {m = m} {f = λ _. f} hm (λ _. hf)).bound;
}

pub Binds-weaken :
    {S A : Type 0} {p k n : ℕ} {m : Setup (World S) Exit A} → Binds p m k → k ≤ n → Binds p m n
Binds-weaken h le = record { bound = λ w. omega (arith, h.bound w) }

pub Binds-pure : {S A : Type 0} {p : ℕ} (a : A) → Binds {S = S} p (pure a) 0
unfolding pure
Binds-pure a = record { bound = λ w. omega arith }

pub Binds-call :
    {S : Type 0} {p : ℕ} (k : Call) → Binds {S = S} p (call k) (occurrences p (ports_of k))
unfolding call
Binds-call {S} {p} k = record { bound = λ w. omega (arith, times_bound-append p w.calls (k ∷ [])) }

pub Binds-check : {S : Type 0} {p : ℕ} (b : Bool) (e : Exit) → Binds {S = S} p (check b e) 0
unfolding check
Binds-check true e = record { bound = λ w. omega arith }
Binds-check false e = record { bound = λ w. omega arith }

pub Binds-or_exit :
    {S A : Type 0} {p : ℕ} (o : Option A) (e : Exit) → Binds {S = S} p (or_exit o e) 0
unfolding or_exit
Binds-or_exit none e = record { bound = λ w. omega arith }
Binds-or_exit (some a) e = record { bound = λ w. omega arith }

-- A call that binds nothing, and one followed by a check.
pub quiet :
    {S B : Type 0} {p n : ℕ} {f : Setup (World S) Exit B} (k : Call)
    → ports_of k ≡ []
    → Binds p f n
    → Binds p (call k >> f) n
quiet {p = p} k e h =
    Binds-weaken (Binds-next (Binds-call k) h) (omega (arith, ap (occurrences p) e))

pub checked :
    {S B : Type 0} {p n : ℕ} {f : Setup (World S) Exit B} (b : Bool) (x : Exit) (k : Call)
    → ports_of k ≡ []
    → Binds p f n
    → Binds p (call k >> (check b x >> f)) n
checked b x k e h = quiet k e (Binds-weaken (Binds-next (Binds-check b x) h) (omega arith))
