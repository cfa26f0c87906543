-- ===== src/Main/Binds/Modes.antt =====
-- `main` of main.go binds no port twice, in either mode.
use beaconprobe.Base.{
  none, ℕ, ◌+◌, ◌≤◌, String, ◌≡◌, refl, ◌≢◌, Bool, true, false, not, Option, List, [], ◌∷◌, ◌++◌,
  map, arith, nat_key, string_key, ◌==◌, if◌then◌else◌, get_elem?,
}
use beaconprobe.Config.{
  Result, ok, err, InstanceConfig, Config, tcp_port, quic_port, disc_v5_port, load,
}
use beaconprobe.Config.Ports.{instance_ports, all_ports}
use beaconprobe.Config.Validity.{IsConsistent}
use beaconprobe.Node.PeerSet.{new_shared_peer_set}
use beaconprobe.Node.Host.{Disk, Codec, listen_addrs}
use beaconprobe.Base.Setup.{Run, exited, running, Setup, pure, ◌>>=◌}
use beaconprobe.Main.Probe.{Answers, Call, Exit, World, run_probe}
use beaconprobe.Main.Crawl.{
  crawling, probing, create_host, crawl_config, crawl_with, run_crawl, run_mode, load_or_exit, main,
}
use beaconprobe.Main.Wires.{Leaves}
use beaconprobe.Main.Wires.Loads.{Leaves-load_or_exit}
use beaconprobe.Main.Binds.{
  occurrences-append, port_of, occurrences, times_bound, calls_of, Binds, Binds-bind, Binds-next,
  Binds-weaken, Binds-pure, Binds-call, Binds-check, Binds-or_exit, quiet,
}
use beaconprobe.Main.Binds.Once.{Binds-open_key, Binds-run_probe, apart_once}

module _ {S K : Type 0} (disk : Disk S) (codec : Codec K) (join : String → String → String)
    (a : Answers K) (p : ℕ) where
  Binds-create_host :
      (c : Config) (inst : InstanceConfig)
      → Binds p
          (create_host disk codec join a c inst)
          (occurrences p (tcp_port c 0 ∷ quic_port c 0 ∷ []))
  unfolding create_host listen_addrs
  Binds-create_host c inst =
      Binds-weaken
        (Binds-bind (Binds-open_key disk codec join a c p 0 _) λ k.
          Binds-next
            (Binds-call (
              Call.new_host inst.name (listen_addrs (tcp_port c 0) (quic_port c 0) inst.quic_only)))
            (Binds-or_exit (a.new_host 0 k none) _))
        (listens inst.quic_only)
    where
      listens :
          (q : Bool)
          → 0 + (occurrences p (map port_of (listen_addrs (tcp_port c 0) (quic_port c 0) q)) + 0)
            ≤ occurrences p (tcp_port c 0 ∷ quic_port c 0 ∷ [])
      listens true = omega arith
      listens false = omega arith

  abbrev crawl_ports : Config → List ℕ
  crawl_ports c = tcp_port c 0 ∷ quic_port c 0 ∷ disc_v5_port c 0 ∷ c.disc_v4_port ∷ []

  Binds-crawl_with :
      (c : Config) (inst : InstanceConfig)
      → Binds p (crawl_with disk codec join a c inst) (occurrences p (crawl_ports c))
  unfolding crawl_with crawl_config
  Binds-crawl_with c inst =
      Binds-weaken
        (Binds-bind (Binds-create_host c inst) λ h. quiet (Call.track_user_agents _) refl (
          quiet (Call.register_handlers _) refl (
            quiet (Call.send_status_on_connect _) refl (
              Binds-bind (Binds-or_exit (new_shared_peer_set (inst.name ∷ [])) _) λ s.
                quiet (Call.run_peer_manager _) refl (
                  quiet (Call.report_connectivity _) refl (
                    Binds-next
                      (Binds-call
                        (Call.start_discovery inst.name (crawl_config disk codec join a c inst)))
                      (Binds-next (Binds-check (a.start_discovery 0) _) (Binds-pure _))))))))
        (omega arith)

  first_ports :
      (c : Config) (insts : List InstanceConfig)
      → insts ≢ []
      → occurrences p (crawl_ports c)
        ≤ occurrences p (instance_ports c 0 insts ++ c.disc_v4_port ∷ [])
  first_ports c [] ne = absurd (ne refl)
  first_ports c (inst ∷ insts) ne =
      omega (arith, occurrences-append p (instance_ports c 1 insts) (c.disc_v4_port ∷ []))

  Binds-run_mode :
      (c : Config)
      → c.instances ≢ []
      → p ≢ 0
      → Binds p (run_mode disk codec join a c) (occurrences p (all_ports c))
  unfolding run_mode run_crawl
  Binds-run_mode c inhabited ne = go (c.mode == "crawl")
    where
      go :
          (b : Bool)
          → Binds p
              (if b
                then (run_crawl disk codec join a c >>= λ r. pure (crawling r))
                else (run_probe disk codec join a c >>= λ r. pure (probing r)))
              (occurrences p (all_ports c))
      go true =
          Binds-weaken
            (Binds-bind
              (Binds-bind (Binds-or_exit (get_elem? c.instances 0) _)
                λ inst. Binds-crawl_with c inst)
              λ r. Binds-pure _)
            (omega (arith, first_ports c c.instances inhabited))
      go false =
          Binds-weaken (Binds-bind (Binds-run_probe disk codec join a c p ne) λ r. Binds-pure _)
            (omega arith)

  -- A part whose bound depends on what the part before it leaves.
  Binds-given :
      {A B : Type 0} {k n : ℕ} {m : Setup (World S) Exit A} {f : A → Setup (World S) Exit B}
      (P : A → Type 0)
      → Leaves m P
      → Binds p m k
      → ((x : A) → P x → Binds p (f x) n)
      → Binds p (m >>= f) (k + n)
  unfolding ◌>>=◌
  Binds-given {A} {B} {k} {n} {m} {f} P left hm hf = record {
    bound = λ w. go w (m w) (λ w' x e. left.left w w' x e) (hm.bound w);
  }
    where
      go :
          (w : World S) (r : Run (World S) Exit A)
          → ((w' : World S) (x : A) → r ≡ running w' x → P x)
          → times_bound p (calls_of r) ≤ times_bound p w.calls + k
          → times_bound p (
              calls_of (elim r as (λ _. Run (World S) Exit B) [
                | exited w' e ↦ exited w' e
                | running w' x ↦ f x w'
              ]))
            ≤ times_bound p w.calls + (k + n)
      go w (exited w' e) given b = omega arith
      go w (running w' x) given b = omega (arith, (hf x (given w' x refl)).bound w')

  Binds-load_or_exit : (r : Result Config) → Binds p (load_or_exit disk codec join a r) 0
  unfolding load_or_exit
  Binds-load_or_exit (err e) = record { bound = λ w. omega arith }
  Binds-load_or_exit (ok c) = record { bound = λ w. omega arith }

  Binds-main :
      {Bytes : Type 0} (path : String) (text : Option Bytes)
      (unmarshal : Bytes → Config → Option Config) (is_level : String → Bool)
      (addr_port : String → ℕ)
      → p ≢ 0
      → ((c : Config) → load text unmarshal ≡ ok c → addr_port c.metrics_addr ≢ p)
      → Binds p (main disk codec join a path text unmarshal is_level addr_port) 1
  unfolding main
  Binds-main path text unmarshal is_level addr_port ne apart =
      Binds-weaken
        (Binds-next (Binds-check (not (path == "")) _) (
          Binds-given (λ c. IsConsistent c × (load text unmarshal ≡ ok c))
            (Leaves-load_or_exit disk codec join a text unmarshal) (Binds-load_or_exit _)
            λ c (known, read).
              Binds-weaken {n = 1}
                (Binds-next (Binds-check (is_level c.log_level) _) (
                  Binds-next
                    (Binds-call (Call.serve_metrics c.metrics_addr (addr_port c.metrics_addr)))
                    (Binds-run_mode c known.inhabited ne)))
                (ground (arith, apart c read, apart_once p (all_ports c) ne known.apart))))
        (omega arith)

-- The program binds each port but the one of its metrics address, which `Validate` does not look at,
-- once at most, in either mode, whatever the configuration file holds, whatever the libraries answer,
-- and wherever the run ends: the TCP and QUIC ports of the hosts, the discovery ports of the instances,
-- and the discv4 port of the first; 0 lets the system choose.
pub main_binds_once :
    {S K Bytes : Type 0} (disk : Disk S) (codec : Codec K) (join : String → String → String)
    (a : Answers K) (path : String) (text : Option Bytes)
    (unmarshal : Bytes → Config → Option Config) (is_level : String → Bool) (addr_port : String → ℕ)
    (files : S) (p : ℕ)
    → p ≢ 0
    → ((c : Config) → load text unmarshal ≡ ok c → addr_port c.metrics_addr ≢ p)
    → times_bound p (
        calls_of (
          main disk codec join a path text unmarshal is_level addr_port
            (record { files = files; calls = [] })))
      ≤ 1
main_binds_once disk codec join a path text unmarshal is_level addr_port files p ne apart =
    (Binds-main disk codec join a p path text unmarshal is_level addr_port ne apart).bound
      (record { files = files; calls = [] })
