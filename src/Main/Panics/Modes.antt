-- ===== src/Main/Panics/Modes.antt =====
-- `main` of main.go runs into no panic of its own, in either mode.
use beaconprobe.Base.{
  none, ℕ, suc, ◌+◌, ◌<◌, String, ◌≡◌, refl, ap, ◌∙◌, ◌≢◌, Bool, true, false, ◌&&◌, Option, some,
  List, [], ◌∷◌, map, arith, nat_key, string_key, ◌==◌, if◌then◌else◌, length, get_elem?,
}
use beaconprobe.Config.{Result, ok, err, InstanceConfig, Config, load, key_file_total}
use beaconprobe.Config.Validity.{IsConsistent}
use beaconprobe.Node.PeerSet.{new_shared_peer_set}
use beaconprobe.Node.Host.{Disk, Codec}
use beaconprobe.Base.Setup.{exited, pure, ◌>>=◌, ◌>>◌, check}
use beaconprobe.Main.Probe.{
  Answers, DiscoveryConfig, Call, Exit, World, Hosts, Services, call, open_key, load_key, load_keys,
  create_hosts, set_up_blocks, set_up, set_up_all, start_discoveries, start_bootstrap, start_probe,
  run_probe,
}
use beaconprobe.Main.Crawl.{
  crawling, probing, create_host, crawl_with, run_crawl, run_mode, load_or_exit, main,
}
use beaconprobe.Main.Wires.{Leaves, Leaves-bind, Leaves-pure}
use beaconprobe.Main.Wires.Loads.{Leaves-load_or_exit, peer_set_made}
use beaconprobe.Main.Panics.{
  Avoids, Avoids-given, Avoids-bind, Avoids-next, Avoids-pure, Avoids-call, Avoids-check,
  Avoids-or_exit, Avoids-some, silent, checked,
}

module _ {S K : Type 0} (disk : Disk S) (codec : Codec K) (join : String → String → String)
    (a : Answers K) (c : Config) where
  Avoids-open_key :
      (i : ℕ) (e : Exit)
      → e ≢ Exit.panicked
      → i < length c.instances
      → Avoids (open_key disk codec join a c i e)
  unfolding open_key
  Avoids-open_key i e ne lt =
      let (file, found) = key_file_total join c i lt in
      record { avoided = λ w w' h. ground (arith, found) }

  Avoids-load_keys :
      (i : ℕ) (insts : List InstanceConfig)
      → i + length insts ≡ length c.instances
      → Avoids (load_keys disk codec join a c i insts)
  unfolding load_keys load_key
  Avoids-load_keys i [] h = Avoids-pure []
  Avoids-load_keys i (inst ∷ insts) h =
      Avoids-bind
        (Avoids-bind (Avoids-open_key i _ (λ e. ground arith) (omega arith))
          λ k. Avoids-bind (Avoids-or_exit (a.peer_id k) _ (λ e. ground arith)) λ id. Avoids-pure _)
        λ k. Avoids-bind (Avoids-load_keys (suc i) insts (omega arith)) λ ks. Avoids-pure _

  load_keys-length :
      (i : ℕ) (insts : List InstanceConfig)
      → Leaves (load_keys disk codec join a c i insts) (λ ks. length ks ≡ length insts)
  unfolding load_keys
  load_keys-length i [] = Leaves-pure [] refl
  load_keys-length i (inst ∷ insts) =
      Leaves-bind (λ _. Unit) (record { left = λ _ _ _ _. tt })
        λ k _.
          Leaves-bind _ (load_keys-length (suc i) insts) λ ks r. Leaves-pure (k ∷ ks) (ap suc r)

  length-keys : (ks : List (K × String)) → length (map (λ k. k.0) ks) ≡ length ks
  length-keys [] = refl
  length-keys (k ∷ ks) = ap suc (length-keys ks)

  Avoids-create_hosts :
      (ids : List String) (i : ℕ) (insts : List InstanceConfig) (ks : List K) (hs : Hosts)
      → length ks ≡ length insts
      → Avoids (create_hosts disk codec join a c ids i insts ks hs)
  unfolding create_hosts
  Avoids-create_hosts ids i [] ks hs len = Avoids-pure hs
  Avoids-create_hosts ids i (inst ∷ insts) [] hs len = absurd (omega arith)
  Avoids-create_hosts ids i (inst ∷ insts) (k ∷ ks) hs len = silent _ (
      Avoids-bind (Avoids-or_exit (a.new_host i k _) _ (λ e. ground arith))
        λ h. Avoids-create_hosts ids (suc i) insts ks _ (omega arith))

  Avoids-set_up_blocks :
      (i : ℕ) (inst : InstanceConfig) → Avoids (set_up_blocks disk codec join a c i inst)
  unfolding set_up_blocks
  Avoids-set_up_blocks i inst = go (i == 0 && c.listen_blocks)
    where
      go :
          (b : Bool)
          → Avoids {S = S} (
              if b
              then (do
                call (Call.subscribe_blocks inst.name)
                check (a.subscribe_blocks i) (Exit.blocks_failed inst.name)
                call (Call.listen_for_blocks inst.name))
              else pure tt)
      go true = checked _ _ _ (λ e. ground arith) (Avoids-call _)
      go false = Avoids-pure tt

  Avoids-set_up_all :
      (i : ℕ) (insts : List InstanceConfig) (sv : Services)
      → Avoids (set_up_all disk codec join a c i insts sv)
  unfolding set_up_all set_up
  Avoids-set_up_all i [] sv = Avoids-pure sv
  Avoids-set_up_all i (inst ∷ insts) sv =
      Avoids-next
        (silent _ (
          silent _ (
            silent _ (
              silent _ (
                silent _ (
                  silent _ (
                    checked _ _ _ (λ e. ground arith)
                      (checked _ _ _ (λ e. ground arith)
                        (checked _ _ _ (λ e. ground arith)
                          (Avoids-next (Avoids-set_up_blocks i inst) (Avoids-call _)))))))))))
        (Avoids-set_up_all (suc i) insts _)

  Avoids-start_discoveries :
      (i : ℕ) (insts : List InstanceConfig) (ds : List DiscoveryConfig)
      → Avoids (start_discoveries disk codec join a c i insts ds)
  unfolding start_discoveries
  Avoids-start_discoveries i [] ds = Avoids-pure ds
  Avoids-start_discoveries i (inst ∷ insts) ds =
      checked _ _ _ (λ e. ground arith) (Avoids-start_discoveries (suc i) insts _)

  Avoids-start_bootstrap : Avoids (start_bootstrap disk codec join a c)
  unfolding start_bootstrap
  Avoids-start_bootstrap = go (c.bootstrap_file == "")
    where
      go :
          (b : Bool)
          → Avoids {S = S}
              (if b then pure tt else call (Call.route_bootstrap_peers c.bootstrap_file))
      go true = Avoids-pure tt
      go false = Avoids-call _

  Avoids-run_probe : c.instances ≢ [] → Avoids (run_probe disk codec join a c)
  unfolding run_probe start_probe
  Avoids-run_probe inhabited =
      let (s, made) = peer_set_made c.instances inhabited in
      Avoids-given (λ ks. length ks ≡ length c.instances)
        (Avoids-load_keys 0 c.instances (omega arith)) (load_keys-length 0 c.instances)
        λ ks len. Avoids-bind (Avoids-some _ s _ made) λ s.
          Avoids-bind
            (Avoids-create_hosts (map (λ k. k.1) ks) 0 c.instances _ _ (length-keys ks ∙ len))
            λ hs. Avoids-bind (Avoids-set_up_all 0 c.instances _) λ sv.
              Avoids-bind (Avoids-start_discoveries 0 c.instances [])
                λ ds. Avoids-next Avoids-start_bootstrap (Avoids-pure _)

  Avoids-crawl_with :
      (inst : InstanceConfig) → c.instances ≢ [] → Avoids (crawl_with disk codec join a c inst)
  unfolding crawl_with create_host new_shared_peer_set
  Avoids-crawl_with inst inhabited =
      Avoids-bind
        (Avoids-bind
          (Avoids-open_key 0 _ (λ e. ground arith) (inhabited_length c.instances inhabited))
          λ k. silent _ (Avoids-or_exit (a.new_host 0 k none) _ (λ e. ground arith)))
        λ h. silent _ (
          silent _ (
            silent _ (
              Avoids-bind (Avoids-some (new_shared_peer_set (inst.name ∷ [])) _ _ refl)
                λ s. silent _ (silent _ (checked _ _ _ (λ e. ground arith) (Avoids-pure _))))))
    where
      inhabited_length : (insts : List InstanceConfig) → insts ≢ [] → 0 < length insts
      inhabited_length [] ne = absurd (ne refl)
      inhabited_length (inst ∷ insts) ne = omega arith

  Avoids-run_crawl : c.instances ≢ [] → Avoids (run_crawl disk codec join a c)
  unfolding run_crawl
  Avoids-run_crawl inhabited =
      let (inst, e) = first c.instances inhabited in
      Avoids-bind (Avoids-some (get_elem? c.instances 0) inst _ e)
        λ inst. Avoids-crawl_with inst inhabited
    where
      first :
          (insts : List InstanceConfig)
          → insts ≢ []
          → (inst : InstanceConfig) × (get_elem? insts 0 ≡ some inst)
      first [] ne = absurd (ne refl)
      first (inst ∷ insts) ne = (inst, refl)

  Avoids-run_mode : c.instances ≢ [] → Avoids (run_mode disk codec join a c)
  unfolding run_mode
  Avoids-run_mode inhabited = go (c.mode == "crawl")
    where
      go :
          (b : Bool)
          → Avoids (
              if b
              then (run_crawl disk codec join a c >>= λ r. pure (crawling r))
              else (run_probe disk codec join a c >>= λ r. pure (probing r)))
      go true = Avoids-bind (Avoids-run_crawl inhabited) λ r. Avoids-pure _
      go false = Avoids-bind (Avoids-run_probe inhabited) λ r. Avoids-pure _

Avoids-load_or_exit :
    {S K : Type 0} (disk : Disk S) (codec : Codec K) (join : String → String → String)
    (a : Answers K) (r : Result Config)
    → Avoids (load_or_exit disk codec join a r)
unfolding load_or_exit
Avoids-load_or_exit disk codec join a (err e) = record { avoided = λ w w' h. ground arith }
Avoids-load_or_exit disk codec join a (ok c) = record { avoided = λ w w' h. ground arith }

Avoids-main :
    {S K Bytes : Type 0} (disk : Disk S) (codec : Codec K) (join : String → String → String)
    (a : Answers K) (path : String) (text : Option Bytes)
    (unmarshal : Bytes → Config → Option Config) (is_level : String → Bool) (addr_port : String → ℕ)
    → Avoids (main disk codec join a path text unmarshal is_level addr_port)
unfolding main
Avoids-main disk codec join a path text unmarshal is_level addr_port =
    Avoids-next (Avoids-check _ _ (λ e. ground arith)) (
      Avoids-given (λ c. IsConsistent c × (load text unmarshal ≡ ok c))
        (Avoids-load_or_exit disk codec join a _)
        (Leaves-load_or_exit disk codec join a text unmarshal)
        λ c known.
          Avoids-next (Avoids-check _ _ (λ e. ground arith))
            (silent _ (Avoids-run_mode disk codec join a c known.0.inhabited)))

-- Up to the wait for a signal `main` runs into no panic, whatever the configuration file holds and
-- whatever the libraries answer: no instance is looked up that is not there, and no peer set is made
-- without instances.
pub main_no_panic :
    {S K Bytes : Type 0} (disk : Disk S) (codec : Codec K) (join : String → String → String)
    (a : Answers K) (path : String) (text : Option Bytes)
    (unmarshal : Bytes → Config → Option Config) (is_level : String → Bool) (addr_port : String → ℕ)
    (w w' : World S)
    → main disk codec join a path text unmarshal is_level addr_port w ≢ exited w' Exit.panicked
main_no_panic disk codec join a path text unmarshal is_level addr_port =
    (Avoids-main disk codec join a path text unmarshal is_level addr_port).avoided
