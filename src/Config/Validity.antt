-- ===== src/Config/Validity.antt =====
-- The validation of config/config.go against a description of the configurations that are consistent.
use beaconprobe.Base.{
  ◌≤◌, String, ◌≡◌, refl, ◌≢◌, ◌↔◌, ◌⊎◌, false, not, ◌&&◌, none, List, [], ◌∷◌, map, arith, lookup,
  insert, lookup-insert, GoMap, nat_key, string_key, ◌==◌, if◌then◌else◌, length, All,
}
use beaconprobe.Config.{
  Config, InstanceConfig, Result, ok, ◌>>◌, reject_if, bad_mode, no_instances, check_names,
  check_crawl, check_probe_instances, not_positive, check_base_ports, check_ports, validate,
}
use beaconprobe.Config.Ports.{all_ports, AllApart, check_ports_sound, check_ports_complete}

abbrev names_of : List InstanceConfig → List String
names_of = map (λ inst. inst.name)

-- Names that are not empty and differ from each other.
abbrev pub AllNamed : List String → Type 0
AllNamed [] = Unit
AllNamed (n ∷ ns) = (n ≢ "") × All (λ m. n ≢ m) ns × AllNamed ns

abbrev IsProbe : InstanceConfig → Type 0
IsProbe inst = (inst.log_file ≢ "") × (not_positive inst.gossip_d ≡ false)

-- A consistent configuration.
pub record IsConsistent (c : Config) : Type 0 where
  pub mode : (c.mode ≡ "probe") ⊎ (c.mode ≡ "crawl")
  pub inhabited : c.instances ≢ []
  pub named : AllNamed (names_of c.instances)
  pub crawl :
      (c.mode ≢ "crawl")
      ⊎ ((length c.instances ≡ 1) × (c.crawl_file ≢ "") × (c.bootstrap_file ≡ ""))
  pub probe : (c.mode ≢ "probe") ⊎ All IsProbe c.instances
  pub based :
      (length c.instances ≤ 1)
      ⊎ ((c.base_tcp_port ≢ 0) × (c.base_quic_port ≢ 0) × (c.base_disc_v5_port ≢ 0))
  pub apart : AllApart (all_ports c)

seven_iff :
    (a b c d e f g : Result (Unit {0}))
    → ((a >> (b >> (c >> (d >> (e >> (f >> g)))))) ≡ ok tt) ↔ (
        (a ≡ ok tt)
        × (b ≡ ok tt)
        × (c ≡ ok tt)
        × (d ≡ ok tt)
        × (e ≡ ok tt)
        × (f ≡ ok tt)
        × (g ≡ ok tt))
seven_iff a b c d e f g = ground arith

mode_iff :
    (c : Config)
    → (reject_if (not (c.mode == "probe") && not (c.mode == "crawl")) (bad_mode c.mode) ≡ ok tt)
      ↔ ((c.mode ≡ "probe") ⊎ (c.mode ≡ "crawl"))
mode_iff c = ground arith

inhabited_iff :
    (insts : List InstanceConfig)
    → (reject_if (length insts == 0) no_instances ≡ ok tt) ↔ (insts ≢ [])
inhabited_iff [] = ground arith
inhabited_iff (inst ∷ insts) = ground arith

crawl_iff :
    (c : Config)
    → (check_crawl c ≡ ok tt) ↔ (
        (c.mode ≢ "crawl")
        ⊎ ((length c.instances ≡ 1) × (c.crawl_file ≢ "") × (c.bootstrap_file ≡ "")))
unfolding check_crawl
crawl_iff c = ground arith

based_iff :
    (c : Config)
    → (check_base_ports c ≡ ok tt) ↔ (
        (length c.instances ≤ 1)
        ⊎ ((c.base_tcp_port ≢ 0) × (c.base_quic_port ≢ 0) × (c.base_disc_v5_port ≢ 0)))
unfolding check_base_ports
based_iff c = ground arith

IsProbe-iff :
    (insts : List InstanceConfig) → (check_probe_instances insts ≡ ok tt) ↔ All IsProbe insts
unfolding check_probe_instances
IsProbe-iff [] = (λ h. tt, λ h. refl)
IsProbe-iff (inst ∷ insts) = ground (arith, IsProbe-iff insts)

-- Names none of which the map holds.
abbrev Unmet : GoMap String (Unit {0}) → List String → Type 0
Unmet m = All (λ n. lookup n m ≡ none)

Unmet-after :
    (m : GoMap String (Unit {0})) (n : String) (ns : List String)
    → Unmet (insert n tt m) ns ↔ (Unmet m ns × All (λ k. n ≢ k) ns)
Unmet-after m n [] = (λ h. (tt, tt), λ h. tt)
Unmet-after m n (k ∷ ns) = ground (arith, Unmet-after m n ns, lookup-insert k n tt m)

names_iff :
    (insts : List InstanceConfig) (m : GoMap String (Unit {0}))
    → (check_names insts m ≡ ok tt) ↔ (Unmet m (names_of insts) × AllNamed (names_of insts))
unfolding check_names
names_iff [] m = (λ h. (tt, tt), λ h. refl)
names_iff (inst ∷ insts) m =
    ground
      (arith, names_iff insts (insert inst.name tt m), Unmet-after m inst.name (names_of insts))

all-Unmet : (ns : List String) → Unmet [] ns
unfolding lookup
all-Unmet [] = tt
all-Unmet (n ∷ ns) = (refl, all-Unmet ns)

IsProbe-mode_iff :
    (c : Config)
    → ((if c.mode == "probe" then check_probe_instances c.instances else ok tt) ≡ ok tt)
      ↔ ((c.mode ≢ "probe") ⊎ All IsProbe c.instances)
IsProbe-mode_iff c = ground (arith, IsProbe-iff c.instances)

-- The seven checks of `validate`, one after the other.
checks_iff :
    (c : Config)
    → (validate c ≡ ok tt) ↔ (
        (reject_if (not (c.mode == "probe") && not (c.mode == "crawl")) (bad_mode c.mode) ≡ ok tt)
        × (reject_if (length c.instances == 0) no_instances ≡ ok tt)
        × (check_names c.instances [] ≡ ok tt)
        × (check_crawl c ≡ ok tt)
        × ((if c.mode == "probe" then check_probe_instances c.instances else ok tt) ≡ ok tt)
        × (check_base_ports c ≡ ok tt)
        × (check_ports c ≡ ok tt))
unfolding validate
checks_iff c = seven_iff _ _ _ _ _ _ _

-- `Validate` accepts exactly the consistent configurations: it passes every one of them, and none
-- that it passes is inconsistent.
pub validate-IsConsistent : (c : Config) → (validate c ≡ ok tt) ↔ IsConsistent c
validate-IsConsistent c = (accepts, passes)
  where
    accepts : validate c ≡ ok tt → IsConsistent c
    accepts h =
        let (m, i, n, k, p, b, a) = (checks_iff c).0 h in
        record {
          mode = (mode_iff c).0 m;
          inhabited = (inhabited_iff c.instances).0 i;
          named = ((names_iff c.instances []).0 n).1;
          crawl = (crawl_iff c).0 k;
          probe = (IsProbe-mode_iff c).0 p;
          based = (based_iff c).0 b;
          apart = check_ports_sound c a;
        }

    passes : IsConsistent c → validate c ≡ ok tt
    passes w = (checks_iff c).1 (
      (mode_iff c).1 w.mode,
      (inhabited_iff c.instances).1 w.inhabited,
      (names_iff c.instances []).1 (all-Unmet (names_of c.instances), w.named),
      (crawl_iff c).1 w.crawl,
      (IsProbe-mode_iff c).1 w.probe,
      (based_iff c).1 w.based,
      check_ports_complete c w.apart,
    )
