-- ===== src/Config.antt =====
-- config/config.go: the configuration, its defaults and its validation. Reading the file and yaml.v3
-- are parameters of `load`. A Go `uint` is a uint64 and wraps, and so does the product of two `int`.
pub mod Ports
pub mod Validity
pub mod Loading
pub mod Tests
use beaconprobe.Base.{
  ℕ, zero, suc, ◌+◌, ◌-◌, ◌*◌, ◌/◌, ◌%◌, ◌^◌, ◌≤◌, ◌<◌, min, max, String, ◌≡◌, refl, sym, ap, ◌∙◌,
  subst, ◌≢◌, ◌↔◌, ◌⊎◌, inl, inr, ite, if_pos, if_neg, Bool, true, false, not, ◌&&◌, ◌||◌, Option,
  none, some, List, [], ◌∷◌, ◌++◌, map, arith, dec_lt, dec_le, ℕ_discrete, String_discrete, lookup,
  insert, delete, lookup-insert, lookup-delete, GoMap, Distinct, delete-Distinct, insert-Distinct,
  delete_absent, length-delete, Bool-cases, Option-cases, Key, nat_key, string_key, ◌==◌, ltb, leb,
  if◌then◌else◌, ltb→lt, lt→ltb, leb→le, le→leb, tests, ==_sound, ==_refl, ==_ne, length, get_elem?,
  take, set, select, any, All, Has, here, there, length-append, length-take, length-select-le,
  get_elem?_total, All_Has,
}
use Prim.Native.String
use beaconprobe.Base.Int.{ℤ, pos, negsuc, wrap_int}
use beaconprobe.Node.PeerSet.{u64_mod}

pub record InstanceConfig : Type 0 where
  pub name : String
  pub gossip_d : ℤ
  pub log_file : String
  pub gossip_sub_log_file : String
  pub disable_ihave : Bool
  pub max_peers : ℤ
  pub quic_only : Bool

pub record Config : Type 0 where
  pub mode : String
  pub crawl_file : String
  pub key_dir : String
  pub metrics_addr : String
  pub base_tcp_port : ℕ
  pub base_quic_port : ℕ
  pub base_disc_v5_port : ℕ
  pub disc_v4_port : ℕ
  pub subnets : List ℕ
  pub listen_blocks : Bool
  pub bootstrap_file : String
  pub log_level : String
  pub instances : List InstanceConfig

pub data Error : Type 0 where
  read_config parse_config no_instances missing_name : Error
  crawl_file_required crawl_with_bootstrap zero_base_port : Error
  bad_mode duplicate_name log_file_required bad_gossip_d : String → Error
  crawl_instance_count : ℕ → Error
  port_collision : ℕ → String → String → Error

pub data Result {ℓ} (A : Type ℓ) : Type ℓ where
  err : Error → Result A
  ok : A → Result A

-- Go's `if err != nil { return err }`, without a value and with one.
infixl 5 ◌>>◌
abbrev pub ◌>>◌ {ℓ} : {A : Type ℓ} → Result (Unit {0}) → Result A → Result A
err e >> rest = err e
ok done >> rest = rest

abbrev pub reject_if : Bool → Error → Result (Unit {0})
reject_if true e = err e
reject_if false e = ok tt

infixl 5 ◌>>=◌
abbrev pub ◌>>=◌ {κ ℓ} : {A : Type κ} {B : Type ℓ} → Result A → (A → Result B) → Result B
err e >>= rest = err e
ok value >>= rest = rest value

-- The ports of instance i.
pub tcp_port : Config → ℕ → ℕ
tcp_port c i = (c.base_tcp_port + 2 * i) % u64_mod

unfoldable pub quic_port : Config → ℕ → ℕ
quic_port c i = (c.base_quic_port + 2 * i) % u64_mod

unfoldable pub disc_v5_port : Config → ℕ → ℕ
disc_v5_port c i = (c.base_disc_v5_port + i) % u64_mod

-- The loop over the names; the map holds those that it has met.
pub check_names : List InstanceConfig → GoMap String (Unit {0}) → Result (Unit {0})
check_names [] names = ok tt
check_names (inst ∷ insts) names =
    let rest = check_names insts (insert inst.name tt names) in
    if inst.name == ""
    then err missing_name
    else elim (lookup inst.name names) [ some _ ↦ err (duplicate_name inst.name) | none ↦ rest ]

pub check_crawl : Config → Result (Unit {0})
check_crawl c =
    if c.mode == "crawl"
    then (do
      reject_if (not (length c.instances == 1)) (crawl_instance_count (length c.instances))
      reject_if (c.crawl_file == "") crawl_file_required
      reject_if (not (c.bootstrap_file == "")) crawl_with_bootstrap)
    else ok tt

-- `GossipD <= 0`.
abbrev pub not_positive : ℤ → Bool
not_positive (pos zero) = true
not_positive (pos (suc n)) = false
not_positive (negsuc n) = true

pub check_probe_instances : List InstanceConfig → Result (Unit {0})
check_probe_instances [] = ok tt
check_probe_instances (inst ∷ insts) = do
  reject_if (inst.log_file == "") (log_file_required inst.name)
  reject_if (not_positive inst.gossip_d) (bad_gossip_d inst.name)
  check_probe_instances insts

pub check_base_ports : Config → Result (Unit {0})
check_base_ports c =
    reject_if
      (ltb 1 (length c.instances)
        && (c.base_tcp_port == 0 || (c.base_quic_port == 0 || c.base_disc_v5_port == 0)))
      zero_base_port

pub add_port : ℕ → String → GoMap ℕ String → Result (GoMap ℕ String)
add_port port desc ports = if port == 0 then ok ports else elim (lookup port ports) [
  | some existing ↦ err (port_collision port existing desc)
  | none ↦ ok (insert port desc ports)
]

-- The loop over the instances, the next of which is instance i.
pub add_instance_ports : Config → ℕ → List InstanceConfig → GoMap ℕ String → Result (GoMap ℕ String)
unfolding add_port
add_instance_ports c i [] ports = ok ports
add_instance_ports c i (inst ∷ insts) ports = do
  with_tcp ← add_port (tcp_port c i) (String.◌++◌ inst.name "/tcp") ports
  with_quic ← add_port (quic_port c i) (String.◌++◌ inst.name "/quic") with_tcp
  with_disc ← add_port (disc_v5_port c i) (String.◌++◌ inst.name "/discv5") with_quic
  add_instance_ports c (suc i) insts with_disc

pub check_ports : Config → Result (Unit {0})
check_ports c = do
  ports ← add_instance_ports c 0 c.instances []
  all ← add_port c.disc_v4_port "discv4" ports
  ok tt

pub validate : Config → Result (Unit {0})
validate c = do
  reject_if (not (c.mode == "probe") && not (c.mode == "crawl")) (bad_mode c.mode)
  reject_if (length c.instances == 0) no_instances
  check_names c.instances []
  check_crawl c
  if c.mode == "probe" then check_probe_instances c.instances else ok tt
  check_base_ports c
  check_ports c

-- `filepath.Join` is the parameter `join`; `none` is the panic of an index out of range.
unfoldable pub key_file : (String → String → String) → Config → ℕ → Option String
key_file join c i = elim (get_elem? c.instances i) [
  | none ↦ none
  | some inst ↦ some (join c.key_dir (String.◌++◌ inst.name ".key"))
]

pub key_file_total :
    (join : String → String → String) (c : Config) (i : ℕ)
    → i < length c.instances
    → (file : String) × (key_file join c i ≡ some file)
unfolding key_file
key_file_total join c i h =
    let (inst, e) = get_elem?_total c.instances i h in
    (join c.key_dir (String.◌++◌ inst.name ".key"), rw (e, key_file) refl)

-- What `load` gives the YAML decoder to fill in.
abbrev pub defaults : Config
defaults = record {
  mode = "probe";
  crawl_file = "";
  key_dir = "";
  metrics_addr = ":9090";
  base_tcp_port = 0;
  base_quic_port = 0;
  base_disc_v5_port = 0;
  disc_v4_port = 0;
  subnets = [];
  listen_blocks = false;
  bootstrap_file = "";
  log_level = "info";
  instances = [];
}

-- A cap of 0 becomes ten times a positive mesh degree, wrapped to an int64.
pub with_max_peers : InstanceConfig → InstanceConfig
with_max_peers inst = record inst { max_peers = cap inst.max_peers inst.gossip_d }
  where
    cap : ℤ → ℤ → ℤ
    cap (pos zero) (pos (suc d)) = wrap_int (pos (10 * suc d))
    cap m d = m

-- The content of the file, `none` if it cannot be read, and the decoder, which writes into a
-- configuration.
pub load : {Bytes : Type 0} → Option Bytes → (Bytes → Config → Option Config) → Result Config
unfolding with_max_peers validate
load none unmarshal = err read_config
load (some text) unmarshal = elim (unmarshal text defaults) [
  | none ↦ err parse_config
  | some c ↦
      let filled = record c { instances = map with_max_peers c.instances } in
      validate filled >> ok filled
]
