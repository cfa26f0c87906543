-- ===== src/Discovery/Start.antt =====
-- `StartDiscovery` of discovery/discovery.go: what it puts into the local node record, where it
-- listens, and which loops it starts. What the libraries answer is a record.
mod Given
pub mod Loops
pub mod Tests
mod Works
use beaconprobe.Base.{
  ℕ, zero, suc, ◌+◌, ◌-◌, ◌*◌, ◌/◌, ◌%◌, ◌^◌, ◌≤◌, ◌<◌, min, max, String, ◌≡◌, refl, sym, ap, ◌∙◌,
  subst, ◌≢◌, ◌↔◌, ◌⊎◌, inl, inr, ite, if_pos, if_neg, Bool, true, false, not, ◌&&◌, ◌||◌, Option,
  none, some, List, [], ◌∷◌, ◌++◌, map, arith, dec_lt, dec_le, ℕ_discrete, String_discrete, lookup,
  insert, delete, lookup-insert, lookup-delete, GoMap, Distinct, delete-Distinct, insert-Distinct,
  delete_absent, length-delete, Bool-cases, Option-cases, Key, nat_key, string_key, ◌==◌, ltb, leb,
  if◌then◌else◌, ltb→lt, lt→ltb, leb→le, le→leb, tests, ==_sound, ==_refl, ==_ne, length, get_elem?,
  take, set, select, any, All, Has, here, there, length-append, length-take, length-select-le,
  get_elem?_total, All_Has, All-map, All-append, get_or, length-set, get_or-set_self, get_or-set_ne,
}
use beaconprobe.Base.Setup.{Setup, running, pure, ◌>>=◌, ◌>>◌, or_exit, check}

-- The fields of `Config` that it reads, but the private key and those that it hands on to the loop.
pub record Settings : Type 0 where
  pub disc_port : ℕ
  pub disc_v4_port : ℕ
  pub fork_digest : List ℕ
  pub attnets_bytes : List ℕ
  pub active_crawl : Bool
  pub crawl_file : String

-- go-ethereum's node database, parser and listeners, the sockets, prysm's `MarshalSSZ` of a fork ID
-- by its digest, version and epoch, prysm's configuration, and the crawl file.
pub record Libraries (N : Type 0) : Type 0 where
  pub open_db : Bool
  pub far_future_epoch : ℕ
  pub marshal_ssz : List ℕ → List ℕ → ℕ → Option (List ℕ)
  pub att_subnet_key : String
  pub bootstrap_nodes : List String
  pub parse : String → Option N
  pub listen_udp : ℕ → Bool
  pub listen_v5 : List N → Bool
  pub listen_v4 : List N → Bool
  pub open_file : String → Bool

pub data Version : Type 0 where
  v4 v5 : Version

-- The calls that leave a trace, in order.
pub data Call (N : Type 0) : Type 0 where
  set_entry : String → List ℕ → Call N
  udp : ℕ → Call N
  listen : Version → List N → Call N
  notify : Call N
  discover : Version → Call N

pub data Error : Type 0 where
  no_db no_fork_id no_udp no_v5 no_crawl_file no_udp_v4 no_v4 : Error

module _ {N : Type 0} (libs : Libraries N) (s : Settings) where
  -- The bootnodes whose address can be parsed.
  unfoldable pub boot_nodes : List String → List N
  boot_nodes [] = []
  boot_nodes (addr ∷ addrs) = elim (libs.parse addr) [
    | none ↦ boot_nodes addrs
    | some node ↦ node ∷ boot_nodes addrs
  ]

  unfoldable pub say : Call N → Setup (List (Call N)) Error (Unit {0})
  say k w = running (w ++ k ∷ []) tt

  -- The crawl file, with the notifee that writes to it.
  unfoldable pub open_crawl : Setup (List (Call N)) Error (Unit {0})
  open_crawl =
      if s.crawl_file == ""
      then pure tt
      else (do check (libs.open_file s.crawl_file) no_crawl_file; say notify)

  unfoldable pub scan_v4 : List N → Setup (List (Call N)) Error (Unit {0})
  scan_v4 nodes = if s.disc_v4_port == 0 then pure tt else (do
    check (libs.listen_udp s.disc_v4_port) no_udp_v4
    say (udp s.disc_v4_port)
    check (libs.listen_v4 nodes) no_v4
    say (listen v4 nodes)
    say (discover v4))

  unfoldable pub crawl : List N → Setup (List (Call N)) Error (Unit {0})
  crawl nodes = do open_crawl; say (discover v5); scan_v4 nodes

  unfoldable pub start_discovery : Setup (List (Call N)) Error (Unit {0})
  start_discovery = do
    check libs.open_db no_db
    bytes ← or_exit (libs.marshal_ssz s.fork_digest s.fork_digest libs.far_future_epoch) no_fork_id
    say (set_entry "eth2" bytes)
    say (set_entry libs.att_subnet_key s.attnets_bytes)
    check (libs.listen_udp s.disc_port) no_udp
    say (udp s.disc_port)
    check (libs.listen_v5 (boot_nodes libs.bootstrap_nodes)) no_v5
    say (listen v5 (boot_nodes libs.bootstrap_nodes))
    if s.active_crawl then crawl (boot_nodes libs.bootstrap_nodes) else pure tt
