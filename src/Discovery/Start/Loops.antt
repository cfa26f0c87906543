-- ===== src/Discovery/Start/Loops.antt =====
-- Which loops and sockets `StartDiscovery` of discovery/discovery.go leaves behind.
use beaconprobe.Base.{
  ℕ, ◌≡◌, subst, ◌≢◌, not, ◌&&◌, List, [], ◌∷◌, arith, nat_key, string_key, ◌==◌, if◌then◌else◌,
}
use beaconprobe.Base.Setup.{running}
use beaconprobe.Discovery.Start.{
  Settings, Libraries, Version, v4, v5, Call, set_entry, udp, listen, notify, discover,
  start_discovery,
}
use beaconprobe.Discovery.Start.Given.{
  all_calls, crawl_calls, notices, v4_calls, start_discovery-calls,
}

-- The loops that a list of calls starts, and the sockets that it opens.
abbrev loops : {N : Type 0} → List (Call N) → List Version
loops [] = []
loops (discover v ∷ ks) = v ∷ loops ks
loops (set_entry k b ∷ ks) = loops ks
loops (udp p ∷ ks) = loops ks
loops (listen v ns ∷ ks) = loops ks
loops (notify ∷ ks) = loops ks

abbrev sockets : {N : Type 0} → List (Call N) → List ℕ
sockets [] = []
sockets (udp p ∷ ks) = p ∷ sockets ks
sockets (discover v ∷ ks) = sockets ks
sockets (set_entry k b ∷ ks) = sockets ks
sockets (listen v ns ∷ ks) = sockets ks
sockets (notify ∷ ks) = sockets ks

-- No loop starts before the notifee of the crawl file is there.
abbrev NoticedFirst : {N : Type 0} → List (Call N) → Type 0
NoticedFirst [] = Unit
NoticedFirst (notify ∷ ks) = Unit
NoticedFirst (discover v ∷ ks) = ⊥
NoticedFirst (set_entry k b ∷ ks) = NoticedFirst ks
NoticedFirst (udp p ∷ ks) = NoticedFirst ks
NoticedFirst (listen v ns ∷ ks) = NoticedFirst ks

-- What an idle instance and an active one leave behind.
pub record Leaves {N : Type 0} (s : Settings) (w : List (Call N)) : Type 0 where
  pub loops_of :
      loops w
      ≡ (if s.active_crawl then (if s.disc_v4_port == 0 then v5 ∷ [] else v5 ∷ v4 ∷ []) else [])
  pub sockets_of :
      sockets w
      ≡ s.disc_port
        ∷ (if s.active_crawl && not (s.disc_v4_port == 0) then s.disc_v4_port ∷ [] else [])
  pub noticed : s.crawl_file ≢ "" → NoticedFirst w

all_calls-Leaves : {N : Type 0} (libs : Libraries N) (s : Settings) → Leaves s (all_calls libs s)
unfolding all_calls crawl_calls notices v4_calls
all_calls-Leaves libs s = record {
  loops_of = ground arith;
  sockets_of = ground arith;
  noticed = λ ne. ground arith;
}

-- After a successful `StartDiscovery` an idle instance has one socket and no loop of its own; the
-- active one crawls over discv5, and over discv4 with a second socket exactly if its port is not 0;
-- and with a crawl file no loop starts before the notifee that writes to the file is registered.
pub start_discovery-Leaves :
    {N : Type 0} (libs : Libraries N) (s : Settings) (w : List (Call N))
    → start_discovery libs s [] ≡ running w tt
    → Leaves s w
start_discovery-Leaves libs s w h =
    subst (Leaves s) (start_discovery-calls libs s w h) (all_calls-Leaves libs s)
