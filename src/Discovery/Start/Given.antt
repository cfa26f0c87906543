-- ===== src/Discovery/Start/Given.antt =====
-- Which answers `StartDiscovery` of discovery/discovery.go needs, and which calls it then makes.
use beaconprobe.Base.{
  ℕ, ◌≡◌, sym, ap, ◌≢◌, ◌↔◌, true, false, Option, none, some, List, [], ◌∷◌, ◌++◌, arith, nat_key,
  string_key, ◌==◌, if◌then◌else◌,
}
use beaconprobe.Base.Setup.{running, pure, ◌>>◌, check}
use beaconprobe.Discovery.Start.{
  Settings, Libraries, v4, v5, Call, set_entry, udp, listen, notify, discover, Error, boot_nodes,
  say, open_crawl, scan_v4, crawl, start_discovery,
}
use beaconprobe.Discovery.Start.Works.{
  Works, Works-next, Works-check, Works-say, Works-cast, allowed, Works-unless, Works-if,
  Works-some,
}

module _ {N : Type 0} (libs : Libraries N) (s : Settings) where
  -- The calls for the crawl file, those for discv4, and those of the crawl.
  unfoldable pub notices : List (Call N)
  notices = if s.crawl_file == "" then [] else notify ∷ []

  unfoldable pub v4_calls : List N → List (Call N)
  v4_calls nodes =
      if s.disc_v4_port == 0 then [] else udp s.disc_v4_port ∷ listen v4 nodes ∷ discover v4 ∷ []

  unfoldable pub crawl_calls : List N → List (Call N)
  unfolding notices v4_calls
  crawl_calls nodes = notices ++ discover v5 ∷ v4_calls nodes

  FileGiven : Type 0
  FileGiven = (s.crawl_file == "") ≡ false → (libs.open_file s.crawl_file ≡ true) × Unit {0}

  V4Given : List N → Type 0
  V4Given nodes =
      (s.disc_v4_port == 0) ≡ false
      → (libs.listen_udp s.disc_v4_port ≡ true)
        × (Unit {0} × ((libs.listen_v4 nodes ≡ true) × (Unit {0} × Unit {0})))

  Works-crawl :
      (nodes : List N)
      → Works (crawl libs s nodes) (FileGiven × (Unit {0} × V4Given nodes)) (crawl_calls nodes)
  unfolding crawl open_crawl scan_v4 notices v4_calls crawl_calls FileGiven V4Given
  Works-crawl nodes =
      Works-next
        (Works-unless (s.crawl_file == "")
          (Works-next (Works-check (libs.open_file s.crawl_file) _) (Works-say libs s notify)))
        (Works-next (Works-say libs s (discover v5)) (
          Works-unless (s.disc_v4_port == 0) (
            allowed libs s (libs.listen_udp s.disc_v4_port) _ (udp s.disc_v4_port) (
              allowed libs s (libs.listen_v4 nodes) _ (listen v4 nodes)
                (Works-say libs s (discover v4))))))

  abbrev nodes : List N
  nodes = boot_nodes libs s libs.bootstrap_nodes

  Works-listen :
      Works
        (check (libs.listen_udp s.disc_port) Error.no_udp
          >> (say libs s (udp s.disc_port)
              >> (check (libs.listen_v5 nodes) Error.no_v5
                  >> (say libs s (listen v5 nodes)
                      >> (if s.active_crawl then crawl libs s nodes else pure tt)))))
        ((libs.listen_udp s.disc_port ≡ true)
          × (Unit {0}
              × ((libs.listen_v5 nodes ≡ true)
                  × (Unit {0} × (s.active_crawl ≡ true → FileGiven × (Unit {0} × V4Given nodes))))))
        (udp s.disc_port ∷ listen v5 nodes ∷ (if s.active_crawl then crawl_calls nodes else []))
  Works-listen = allowed libs s (libs.listen_udp s.disc_port) _ (udp s.disc_port) (
      allowed libs s (libs.listen_v5 nodes) _ (listen v5 nodes)
        (Works-if s.active_crawl (Works-crawl nodes)))

  -- What stands under the key `eth2`.
  fork_entry : Option (List ℕ) → List ℕ
  fork_entry none = []
  fork_entry (some bytes) = bytes

  -- The calls of a start that succeeds.
  unfoldable pub all_calls : List (Call N)
  unfolding fork_entry
  all_calls =
      set_entry "eth2"
        (fork_entry (libs.marshal_ssz s.fork_digest s.fork_digest libs.far_future_epoch))
      ∷ set_entry libs.att_subnet_key s.attnets_bytes
      ∷ udp s.disc_port
      ∷ listen v5 nodes
      ∷ (if s.active_crawl then crawl_calls nodes else [])

  Given : Type 0
  Given =
      (libs.open_db ≡ true)
      × (((bytes : List ℕ) × (libs.marshal_ssz s.fork_digest s.fork_digest libs.far_future_epoch
              ≡ some bytes))
          × (Unit {0}
              × (Unit {0}
                  × ((libs.listen_udp s.disc_port ≡ true)
                      × (Unit {0}
                          × ((libs.listen_v5 nodes ≡ true)
                              × (Unit {0}
                                  × (s.active_crawl ≡ true
                                      → FileGiven × (Unit {0} × V4Given nodes)))))))))

  Works-start_discovery : Works (start_discovery libs s) Given all_calls
  unfolding start_discovery all_calls Given fork_entry
  Works-start_discovery = Works-next (Works-check libs.open_db _) (
      Works-some (libs.marshal_ssz s.fork_digest s.fork_digest libs.far_future_epoch) _ λ bytes e.
        Works-cast
          (Works-next (Works-say libs s (set_entry "eth2" bytes)) (
            Works-next (Works-say libs s (set_entry libs.att_subnet_key s.attnets_bytes))
              Works-listen))
          (ap
            (λ o.
              set_entry "eth2" (fork_entry o)
              ∷ set_entry libs.att_subnet_key s.attnets_bytes
              ∷ udp s.disc_port
              ∷ listen v5 nodes
              ∷ (if s.active_crawl then crawl_calls nodes else []))
            (sym e)))

  -- The answers that the settings ask for are all given.
  record IsGiven : Type 0 where
    db : libs.open_db ≡ true
    fork_id : List ℕ
    marshalled : libs.marshal_ssz s.fork_digest s.fork_digest libs.far_future_epoch ≡ some fork_id
    socket : libs.listen_udp s.disc_port ≡ true
    v5_given : libs.listen_v5 nodes ≡ true
    file : s.active_crawl ≡ true → s.crawl_file ≢ "" → libs.open_file s.crawl_file ≡ true
    v4_socket : s.active_crawl ≡ true → s.disc_v4_port ≢ 0 → libs.listen_udp s.disc_v4_port ≡ true
    v4_given : s.active_crawl ≡ true → s.disc_v4_port ≢ 0 → libs.listen_v4 nodes ≡ true

  given_iff : Given ↔ IsGiven
  unfolding Given FileGiven V4Given
  given_iff = (
    λ g. record {
      db = g.0;
      fork_id = g.1.0.0;
      marshalled = g.1.0.1;
      socket = g.1.1.1.1.0;
      v5_given = g.1.1.1.1.1.1.0;
      file = λ active named. ((g.1.1.1.1.1.1.1.1 active).0 (ground arith)).0;
      v4_socket = λ active used. ((g.1.1.1.1.1.1.1.1 active).1.1 (ground arith)).0;
      v4_given = λ active used. ((g.1.1.1.1.1.1.1.1 active).1.1 (ground arith)).1.1.0;
    },
    λ h. (
      h.db,
      (
        (h.fork_id, h.marshalled),
        (
          tt,
          (
            tt,
            (
              h.socket,
              (
                tt,
                (
                  h.v5_given,
                  (
                    tt,
                    λ active. (
                      λ named. (h.file active (ground arith), tt),
                      (
                        tt,
                        λ used. (
                          h.v4_socket active (ground arith),
                          (tt, (h.v4_given active (ground arith), (tt, tt))),
                        ),
                      ),
                    ),
                  ),
                ),
              ),
            ),
          ),
        ),
      ),
    ),
  )

-- `StartDiscovery` succeeds exactly if the answers that its settings ask for are given: the database,
-- the fork ID, the discv5 socket and listener, and for the active crawler the crawl file, if there is
-- one, and the discv4 socket and listener, if there is a port; what an idle instance would need for a
-- crawl it never asks for.
start_discovery_starts :
    {N : Type 0} (libs : Libraries N) (s : Settings)
    → ((w : List (Call N)) × (start_discovery libs s [] ≡ running w tt)) ↔ IsGiven libs s
start_discovery_starts libs s =
    let works = Works-start_discovery libs s in
    (
      λ (w, h). (given_iff libs s).0 (works.needs [] w h),
      λ g. (all_calls libs s, works.does ((given_iff libs s).1 g) []),
    )

-- A start that succeeds from no calls makes these calls.
pub start_discovery-calls :
    {N : Type 0} (libs : Libraries N) (s : Settings) (w : List (Call N))
    → start_discovery libs s [] ≡ running w tt
    → all_calls libs s ≡ w
start_discovery-calls libs s w h =
    let works = Works-start_discovery libs s in
    ground (arith, works.does (works.needs [] w h) [], h)
