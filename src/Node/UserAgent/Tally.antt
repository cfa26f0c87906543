-- ===== src/Node/UserAgent/Tally.antt =====
-- The counts and the gauge of node/useragent.go against the map of the peers.
use beaconprobe.Base.{
  ℕ, ◌+◌, String, ◌≡◌, refl, sym, ap, ◌∙◌, subst, inl, inr, Bool, true, false, Option, none, some,
  List, [], ◌∷◌, arith, ℕ_discrete, lookup, insert, delete, lookup-insert, lookup-delete, GoMap,
  Distinct, delete-Distinct, delete_absent, Option-cases, nat_key, string_key, ◌==◌, if◌then◌else◌,
}
use beaconprobe.Base.Int.{ℤ, pos, ◌+ℤ◌, ◌-ℤ◌}
use beaconprobe.Node.UserAgent.{
  normalize_user_agent, Agents, no_agents, value_at, count_down, count_up, gauge_down, uncount,
  identified, connectedness_changed, Input, done, identify, connectedness, tick, track_user_agents,
}

-- The number of peers that have the agent.
abbrev pub tally : String → GoMap String String → ℕ
tally ua [] = 0
tally ua ((p, a) ∷ m) = let rest = tally ua m in if a == ua then rest + 1 else rest

tally-delete :
    (ua id old : String) (m : GoMap String String)
    → Distinct m
    → lookup id m ≡ some old
    → tally ua m ≡ (if old == ua then tally ua (delete id m) + 1 else tally ua (delete id m))
unfolding lookup delete
tally-delete ua id old [] d h = absurd (ground arith)
tally-delete ua id old ((p, a) ∷ m) d h =
    ground (arith, tally-delete ua id old m d.1, delete_absent id m)

-- A count that stands for n peers: none when there are none.
abbrev counted : ℕ → Option ℤ
counted n = if n == 0 then none else some (pos n)

record IsTallied (s : Agents) : Type 0 where
  distinct : Distinct s.peers
  counts : (ua : String) → lookup ua s.counts ≡ counted (tally ua s.peers)
  gauge : (ua : String) → value_at ua s.gauge ≡ pos (tally ua s.peers)

lookup-count_down :
    (ua old : String) (n : ℕ) (counts : GoMap String ℤ)
    → lookup ua counts ≡ counted (if old == ua then n + 1 else n)
    → lookup ua (count_down old counts) ≡ counted n
unfolding count_down ◌-ℤ◌
lookup-count_down ua old n counts h =
    ground (
      arith,
      lookup-delete ua old counts,
      lookup-insert ua old (value_at old counts -ℤ pos 1) counts,
    )

value_at-gauge_down :
    (ua old : String) (n : ℕ) (g : GoMap String ℤ)
    → value_at ua g ≡ pos (if old == ua then n + 1 else n)
    → value_at ua (gauge_down old g) ≡ pos n
unfolding gauge_down ◌-ℤ◌
value_at-gauge_down ua old n g h = ground (arith, lookup-insert ua old (value_at old g -ℤ pos 1) g)

lookup-count_up :
    (ua new : String) (n : ℕ) (counts : GoMap String ℤ)
    → lookup ua counts ≡ counted n
    → lookup ua (count_up new counts) ≡ counted (if new == ua then n + 1 else n)
unfolding count_up ◌+ℤ◌
lookup-count_up ua new n counts h =
    ground (arith, lookup-insert ua new (value_at new counts +ℤ pos 1) counts)

value_at-count_up :
    (ua new : String) (n : ℕ) (g : GoMap String ℤ)
    → value_at ua g ≡ pos n
    → value_at ua (count_up new g) ≡ pos (if new == ua then n + 1 else n)
unfolding count_up ◌+ℤ◌
value_at-count_up ua new n g h = ground (arith, lookup-insert ua new (value_at new g +ℤ pos 1) g)

-- Without one of the peers, and its agent counted down.
removed-IsTallied :
    (s : Agents) (id old : String)
    → lookup id s.peers ≡ some old
    → IsTallied s
    → IsTallied (uncount (record s { peers = delete id s.peers }) old)
unfolding uncount
removed-IsTallied s id old h w = record {
  distinct = delete-Distinct id s.peers w.distinct;
  counts = λ ua.
      lookup-count_down ua old (tally ua (delete id s.peers)) s.counts
        (w.counts ua ∙ ap counted (tally-delete ua id old s.peers w.distinct h));
  gauge = λ ua.
      value_at-gauge_down ua old (tally ua (delete id s.peers)) s.gauge
        (w.gauge ua ∙ ap pos (tally-delete ua id old s.peers w.distinct h));
}

-- With a peer put in the place of what was removed, and its agent counted up.
put-IsTallied :
    (s t : Agents) (id ua : String)
    → t.peers ≡ delete id s.peers
    → IsTallied t
    → IsTallied (record {
      peers = insert id ua s.peers;
      counts = count_up ua t.counts;
      gauge = count_up ua t.gauge;
    })
unfolding insert
put-IsTallied s t id ua e w = record {
  distinct = (ground (arith, lookup-delete id id s.peers), subst Distinct e w.distinct);
  counts = λ a.
      subst (λ m. lookup a (count_up ua t.counts) ≡ counted (tally a ((id, ua) ∷ m))) e
        (lookup-count_up a ua (tally a t.peers) t.counts (w.counts a));
  gauge = λ a.
      subst (λ m. value_at a (count_up ua t.gauge) ≡ pos (tally a ((id, ua) ∷ m))) e
        (value_at-count_up a ua (tally a t.peers) t.gauge (w.gauge a));
}

identified-IsTallied :
    (s : Agents) (id agent_version : String)
    → IsTallied s
    → IsTallied (identified s id agent_version)
unfolding identified uncount
identified-IsTallied s id agent_version w = elim (Option-cases (lookup id s.peers)) [
  | inl new ↦
      rw (new, identified)
        (put-IsTallied s s id (normalize_user_agent agent_version)
          (sym (delete_absent id s.peers new)) w)
  | inr (old, known) ↦
      rw (known, identified)
        (put-IsTallied s (uncount (record s { peers = delete id s.peers }) old) id
          (normalize_user_agent agent_version) refl (removed-IsTallied s id old known w))
]

changed-IsTallied :
    (s : Agents) (id : String) (not_connected : Bool)
    → IsTallied s
    → IsTallied (connectedness_changed s id not_connected)
unfolding connectedness_changed
changed-IsTallied s id false w = w
changed-IsTallied s id true w = elim (Option-cases (lookup id s.peers)) [
  | inl new ↦ rw new w
  | inr (old, known) ↦ rw known (removed-IsTallied s id old known w)
]

track-IsTallied : (is : List Input) (s : Agents) → IsTallied s → IsTallied (track_user_agents is s)
unfolding track_user_agents
track-IsTallied [] s w = w
track-IsTallied (done ∷ is) s w = w
track-IsTallied (tick ∷ is) s w = track-IsTallied is s w
track-IsTallied (identify id agent_version ∷ is) s w =
    track-IsTallied is (identified s id agent_version) (identified-IsTallied s id agent_version w)
track-IsTallied (connectedness id not_connected ∷ is) s w =
    track-IsTallied is (connectedness_changed s id not_connected)
      (changed-IsTallied s id not_connected w)

no_agents-IsTallied : IsTallied no_agents
unfolding lookup ℕ_discrete
no_agents-IsTallied = record { distinct = tt; counts = λ ua. refl; gauge = λ ua. refl }

-- Whatever comes in, in whatever order: for every agent the map of the counts holds the number of
-- the tracked peers that have it, and no entry when there is none, and the gauge shows that number.
pub counts_tally :
    (is : List Input) (ua : String)
    → let s = track_user_agents is no_agents in
      (lookup ua s.counts ≡ (if tally ua s.peers == 0 then none else some (pos (tally ua s.peers))))
      × (value_at ua s.gauge ≡ pos (tally ua s.peers))
counts_tally is ua =
    let w = track-IsTallied is no_agents no_agents-IsTallied in (w.counts ua, w.gauge ua)
