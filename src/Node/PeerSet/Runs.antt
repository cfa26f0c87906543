-- ===== src/Node/PeerSet/Runs.antt =====
-- Histories of a shared peer set: the calls that the instances' goroutines make, in the order in
-- which they take the mutex.
use beaconprobe.Base.{
  ◌+◌, ◌%◌, ◌<◌, String, ◌≡◌, refl, inl, inr, sym, ◌∙◌, ◌⊎◌, ◌≢◌, List, [], ◌∷◌, Option, none, some,
  arith, lookup, insert, lookup-insert, string_key, ◌==◌, Option-cases, insert-Distinct,
}
use beaconprobe.Node.PeerSet.{
  SharedPeerSet, IsValid, assign_or_get, claim, assign_or_get_fresh, assign_or_get_known, u64_mod,
}

pub data Call : Type 0 where
  assigns : String → Call
  claims : String → String → Call

abbrev subject : Call → String
subject (assigns id) = id
subject (claims id inst) = id

pub step : SharedPeerSet → Call → Option SharedPeerSet
step s (assigns id) = elim (assign_or_get s id) [ none ↦ none | some (s', _) ↦ some s' ]
step s (claims id inst) = let (s', _, _) = claim s id inst in some s'

pub run : List Call → SharedPeerSet → Option SharedPeerSet
run [] s = some s
run (c ∷ cs) s = elim (step s c) [ none ↦ none | some s' ↦ run cs s' ]

-- What a call may do to a set: leave the assignments alone, or give the call's own peer, so far
-- unassigned, an owner.
pub data Writes (id : String) (s s' : SharedPeerSet) : Type 0 where
  keeps : s' ≡ s → Writes id s s'
  gives :
      (o : String)
      → lookup id s.assignments ≡ none
      → s'.assignments ≡ insert id o s.assignments
      → s'.instances ≡ s.instances
      → s'.next_idx < u64_mod
      → Writes id s s'

pub claim-Writes :
    (s : SharedPeerSet) (id inst : String) → IsValid s → Writes id s (claim s id inst).0
unfolding claim
claim-Writes s id inst v = elim (Option-cases (lookup id s.assignments)) [
  | inl e ↦ rw (e, claim) (gives inst e refl refl v.in_range)
  | inr (o, e) ↦ rw (e, claim) (keeps refl)
]

-- Every call succeeds on a valid set, and writes at most once.
pub step-Writes :
    (s : SharedPeerSet) (c : Call)
    → IsValid s
    → (s' : SharedPeerSet) × (step s c ≡ some s') × Writes (subject c) s s'
unfolding step
step-Writes s (claims id inst) v = ((claim s id inst).0, refl, claim-Writes s id inst v)
step-Writes s (assigns id) v = elim (Option-cases (lookup id s.assignments)) [
  | inl e ↦
      let (o, _, done) = assign_or_get_fresh s id v e in
      (
        record s { assignments = insert id o s.assignments; next_idx = (s.next_idx + 1) % u64_mod },
        rw (done, step),
        gives o e refl refl (omega arith),
      )
  | inr (o, e) ↦ (s, rw (assign_or_get_known s id o e, step), keeps refl)
]

pub Writes-IsValid : {id : String} {s s' : SharedPeerSet} → Writes id s s' → IsValid s → IsValid s'
Writes-IsValid {s} {s'} (keeps e) v = rw e v
Writes-IsValid {id} {s} {s'} (gives o e a i n) v = record {
  inhabited = rw i v.inhabited;
  in_range = n;
  distinct = rw a (insert-Distinct id o s.assignments v.distinct);
}

pub Writes-lookup :
    {id : String} {s s' : SharedPeerSet} (p o : String)
    → Writes id s s'
    → lookup p s.assignments ≡ some o
    → lookup p s'.assignments ≡ some o
Writes-lookup p o (keeps e) h = rw e h
Writes-lookup {id} {s} {s'} p o (gives q e a _ _) h =
    rw a (ground (arith, lookup-insert p id q s.assignments))

run_keeps_all :
    (cs : List Call) (s : SharedPeerSet)
    → IsValid s
    → (s' : SharedPeerSet) × (run cs s ≡ some s')
      × IsValid s'
      × ((p o : String) → lookup p s.assignments ≡ some o → lookup p s'.assignments ≡ some o)
unfolding run
run_keeps_all [] s v = (s, refl, v, λ p o h. h)
run_keeps_all (c ∷ cs) s v =
    let (t, stepped, w) = step-Writes s c v in
    let (s', ran, valid, kept) = run_keeps_all cs t (Writes-IsValid w v) in
    (s', rw (stepped, run) ran, valid, λ p o h. kept p o (Writes-lookup p o w h))

pub claim_owner :
    (s : SharedPeerSet) (id inst : String)
    → lookup id (claim s id inst).0.assignments ≡ some (claim s id inst).1
unfolding claim
claim_owner s id inst = elim (Option-cases (lookup id s.assignments)) [
  | inl e ↦ rw (e, claim) (ground (arith, lookup-insert id id inst s.assignments))
  | inr (o, e) ↦ rw (e, claim) e
]

-- No history of calls panics on a valid set, such as a new one, the set stays valid, and each peer has
-- at the end the owner that it has at the start, unless it has none then.
pub run_keeps_owners :
    (cs : List Call) (s : SharedPeerSet) (p : String)
    → IsValid s
    → (s' : SharedPeerSet) × (run cs s ≡ some s')
      × IsValid s'
      × ((lookup p s.assignments ≡ none) ⊎ (lookup p s'.assignments ≡ lookup p s.assignments))
run_keeps_owners cs s p v =
    let (s', ran, valid, kept) = run_keeps_all cs s v in
    (
      s',
      ran,
      valid,
      elim (Option-cases (lookup p s.assignments)) [
        | inl e ↦ inl e
        | inr (o, e) ↦ inr (kept p o e ∙ sym e)
      ],
    )

-- `Claim` answers with the owner that the set then holds, says that the caller has the peer exactly
-- if that owner is the caller, and leaves every other peer as it was.
claim_agrees :
    (s : SharedPeerSet) (id inst q : String)
    → q ≢ id
    → (lookup id (claim s id inst).0.assignments ≡ some (claim s id inst).1)
      × ((claim s id inst).2 ≡ ((claim s id inst).1 == inst))
      × (lookup q (claim s id inst).0.assignments ≡ lookup q s.assignments)
unfolding claim
claim_agrees s id inst q ne = elim (Option-cases (lookup id s.assignments)) [
  | inl e ↦
      rw (e, claim)
        (
          ground (arith, lookup-insert id id inst s.assignments),
          ground arith,
          ground (arith, lookup-insert q id inst s.assignments),
        )
  | inr (o, e) ↦ rw (e, claim) (e, refl, refl)
]

-- `AssignOrGet` on a valid set never panics: it answers with the owner that the set then has, the
-- set stays valid, and no owner that there was is changed.
pub assign_or_get_total :
    (s : SharedPeerSet) (id : String)
    → IsValid s
    → (s' : SharedPeerSet) × (o : String) × (assign_or_get s id ≡ some (s', o))
      × IsValid s'
      × (lookup id s'.assignments ≡ some o)
      × ((p q : String) → lookup p s.assignments ≡ some q → lookup p s'.assignments ≡ some q)
assign_or_get_total s id v = elim (Option-cases (lookup id s.assignments)) [
  | inl e ↦
      let (o, _, done) = assign_or_get_fresh s id v e in
      let s' : SharedPeerSet = record {
        assignments = insert id o s.assignments;
        instances = s.instances;
        next_idx = (s.next_idx + 1) % u64_mod;
      } in
      let w : Writes id s s' = gives o e refl refl (omega arith) in
      (
        s',
        o,
        done,
        Writes-IsValid w v,
        ground (arith, lookup-insert id id o s.assignments),
        λ p q h. Writes-lookup p q w h,
      )
  | inr (o, e) ↦ (s, o, assign_or_get_known s id o e, v, e, λ p q h. h)
]
