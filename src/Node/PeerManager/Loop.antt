-- ===== src/Node/PeerManager/Loop.antt =====
-- The loop `Run` of node/peermanager.go with the goroutines that it starts, as interleaved steps.
-- The state holds what bounds the dials: the loop's place, the tokens in the channel `sem`, the
-- counter `inFlight`, the goroutines that dial, and how many have given back their token and not yet
-- lowered the counter. What `GetPeers`, the host and the clock answer is left to the step.
use beaconprobe.Base.{
  ℕ, zero, suc, ◌+◌, ◌-◌, ◌≤◌, ◌<◌, String, ◌≡◌, refl, ap, ◌≢◌, inl, inr, Bool, true, false, Option,
  none, some, List, [], ◌∷◌, ◌++◌, arith, Bool-cases, nat_key, string_key, length, length-append,
}
use beaconprobe.Base.Int.{ℤ, pos, negsuc}
use beaconprobe.Node.PeerManager.{too_many_in_flight, max_concurrent_dials}

-- The statement of the loop that comes next; a list is what is left of the batch.
pub data Place : Type 0 where
  top pulling resting stopped : Place
  next_of : List String → Place
  acquiring acquired launching : String → List String → Place

pub record RunState : Type 0 where
  pub place : Place
  pub sem : ℕ
  pub in_flight : ℕ
  pub dialling : List String
  pub leaving : ℕ

abbrev start : RunState
start = record { place = top; sem = 0; in_flight = 0; dialling = []; leaving = 0 }

-- `peers` is the number of the host's peers at the check.
pub data Step (cap : ℤ) (s : RunState) : RunState → Type 0 where
  busy :
      (peers : ℕ)
      → s.place ≡ top
      → too_many_in_flight cap peers s.in_flight ≡ true
      → Step cap s (record s { place = resting })
  free :
      (peers : ℕ)
      → s.place ≡ top
      → too_many_in_flight cap peers s.in_flight ≡ false
      → Step cap s (record s { place = pulling })
  pull_nothing : s.place ≡ pulling → Step cap s (record s { place = resting })
  pull :
      (id : String) (ids : List String)
      → s.place ≡ pulling
      → Step cap s (record s { place = next_of (id ∷ ids) })
  wake : s.place ≡ resting → Step cap s (record s { place = top })
  rest_cancelled : s.place ≡ resting → Step cap s (record s { place = stopped })
  batch_done : s.place ≡ next_of [] → Step cap s (record s { place = top })
  batch_break :
      (peers : ℕ) (id : String) (ids : List String)
      → s.place ≡ next_of (id ∷ ids)
      → too_many_in_flight cap peers s.in_flight ≡ true
      → Step cap s (record s { place = top })
  batch_next :
      (peers : ℕ) (id : String) (ids : List String)
      → s.place ≡ next_of (id ∷ ids)
      → too_many_in_flight cap peers s.in_flight ≡ false
      → Step cap s (record s { place = acquiring id ids })
  acquire :
      (id : String) (ids : List String)
      → s.place ≡ acquiring id ids
      → s.sem < max_concurrent_dials
      → Step cap s (record s { place = acquired id ids; sem = s.sem + 1 })
  acquire_cancelled :
      (id : String) (ids : List String)
      → s.place ≡ acquiring id ids
      → Step cap s (record s { place = stopped })
  count :
      (id : String) (ids : List String)
      → s.place ≡ acquired id ids
      → Step cap s (record s { place = launching id ids; in_flight = s.in_flight + 1 })
  launch :
      (id : String) (ids : List String)
      → s.place ≡ launching id ids
      → Step cap s (record s { place = next_of ids; dialling = id ∷ s.dialling })
  release :
      (before after : List String) (id : String)
      → s.dialling ≡ before ++ id ∷ after
      → Step cap s
          (record s { sem = s.sem - 1; dialling = before ++ after; leaving = s.leaving + 1 })
  lower :
      (n : ℕ)
      → s.leaving ≡ suc n
      → Step cap s (record s { in_flight = s.in_flight - 1; leaving = n })

pub data Reach (cap : ℤ) : RunState → Type 0 where
  begin : Reach cap start
  then_step : {s t : RunState} → Reach cap s → Step cap s t → Reach cap t

-- A token, and a count, that the loop itself holds for the goroutine that it is about to start.
abbrev token_held : Place → ℕ
token_held (acquired id ids) = 1
token_held (launching id ids) = 1
token_held _ = 0

abbrev count_held : Place → ℕ
count_held (launching id ids) = 1
count_held _ = 0

-- Past the check of the cap and before the count.
abbrev is_cleared : Place → Bool
is_cleared (acquiring id ids) = true
is_cleared (acquired id ids) = true
is_cleared _ = false

-- The most goroutines that the cap lets run: none counted for a cap of 0, which is no cap.
abbrev pub room_for : ℤ → Option ℕ
room_for (pos zero) = none
room_for (pos (suc m)) = some (suc m + 20)
room_for (negsuc n) = some (19 - n)

abbrev pub Fits : Option ℕ → ℕ → Type 0
Fits none n = Unit
Fits (some r) n = n ≤ r

pub record IsBounded (room : Option ℕ) (s : RunState) : Type 0 where
  pub tokens : s.sem ≡ length s.dialling + token_held s.place
  pub counted : s.in_flight ≡ length s.dialling + s.leaving + count_held s.place
  pub few_tokens : s.sem ≤ max_concurrent_dials
  pub few_counted : Fits room s.in_flight
  pub cleared : is_cleared s.place ≡ true → Fits room (s.in_flight + 1)

check_passed :
    (cap : ℤ) (peers n : ℕ) → too_many_in_flight cap peers n ≡ false → Fits (room_for cap) (n + 1)
unfolding too_many_in_flight
check_passed (pos zero) peers n e = tt
check_passed (pos (suc m)) peers n e = ground arith
check_passed (negsuc k) peers n e = ground arith

Fits-fewer : (room : Option ℕ) (m n : ℕ) → m ≤ n → Fits room n → Fits room m
Fits-fewer none m n h f = tt
Fits-fewer (some r) m n h f = omega arith

start-IsBounded : (room : Option ℕ) → IsBounded room start
start-IsBounded none = ground arith
start-IsBounded (some r) = ground arith

Step-IsBounded :
    (cap : ℤ) (room : Option ℕ) {s t : RunState}
    → room ≡ room_for cap
    → Step cap s t
    → IsBounded room s
    → IsBounded room t
Step-IsBounded cap room r (busy peers p e) b = ground arith
Step-IsBounded cap room r (free peers p e) b = ground arith
Step-IsBounded cap room r (pull_nothing p) b = ground arith
Step-IsBounded cap room r (pull id ids p) b = ground arith
Step-IsBounded cap room r (wake p) b = ground arith
Step-IsBounded cap room r (rest_cancelled p) b = ground arith
Step-IsBounded cap room r (batch_done p) b = ground arith
Step-IsBounded cap room r (batch_break peers id ids p e) b = ground arith
Step-IsBounded cap room {s} r (batch_next peers id ids p e) b =
    let passed : Fits room (s.in_flight + 1) = rw r (check_passed cap peers s.in_flight e) in
    ground arith
Step-IsBounded cap room r (acquire id ids p e) b = ground arith
Step-IsBounded cap room r (acquire_cancelled id ids p) b = ground arith
Step-IsBounded cap room r (count id ids p) b = ground arith
Step-IsBounded cap room r (launch id ids p) b = ground arith
Step-IsBounded cap room {s} r (release before after id e) b = ground (
  arith,
  length-append before (id ∷ after),
  length-append before after,
  ap (λ (l : List String). length l) e,
)
Step-IsBounded cap room {s} r (lower n e) b =
    let fewer : Fits room (s.in_flight - 1) =
      Fits-fewer room (s.in_flight - 1) s.in_flight (omega arith) b.few_counted in
    let later : Fits room (s.in_flight + 1) → Fits room (s.in_flight - 1 + 1) =
      Fits-fewer room (s.in_flight - 1 + 1) (s.in_flight + 1) (omega arith) in
    ground arith

pub Reach-IsBounded : (cap : ℤ) {s : RunState} → Reach cap s → IsBounded (room_for cap) s
Reach-IsBounded cap begin = start-IsBounded (room_for cap)
Reach-IsBounded cap (then_step r st) =
    Step-IsBounded cap (room_for cap) refl st (Reach-IsBounded cap r)

-- However the loop and its goroutines interleave, under every cap, at most 500 goroutines dial at a
-- time, and the goroutines that `inFlight` counts fit in the room that the cap and its margin leave.
pub dials_bounded :
    (cap : ℤ) (s : RunState)
    → Reach cap s
    → (length s.dialling ≤ max_concurrent_dials)
      × Fits (room_for cap) (length s.dialling + s.leaving)
dials_bounded cap s r =
    let b = Reach-IsBounded cap r in
    (
      omega arith,
      Fits-fewer (room_for cap) (length s.dialling + s.leaving) s.in_flight (omega arith)
          b.few_counted,
    )

-- A step after which the loop still runs: no step by which the cancelled context ends it.
abbrev pub GoesOn : ℤ → RunState → Type 0
GoesOn cap s = (t : RunState) × Step cap s t × (t.place ≢ stopped)

-- A loop that waits for a token takes one, or some goroutine gives one back.
waiting_GoesOn :
    (cap : ℤ) (s : RunState) (id : String) (ids ds : List String)
    → s.place ≡ acquiring id ids
    → s.dialling ≡ ds
    → s.sem ≡ length ds
    → GoesOn cap s
waiting_GoesOn cap s id ids [] p e n =
    (record s { place = acquired id ids; sem = s.sem + 1 }, acquire id ids p (omega arith), λ h. cc)
waiting_GoesOn cap s id ids (d ∷ ds) p e n = (
  record s { sem = s.sem - 1; dialling = ds; leaving = s.leaving + 1 },
  release [] ds d e,
  λ h. cc (p, h),
)

place_GoesOn :
    (cap : ℤ) (s : RunState) (p : Place)
    → s.place ≡ p
    → p ≢ stopped
    → IsBounded (room_for cap) s
    → GoesOn cap s
place_GoesOn cap s top e ne b = elim (Bool-cases (too_many_in_flight cap 0 s.in_flight)) [
  | inl full ↦ (record s { place = resting }, busy 0 e full, λ h. cc)
  | inr room ↦ (record s { place = pulling }, free 0 e room, λ h. cc)
]
place_GoesOn cap s pulling e ne b = (record s { place = resting }, pull_nothing e, λ h. cc)
place_GoesOn cap s resting e ne b = (record s { place = top }, wake e, λ h. cc)
place_GoesOn cap s stopped e ne b = absurd (ne refl)
place_GoesOn cap s (next_of []) e ne b = (record s { place = top }, batch_done e, λ h. cc)
place_GoesOn cap s (next_of (id ∷ ids)) e ne b =
    elim (Bool-cases (too_many_in_flight cap 0 s.in_flight)) [
      | inl full ↦ (record s { place = top }, batch_break 0 id ids e full, λ h. cc)
      | inr room ↦ (record s { place = acquiring id ids }, batch_next 0 id ids e room, λ h. cc)
    ]
place_GoesOn cap s (acquiring id ids) e ne b =
    waiting_GoesOn cap s id ids s.dialling e refl (ground arith)
place_GoesOn cap s (acquired id ids) e ne b =
    (record s { place = launching id ids; in_flight = s.in_flight + 1 }, count id ids e, λ h. cc)
place_GoesOn cap s (launching id ids) e ne b =
    (record s { place = next_of ids; dialling = id ∷ s.dialling }, launch id ids e, λ h. cc)

-- The loop is never stuck: in every state that it reaches and in which it has not returned, a step
-- can be made after which it still runs.
pub never_stuck : (cap : ℤ) (s : RunState) → Reach cap s → s.place ≢ stopped → GoesOn cap s
never_stuck cap s r running = place_GoesOn cap s s.place refl running (Reach-IsBounded cap r)
