-- ===== src/Node/PeerManager/Drain.antt =====
-- `Run` of node/peermanager.go after its context has ended: the goroutines that it has started end too.
use beaconprobe.Base.{
  ℕ, zero, suc, ◌+◌, ◌-◌, ◌≤◌, String, ◌≡◌, refl, sym, ap, ◌∙◌, List, [], ◌∷◌, arith, nat_key,
  string_key, length, length-append,
}
use beaconprobe.Base.Int.{ℤ}
use beaconprobe.Node.PeerManager.Loop.{
  RunState, Place, stopped, Step, busy, free, pull_nothing, pull, wake, rest_cancelled, batch_done,
  batch_break, batch_next, acquire, acquire_cancelled, count, launch, release, lower, Reach,
  then_step, IsBounded, Reach-IsBounded, room_for,
}

-- What the goroutines have left to do: a dial gives back its token, and then lowers the counter.
abbrev pub left_to_do : RunState → ℕ
left_to_do s = length s.dialling + length s.dialling + s.leaving

-- Runs of a number of steps.
pub data Steps (cap : ℤ) (s : RunState) : ℕ → RunState → Type 0 where
  done : Steps cap s 0 s
  then_one : {n : ℕ} {t u : RunState} → Steps cap s n t → Step cap t u → Steps cap s (suc n) u

-- A step of a stopped loop leaves it stopped, and is one of those that are left to do.
stopped-Step :
    (cap : ℤ) (s t : RunState)
    → s.place ≡ stopped
    → Step cap s t
    → (t.place ≡ stopped) × (left_to_do s ≡ suc (left_to_do t))
stopped-Step cap s t h (busy peers e f) = absurd (ground (arith, sym h ∙ e))
stopped-Step cap s t h (free peers e f) = absurd (ground (arith, sym h ∙ e))
stopped-Step cap s t h (pull_nothing e) = absurd (ground (arith, sym h ∙ e))
stopped-Step cap s t h (pull id ids e) = absurd (ground (arith, sym h ∙ e))
stopped-Step cap s t h (wake e) = absurd (ground (arith, sym h ∙ e))
stopped-Step cap s t h (rest_cancelled e) = absurd (ground (arith, sym h ∙ e))
stopped-Step cap s t h (batch_done e) = absurd (ground (arith, sym h ∙ e))
stopped-Step cap s t h (batch_break peers id ids e f) = absurd (ground (arith, sym h ∙ e))
stopped-Step cap s t h (batch_next peers id ids e f) = absurd (ground (arith, sym h ∙ e))
stopped-Step cap s t h (acquire id ids e f) = absurd (ground (arith, sym h ∙ e))
stopped-Step cap s t h (acquire_cancelled id ids e) = absurd (ground (arith, sym h ∙ e))
stopped-Step cap s t h (count id ids e) = absurd (ground (arith, sym h ∙ e))
stopped-Step cap s t h (launch id ids e) = absurd (ground (arith, sym h ∙ e))
stopped-Step cap s t h (release before after id e) =
    (h, omega (arith, ap length e, length-append before (id ∷ after), length-append before after))
stopped-Step cap s t h (lower n e) = (h, omega arith)

Steps-left :
    (cap : ℤ) {s t : RunState} {n : ℕ}
    → s.place ≡ stopped
    → Steps cap s n t
    → (t.place ≡ stopped) × (left_to_do s ≡ n + left_to_do t)
Steps-left cap h done = (h, omega arith)
Steps-left cap h (then_one {n} {t} {u} r st) =
    let (before, left) = Steps-left cap h r in
    let (after, one) = stopped-Step cap t u before st in (after, omega (arith, left, one))

Reach-Steps : (cap : ℤ) {s t : RunState} {n : ℕ} → Reach cap s → Steps cap s n t → Reach cap t
Reach-Steps cap r done = r
Reach-Steps cap r (then_one l st) = then_step (Reach-Steps cap r l) st

one_then :
    (cap : ℤ) {s t u : RunState} {n : ℕ} → Step cap s t → Steps cap t n u → Steps cap s (suc n) u
one_then cap st done = then_one done st
one_then cap st (then_one r last) = then_one (one_then cap st r) last

-- Nothing is left: no goroutine, no token, and a counter of 0.
pub record IsDrained (s : RunState) : Type 0 where
  pub no_dial : s.dialling ≡ []
  pub no_token : s.sem ≡ 0
  pub none_counted : s.in_flight ≡ 0

drained :
    (cap : ℤ) (s : RunState)
    → IsBounded (room_for cap) s
    → s.place ≡ stopped
    → left_to_do s ≡ 0
    → IsDrained s
drained cap s b h none_left = go s.place refl s.dialling refl
  where
    go : (p : Place) → s.place ≡ p → (ids : List String) → s.dialling ≡ ids → IsDrained s
    go p e [] f = record {
      no_dial = f;
      no_token = ground (arith, b.tokens, h, f);
      none_counted = ground (arith, b.counted, h, f);
    }
    go p e (id ∷ ids) f = absurd (omega (arith, ap length f))

-- A stopped loop's goroutines, as long as there is something left to do, make one more step.
goes_on : (cap : ℤ) (s : RunState) (n : ℕ) → left_to_do s ≡ suc n → (t : RunState) × Step cap s t
goes_on cap s n e = go s.leaving refl s.dialling refl
  where
    go :
        (l : ℕ)
        → s.leaving ≡ l
        → (ids : List String) → s.dialling ≡ ids
        → (t : RunState) × Step cap s t
    go (suc l) f ids g = (_, lower l f)
    go zero f (id ∷ ids) g = (_, release [] ids id g)
    go zero f [] g = absurd (omega (arith, ap length g))

drains :
    (cap : ℤ) (n : ℕ) (s : RunState)
    → Reach cap s
    → s.place ≡ stopped
    → left_to_do s ≡ n
    → (t : RunState) × Steps cap s n t × IsDrained t
drains cap zero s r h e = (s, done, drained cap s (Reach-IsBounded cap r) h e)
drains cap (suc n) s r h e =
    let (t, st) = goes_on cap s n e in
    let (after, one) = stopped-Step cap s t h st in
    let (u, rest, end) = drains cap n t (then_step r st) after (omega arith) in
    (u, one_then cap st rest, end)

-- After the loop has stopped, in any reachable state, its goroutines terminate: two steps for each
-- dial and one for each goroutine that has yet to lower the counter are the most that any run can
-- make, however it interleaves, and every run can be continued to one of exactly that many, which
-- ends with no goroutine, no token taken and a counter of 0.
pub stopped_terminates :
    (cap : ℤ) (s t : RunState) (n : ℕ)
    → Reach cap s
    → s.place ≡ stopped
    → Steps cap s n t
    → (n ≤ left_to_do s) × ((u : RunState) × Steps cap t (left_to_do s - n) u × IsDrained u)
stopped_terminates cap s t n r h l =
    let (still, left) = Steps-left cap h l in
    (
      omega (arith, left),
      drains cap (left_to_do s - n) t (Reach-Steps cap r l) still (omega (arith, left)),
    )
