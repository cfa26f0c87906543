-- ===== src/Node/PeerManager/Backoff.antt =====
-- The backoff of node/peermanager.go: how long a peer waits after its failures.
use beaconprobe.Base.{
  ℕ, suc, ◌+◌, ◌-◌, ◌*◌, ◌^◌, ◌≤◌, ◌<◌, min, String, ◌≡◌, refl, subst, ite, if_pos, if_neg, false,
  none, some, List, [], ◌∷◌, arith, dec_le, lookup, insert, lookup-insert, lookup-delete, nat_key,
  string_key, ltb, length,
}
use native.Mathlib.Nat.{pow-le-pow_right, add-zero}
use beaconprobe.Node.PeerManager.{
  PeerManager, BackoffEntry, in_backoff, record_failure, clear_backoff, backoff_after, entry_of,
  initial_backoff, max_backoff,
}

-- The wait doubles from 30 seconds up to the sixth failure in a row, and is 30 minutes from the
-- seventh on.
pub backoff_schedule :
    (n : ℕ) → 0 < n → backoff_after n ≡ ite (dec_le n 6) (initial_backoff * 2 ^ (n - 1)) max_backoff
unfolding backoff_after
backoff_schedule n h = elim (dec_le n 6) [
  | yes p ↦
      let e : min (n - 1) 10 ≡ n - 1 = omega arith in
      let small : 2 ^ (n - 1) ≤ 2 ^ 5 =
        pow-le-pow_right {n = 2} (omega arith) {j = 5} (omega arith) in
      rw (if_pos _ p) (rw e (omega arith))
  | no p ↦
      let large : 2 ^ 6 ≤ 2 ^ min (n - 1) 10 =
        pow-le-pow_right {n = 2} (omega arith) {i = 6} (omega arith) in
      rw (if_neg _ p) (omega arith)
]

-- The product that the code forms before it takes the minimum fits an int64.
backoff_fits : (n : ℕ) → initial_backoff * 2 ^ min (n - 1) 10 < 2 ^ 63
backoff_fits n =
    let bound : 2 ^ min (n - 1) 10 ≤ 2 ^ 10 =
      pow-le-pow_right {n = 2} (omega arith) {j = 10} (omega arith) in
    omega arith

-- After a failure at `now` the peer is in backoff at exactly the times before the end of its next
-- wait, and every other peer is in backoff when it was before.
pub in_backoff-record_failure :
    (pm : PeerManager) (now t : ℕ) (id q : String)
    → in_backoff (record_failure pm now id) t q
      ≡ ite
          (string_key.dec q id)
          (ltb t (now + backoff_after ((entry_of pm id).fail_count + 1)))
          (in_backoff pm t q)
unfolding in_backoff record_failure
in_backoff-record_failure pm now t id q =
    let n = (entry_of pm id).fail_count + 1 in
    ground (
      arith,
      lookup-insert q id (record { fail_count = n; next_dial = now + backoff_after n }) pm.backoff,
    )

-- A connection clears the backoff of its peer alone, and the count of failures with it.
pub clear_backoff_forgets :
    (pm : PeerManager) (t : ℕ) (id q : String)
    → (in_backoff (clear_backoff pm id) t q ≡ ite (string_key.dec q id) false (in_backoff pm t q))
      × ((entry_of (clear_backoff pm id) id).fail_count ≡ 0)
unfolding in_backoff clear_backoff
clear_backoff_forgets pm t id q =
    (ground (arith, lookup-delete q id pm.backoff), ground (arith, lookup-delete id id pm.backoff))

-- Failures of one peer, one after the other, at the given times.
unfoldable pub fail_at : List ℕ → String → PeerManager → PeerManager
fail_at [] id pm = pm
fail_at (t ∷ ts) id pm = fail_at ts id (record_failure pm t id)

abbrev last_or : ℕ → List ℕ → ℕ
last_or d [] = d
last_or d (t ∷ ts) = last_or t ts

recorded :
    (pm : PeerManager) (id : String) (n t : ℕ)
    → (entry_of pm id).fail_count + 1 ≡ n
    → lookup id (record_failure pm t id).backoff
      ≡ some (record { fail_count = n; next_dial = t + backoff_after n })
unfolding record_failure
recorded pm id n t e =
    let entry : ℕ → BackoffEntry =
      λ k. record { fail_count = k; next_dial = t + backoff_after k } in
    subst
      (λ (k : ℕ).
        lookup id (insert id (entry ((entry_of pm id).fail_count + 1)) pm.backoff) ≡ some (entry k))
      e (ground (arith, lookup-insert id id (entry ((entry_of pm id).fail_count + 1)) pm.backoff))

counted :
    (pm : PeerManager) (id : String) (n now t : ℕ)
    → lookup id pm.backoff ≡ some (record { fail_count = n; next_dial = now + backoff_after n })
    → lookup id (record_failure pm t id).backoff
      ≡ some (record { fail_count = suc n; next_dial = t + backoff_after (suc n) })
counted pm id n now t h = recorded pm id (suc n) t (rw (h, entry_of) (omega arith))

first :
    (pm : PeerManager) (id : String) (t : ℕ)
    → lookup id pm.backoff ≡ none
    → lookup id (record_failure pm t id).backoff
      ≡ some (record { fail_count = 1; next_dial = t + backoff_after 1 })
first pm id t h = recorded pm id 1 t (rw (h, entry_of) refl)

fail_again :
    (ts : List ℕ) (id : String) (pm : PeerManager) (n now : ℕ)
    → lookup id pm.backoff ≡ some (record { fail_count = n; next_dial = now + backoff_after n })
    → lookup id (fail_at ts id pm).backoff
      ≡ some (record {
        fail_count = n + length ts;
        next_dial = last_or now ts + backoff_after (n + length ts);
      })
unfolding fail_at
fail_again [] id pm n now h = rw add-zero h
fail_again (t ∷ ts) id pm n now h =
    let e : suc n + length ts ≡ n + suc (length ts) = omega arith in
    subst
      (λ (k : ℕ).
        lookup id (fail_at ts id (record_failure pm t id)).backoff
        ≡ some (record { fail_count = k; next_dial = last_or t ts + backoff_after k }))
      e (fail_again ts id (record_failure pm t id) (suc n) t (counted pm id n now t h))

-- A peer with no failures on record that fails at one time after the other has the number of the
-- failures on record, and waits from the last of them as long as the schedule says for that number.
fail_at_counts :
    (t : ℕ) (ts : List ℕ) (id : String) (pm : PeerManager)
    → lookup id pm.backoff ≡ none
    → lookup id (fail_at (t ∷ ts) id pm).backoff
      ≡ some (record {
        fail_count = length (t ∷ ts);
        next_dial = last_or t ts + backoff_after (length (t ∷ ts));
      })
unfolding fail_at
fail_at_counts t ts id pm h =
    let e : 1 + length ts ≡ suc (length ts) = omega arith in
    subst
      (λ (k : ℕ).
        lookup id (fail_at ts id (record_failure pm t id)).backoff
        ≡ some (record { fail_count = k; next_dial = last_or t ts + backoff_after k }))
      e (fail_again ts id (record_failure pm t id) 1 t (first pm id t h))
