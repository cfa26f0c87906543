-- ===== src/Node/Block/Cleanup.antt =====
-- What the loop of node/block.go keeps in the tracker.
use beaconprobe.Base.{
  ℕ, ◌+◌, ◌≤◌, ◌<◌, ◌≡◌, refl, sym, ◌∙◌, subst, inl, inr, true, ◌&&◌, Option, none, some, List, [],
  ◌∷◌, arith, lookup, Option-cases, nat_key, string_key, ltb, if◌then◌else◌, lt→ltb,
}
use beaconprobe.Node.PeerSet.{u64_mod}
use beaconprobe.Node.Block.{
  get_block_arrival, record_block, Message, read_error, undecodable, block_received, Listener,
  sub_u64, handle_block, listen_for_blocks, lookup-record_block, lookup-cleanup,
}

-- What one block does to the entry of any slot.
lookup-handle_block :
    (start_time : ℕ → Option ℕ) (l : Listener) (slot t b s : ℕ)
    → start_time slot ≡ some b
    → get_block_arrival (handle_block start_time l slot t).tracker s ≡ (
        if ltb 64 (sub_u64 slot l.last_cleanup) && ltb s (sub_u64 slot 64)
        then none
        else get_block_arrival (record_block l.tracker slot t) s)
unfolding handle_block
lookup-handle_block start_time l slot t b s h =
    ground (arith, lookup-cleanup (record_block l.tracker slot t) (sub_u64 slot 64) s)

last-handle_block :
    (start_time : ℕ → Option ℕ) (l : Listener) (slot t b : ℕ)
    → start_time slot ≡ some b
    → (handle_block start_time l slot t).last_cleanup
      ≡ (if ltb 64 (sub_u64 slot l.last_cleanup) then slot else l.last_cleanup)
unfolding handle_block
last-handle_block start_time l slot t b h = ground arith

-- A block of one of the first 64 slots that comes when a cleanup has been made at a later slot makes
-- the unsigned differences wrap: every entry of a slot below 2^64 - 64 is removed, that of the block
-- itself too, and the mark of the last cleanup moves back to the block's slot.
pub early_block_wipes :
    (start_time : ℕ → Option ℕ) (l : Listener) (slot t b s : ℕ)
    → start_time slot ≡ some b
    → slot < 64
    → slot < l.last_cleanup
    → l.last_cleanup + 64 < u64_mod
    → s + 64 < u64_mod
    → (get_block_arrival (handle_block start_time l slot t).tracker s ≡ none)
      × ((handle_block start_time l slot t).last_cleanup ≡ slot)
early_block_wipes start_time l slot t b s h early late room low =
    let wraps : ltb 64 (sub_u64 slot l.last_cleanup) ≡ true = lt→ltb _ _ (omega arith) in
    let below : ltb s (sub_u64 slot 64) ≡ true = lt→ltb _ _ (omega arith) in
    (
      lookup-handle_block start_time l slot t b s h ∙ rw (wraps, below) refl,
      last-handle_block start_time l slot t b h ∙ rw wraps refl,
    )

-- The tracker holds slots from 64 before the last cleanup to 64 after it.
abbrev InWindow : Listener → Type 0
InWindow l =
    (s t : ℕ)
    → get_block_arrival l.tracker s ≡ some t
    → (l.last_cleanup ≤ s + 64) × (s ≤ l.last_cleanup + 64)

handle_block-InWindow :
    (start_time : ℕ → Option ℕ) (l : Listener) (slot t b : ℕ)
    → start_time slot ≡ some b
    → l.last_cleanup ≤ slot
    → slot < u64_mod
    → InWindow l
    → InWindow (handle_block start_time l slot t)
handle_block-InWindow start_time l slot t b h le fits w s u found = ground (
  arith,
  w s u,
  lookup-handle_block start_time l slot t b s h,
  last-handle_block start_time l slot t b h,
  lookup-record_block l.tracker slot t s,
)

-- The blocks come in the order of their slots, none before `floor` or after `ceiling`.
abbrev pub InOrder : ℕ → ℕ → List Message → Type 0
InOrder floor ceiling [] = Unit {0}
InOrder floor ceiling (read_error ∷ ms) = InOrder floor ceiling ms
InOrder floor ceiling (undecodable ∷ ms) = InOrder floor ceiling ms
InOrder floor ceiling (block_received slot t ∷ ms) =
    (floor ≤ slot) × (slot ≤ ceiling) × InOrder slot ceiling ms

ignored :
    (start_time : ℕ → Option ℕ) (l : Listener) (slot t : ℕ)
    → start_time slot ≡ none
    → handle_block start_time l slot t ≡ l
unfolding handle_block
ignored start_time l slot t e = ground arith

last_bounded :
    (start_time : ℕ → Option ℕ) (l : Listener) (slot t b : ℕ)
    → start_time slot ≡ some b
    → l.last_cleanup ≤ slot
    → (handle_block start_time l slot t).last_cleanup ≤ slot
last_bounded start_time l slot t b e le = ground (arith, last-handle_block start_time l slot t b e)

listen_InWindow :
    (start_time : ℕ → Option ℕ) (ms : List Message) (l : Listener) (floor ceiling : ℕ)
    → l.last_cleanup ≤ floor
    → ceiling < u64_mod
    → InOrder floor ceiling ms
    → InWindow l
    → InWindow (listen_for_blocks start_time ms l)
unfolding listen_for_blocks
listen_InWindow start_time [] l floor ceiling le fits o w = w
listen_InWindow start_time (read_error ∷ ms) l floor ceiling le fits o w = w
listen_InWindow start_time (undecodable ∷ ms) l floor ceiling le fits o w =
    listen_InWindow start_time ms l floor ceiling le fits o w
listen_InWindow start_time (block_received slot t ∷ ms) l floor ceiling le fits o w =
    elim (Option-cases (start_time slot)) [
      | inl e ↦
          subst (λ k. InWindow (listen_for_blocks start_time ms k))
            (sym (ignored start_time l slot t e))
            (listen_InWindow start_time ms l slot ceiling (omega arith) fits o.2 w)
      | inr (b, e) ↦
          listen_InWindow start_time ms (handle_block start_time l slot t) slot ceiling
            (last_bounded start_time l slot t b e (omega arith)) fits o.2
            (handle_block-InWindow start_time l slot t b e (omega arith) (omega arith) w)
    ]

-- As long as blocks come in the order of their slots, and no slot reaches 2^64, a tracker that starts
-- empty holds no slot more than 64 before or after the last cleanup, however many blocks have come.
pub listen_bounded :
    (start_time : ℕ → Option ℕ) (ms : List Message) (l : Listener) (floor ceiling s t : ℕ)
    → l.tracker ≡ []
    → l.last_cleanup ≤ floor
    → ceiling < u64_mod
    → InOrder floor ceiling ms
    → get_block_arrival (listen_for_blocks start_time ms l).tracker s ≡ some t
    → ((listen_for_blocks start_time ms l).last_cleanup ≤ s + 64)
      × (s ≤ (listen_for_blocks start_time ms l).last_cleanup + 64)
unfolding get_block_arrival lookup
listen_bounded start_time ms l floor ceiling s t empty le fits o found =
    listen_InWindow start_time ms l floor ceiling le fits o (λ r u h. absurd (ground arith)) s t
      found

kept_once :
    (start_time : ℕ → Option ℕ) (l : Listener) (slot t b s u : ℕ)
    → start_time slot ≡ some b
    → l.last_cleanup ≤ slot
    → slot < u64_mod
    → slot ≤ s + 64
    → get_block_arrival l.tracker s ≡ some u
    → get_block_arrival (handle_block start_time l slot t).tracker s ≡ some u
kept_once start_time l slot t b s u e le fits near found =
    ground
      (arith, lookup-handle_block start_time l slot t b s e, lookup-record_block l.tracker slot t s)

-- The first arrival time of a slot stays what it is while blocks come in the order of their slots and
-- none of them is more than 64 slots ahead of it.
pub listen_keeps_first :
    (start_time : ℕ → Option ℕ) (ms : List Message) (l : Listener) (floor ceiling s u : ℕ)
    → l.last_cleanup ≤ floor
    → ceiling < u64_mod
    → ceiling ≤ s + 64
    → InOrder floor ceiling ms
    → get_block_arrival l.tracker s ≡ some u
    → get_block_arrival (listen_for_blocks start_time ms l).tracker s ≡ some u
unfolding listen_for_blocks
listen_keeps_first start_time [] l floor ceiling s u le fits near o found = found
listen_keeps_first start_time (read_error ∷ ms) l floor ceiling s u le fits near o found = found
listen_keeps_first start_time (undecodable ∷ ms) l floor ceiling s u le fits near o found =
    listen_keeps_first start_time ms l floor ceiling s u le fits near o found
listen_keeps_first start_time (block_received slot t ∷ ms) l floor ceiling s u le fits near o
      found =
    elim (Option-cases (start_time slot)) [
      | inl e ↦
          subst (λ k. get_block_arrival (listen_for_blocks start_time ms k).tracker s ≡ some u)
            (sym (ignored start_time l slot t e))
            (listen_keeps_first start_time ms l slot ceiling s u (omega arith) fits near o.2 found)
      | inr (b, e) ↦
          listen_keeps_first start_time ms (handle_block start_time l slot t) slot ceiling s u
            (last_bounded start_time l slot t b e (omega arith)) fits near o.2
            (kept_once start_time l slot t b s u e (omega arith) (omega arith) (omega arith) found)
    ]
