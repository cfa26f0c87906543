-- ===== src/Node/Attestation/Conserves.antt =====
-- No attestation is lost, doubled or flushed early between the channel and the log.
use beaconprobe.Base.{
  ℕ, ◌≡◌, refl, sym, ap, ◌∙◌, Bool, true, false, none, List, [], ◌∷◌, ◌++◌, arith, lookup,
  lookup-insert, Distinct, insert-Distinct, nat_key, string_key, ◌==◌, leb, if◌then◌else◌,
}
use mathlib.Core.List.{append_assoc, append-nil}
use mathlib.Core.Path.{ap₂}
use beaconprobe.Node.Block.{sub_u64}
use beaconprobe.Node.Attestation.{
  BufferedAttestation, Pending, entries_of, buffer, flushed, kept, Input, done, entry, tick,
  Flusher, tick_step, flush_slots,
}

-- What the goroutines of slot `s` were given, in the order of their starts.
abbrev handed : ℕ → List (ℕ × List BufferedAttestation) → List BufferedAttestation
handed s [] = []
handed s ((r, es) ∷ jobs) = let rest = handed s jobs in if r == s then es ++ rest else rest

-- The entries of slot `s` that the loop receives before it ends, in order.
abbrev pub received : ℕ → List Input → List BufferedAttestation
received s [] = []
received s (done ∷ is) = []
received s (entry e ∷ is) = let rest = received s is in if e.slot == s then e ∷ rest else rest
received s (tick current ∷ is) = received s is

entries_of-buffer :
    (e : BufferedAttestation) (m : Pending) (s : ℕ)
    → entries_of s (buffer e m) ≡ (if e.slot == s then entries_of s m ++ e ∷ [] else entries_of s m)
unfolding entries_of buffer
entries_of-buffer e m s = ground (arith, lookup-insert s e.slot (entries_of e.slot m ++ e ∷ []) m)

handed-append :
    (s : ℕ) (xs ys : List (ℕ × List BufferedAttestation))
    → handed s (xs ++ ys) ≡ handed s xs ++ handed s ys
handed-append s [] ys = refl
handed-append s ((r, es) ∷ xs) ys =
    ground (arith, handed-append s xs ys, append_assoc es (handed s xs) (handed s ys))

handed_absent :
    (s completed : ℕ) (m : Pending) → lookup s m ≡ none → handed s (flushed completed m) ≡ []
unfolding flushed lookup
handed_absent s completed [] h = refl
handed_absent s completed ((r, es) ∷ m) h = ground (arith, handed_absent s completed m)

-- A tick hands on all that is pending of a slot that is over, and nothing of any other.
handed-flushed :
    (s completed : ℕ) (m : Pending)
    → Distinct m
    → handed s (flushed completed m) ≡ (if leb s completed then entries_of s m else [])
unfolding flushed entries_of lookup
handed-flushed s completed [] d = ground arith
handed-flushed s completed ((r, es) ∷ m) d =
    ground (arith, handed-flushed s completed m d.1, handed_absent s completed m, append-nil es)

entries_of-kept :
    (s completed : ℕ) (m : Pending)
    → entries_of s (kept completed m) ≡ (if leb s completed then [] else entries_of s m)
unfolding kept entries_of lookup
entries_of-kept s completed [] = ground arith
entries_of-kept s completed ((r, es) ∷ m) = ground (arith, entries_of-kept s completed m)

lookup-kept :
    (s completed : ℕ) (m : Pending) → lookup s m ≡ none → lookup s (kept completed m) ≡ none
unfolding kept lookup
lookup-kept s completed [] h = refl
lookup-kept s completed ((r, es) ∷ m) h = ground (arith, lookup-kept s completed m)

kept-Distinct : (completed : ℕ) (m : Pending) → Distinct m → Distinct (kept completed m)
unfolding kept
kept-Distinct completed [] d = d
kept-Distinct completed ((r, es) ∷ m) d =
    ground (arith, kept-Distinct completed m d.1, lookup-kept r completed m d.0)

buffer-Distinct : (e : BufferedAttestation) (m : Pending) → Distinct m → Distinct (buffer e m)
unfolding buffer
buffer-Distinct e m d = insert-Distinct e.slot (entries_of e.slot m ++ e ∷ []) m d

-- A tick takes exactly the slots up to the current one less one, in uint64, out of a buffer that has
-- no key twice: what was pending of such a slot is handed on, after what was handed on before, and
-- what is pending of any other slot stays.
tick_flushes :
    (current : ℕ) (f : Flusher) (s : ℕ)
    → Distinct f.pending
    → (entries_of s (tick_step current f).pending
        ≡ (if leb s (sub_u64 current 1) then [] else entries_of s f.pending))
      × (handed s (tick_step current f).jobs
          ≡ handed s f.jobs ++ (if leb s (sub_u64 current 1) then entries_of s f.pending else []))
unfolding tick_step
tick_flushes current f s d = (
  entries_of-kept s (sub_u64 current 1) f.pending,
  handed-append s f.jobs (flushed (sub_u64 current 1) f.pending)
      ∙ ap (◌++◌ (handed s f.jobs)) (handed-flushed s (sub_u64 current 1) f.pending d),
)

-- All that the loop has of a slot, handed on or pending.
abbrev pub all_of : ℕ → Flusher → List BufferedAttestation
all_of s f = handed s f.jobs ++ entries_of s f.pending

tick-all_of :
    (current : ℕ) (f : Flusher) (s : ℕ)
    → Distinct f.pending
    → all_of s (tick_step current f) ≡ all_of s f
tick-all_of current f s d =
    let (left, on) = tick_flushes current f s d in
    ap₂ (λ x y. x ++ y) on left ∙ rest (leb s (sub_u64 current 1))
  where
    rest :
        (b : Bool)
        → (handed s f.jobs ++ (if b then entries_of s f.pending else []))
            ++ (if b then [] else entries_of s f.pending)
          ≡ all_of s f
    rest true = append-nil _
    rest false = ap (λ x. x ++ entries_of s f.pending) (append-nil (handed s f.jobs))

buffer-all_of :
    (e : BufferedAttestation) (f : Flusher) (s : ℕ)
    → all_of s (record f { pending = buffer e f.pending })
      ≡ all_of s f ++ (if e.slot == s then e ∷ [] else [])
buffer-all_of e f s = ground (
  arith,
  entries_of-buffer e f.pending s,
  append_assoc (handed s f.jobs) (entries_of s f.pending) (e ∷ []),
  append-nil (all_of s f),
)

flush_all_of :
    (is : List Input) (f : Flusher) (s : ℕ)
    → Distinct f.pending
    → all_of s (flush_slots is f) ≡ all_of s f ++ received s is
unfolding flush_slots
flush_all_of [] f s d = sym (append-nil _)
flush_all_of (done ∷ is) f s d = sym (append-nil _)
flush_all_of (tick current ∷ is) f s d =
    flush_all_of is (tick_step current f) s
      (unfold tick_step in kept-Distinct (sub_u64 current 1) f.pending d)
    ∙ ap (λ x. x ++ received s is) (tick-all_of current f s d)
flush_all_of (entry e ∷ is) f s d =
    flush_all_of is (record f { pending = buffer e f.pending }) s (buffer-Distinct e f.pending d)
    ∙ ap (λ x. x ++ received s is) (buffer-all_of e f s)
    ∙ append_assoc (all_of s f) (if e.slot == s then e ∷ [] else []) (received s is)
    ∙ ground arith

-- Whatever comes in, entries and ticks in any order: of every slot, the entries that its goroutines
-- were given, followed by those still pending, are exactly those received, in their order.
pub flush_conserves :
    (is : List Input) (s : ℕ)
    → all_of s (flush_slots is (record { pending = []; jobs = [] })) ≡ received s is
unfolding entries_of lookup
flush_conserves is s = flush_all_of is (record { pending = []; jobs = [] }) s tt
