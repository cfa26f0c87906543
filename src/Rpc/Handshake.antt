-- ===== src/Rpc/Handshake.antt =====
-- The status handshake of rpc/rpc.go, from the side that opens the stream.
use beaconprobe.Base.{
  ℕ, ◌<◌, take, length, Option-cases, inl, inr, ◌≡◌, Bool, true, not, Option, none, some, List, [],
  ◌∷◌, arith, nat_key, string_key, ◌==◌, if◌then◌else◌,
}
use beaconprobe.Rpc.Handlers.{StatusV2, Writes, handle_status, response_code_success}

-- What fails before the peer's answer is read.
pub record Faults : Type 0 where
  pub open_ok : Bool
  pub encode_ok : Bool
  pub close_write_ok : Bool

pub data Outcome : Type 0 where
  no_stream no_request no_close no_code bad_status : Outcome
  bad_code complete : ℕ → Outcome

-- The peer's answer: a code, then its status.
unfoldable pub read_answer : (List ℕ → Option StatusV2) → List ℕ → Outcome
read_answer decode [] = no_code
read_answer decode (code ∷ body) =
    if code == response_code_success
    then elim (decode body) [ none ↦ bad_status | some s ↦ complete s.head_slot ]
    else bad_code code

-- The peer is what it answers to the bytes of a request.
unfoldable pub send_status :
    (List ℕ → Option StatusV2)
    → (StatusV2 → List ℕ)
    → StatusV2
    → Faults
    → (List ℕ → List ℕ)
    → Outcome
unfolding read_answer
send_status decode encode our_status f peer =
    if not f.open_ok
    then no_stream
    else if not f.encode_ok
    then no_request
    else if not f.close_write_ok
    then no_close
    else read_answer decode (peer (encode our_status))

-- Between two probes whose codec decodes what it encodes of their statuses, and decodes nothing that
-- is cut short, when the opening side meets no fault: the peer reads the opener's head slot. The
-- handshake completes with the peer's head slot if the peer writes its whole answer; if the peer
-- writes nothing, or the code with a part of its status or none of it, the opener notices.
pub handshake_completes :
    (decode : List ℕ → Option StatusV2) (encode : StatusV2 → List ℕ) (a b : StatusV2) (f : Faults)
    (w : Writes)
    → decode (encode a) ≡ some a
    → decode (encode b) ≡ some b
    → ((n : ℕ) → n < length (encode b) → decode (take n (encode b)) ≡ none)
    → ((n : ℕ) → w.body_cut ≡ some n → n < length (encode b))
    → f.open_ok ≡ true
    → f.encode_ok ≡ true
    → f.close_write_ok ≡ true
    → (send_status decode encode a f (λ request. (handle_status decode encode b w request).1) ≡ (
        if w.code_ok
        then elim w.body_cut [ none ↦ complete b.head_slot | some n ↦ bad_status ]
        else no_code))
      × ((handle_status decode encode b w (encode a)).0 ≡ some a.head_slot)
unfolding send_status handle_status
handshake_completes decode encode a b f w codec_a codec_b cut short o e c =
    elim (Option-cases w.body_cut) [
      | inl whole ↦ ground arith
      | inr (n, part) ↦ ground (arith, cut n (short n part))
    ]
