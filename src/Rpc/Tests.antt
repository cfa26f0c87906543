-- ===== src/Rpc/Tests.antt =====
-- The attestation bit field and the handshake at concrete inputs.
use beaconprobe.Base.{
  take, arith, zero, suc, ◌<◌, length, ℕ, ◌+◌, ◌≡◌, refl, true, ◌&&◌, Option, none, some, List, [],
  ◌∷◌, ℕ_discrete, String_discrete, lookup, insert, nat_key, string_key, ◌==◌, ltb, if◌then◌else◌,
  any,
}
use beaconprobe.Base.Bytes.{set_bit}
use beaconprobe.Rpc.Attnets.{
  mark_subnet, mark_all, make_attnets_bytes, has_subnet_overlap, attnets_overlap,
}
use beaconprobe.Rpc.Handlers.{
  StatusV2, Writes, handle_status, metadata, register_handlers, metadata_protocol_v2,
  handle_goodbye, metadata_for, meta_data_v0, metadata_protocol_v1, status_for,
}
use beaconprobe.Rpc.Handshake.{
  Faults, bad_status, complete, bad_code, no_code, read_answer, send_status, handshake_completes,
}

-- An ID from 64 is left out.
attnets_run : make_attnets_bytes (0 ∷ 9 ∷ 63 ∷ 64 ∷ 9 ∷ []) ≡ 1 ∷ 2 ∷ 0 ∷ 0 ∷ 0 ∷ 0 ∷ 0 ∷ 128 ∷ []
unfolding make_attnets_bytes mark_all mark_subnet set_bit
attnets_run = refl

attnets_overlap_example :
    has_subnet_overlap (some (make_attnets_bytes (0 ∷ 9 ∷ 64 ∷ []))) (64 ∷ 9 ∷ [])
    ≡ any (λ w. ltb w 64 && any (◌==◌ w) (0 ∷ 9 ∷ 64 ∷ [])) (64 ∷ 9 ∷ [])
attnets_overlap_example = attnets_overlap (0 ∷ 9 ∷ 64 ∷ []) (64 ∷ 9 ∷ [])

-- A codec for statuses that differ in the head slot only.
abbrev at_head : ℕ → StatusV2
at_head n = status_for (1 ∷ 2 ∷ 3 ∷ 4 ∷ []) (0 ∷ []) n

encode : StatusV2 → List ℕ
encode s = s.head_slot ∷ []

decode : List ℕ → Option StatusV2
decode [] = none
decode (n ∷ rest) = some (at_head (n + 1))

abbrev no_fault : Faults
no_fault = record { open_ok = true; encode_ok = true; close_write_ok = true }

abbrev code_only : Writes
code_only = record { code_ok = true; body_cut = some 0 }

codec_a : decode (encode (at_head 6)) ≡ some (at_head 6)
unfolding decode encode status_for
codec_a = refl

codec_b : decode (encode (at_head 9)) ≡ some (at_head 9)
unfolding decode encode status_for
codec_b = refl

codec_cut : (n : ℕ) → n < length (encode (at_head 9)) → decode (take n (encode (at_head 9))) ≡ none
unfolding decode encode
codec_cut zero h = refl
codec_cut (suc n) h = absurd (omega arith)

code_alone : (n : ℕ) → some 0 ≡ some n → n < length (encode (at_head 9))
unfolding encode
code_alone n h = ground arith

handshake_completes_example :
    (send_status decode encode
        (at_head 6)
        no_fault
        (λ request. (handle_status decode encode (at_head 9) code_only request).1)
      ≡ (if code_only.code_ok
          then elim code_only.body_cut [
            | none ↦ complete (at_head 9).head_slot
            | some n ↦ bad_status
          ]
          else no_code))
    × ((handle_status decode encode (at_head 9) code_only (encode (at_head 6))).0
        ≡ some (at_head 6).head_slot)
handshake_completes_example =
    handshake_completes decode encode (at_head 6) (at_head 9) no_fault code_only codec_a codec_b
      codec_cut code_alone refl refl refl

-- A peer that refuses.
refused_run : send_status decode encode (at_head 6) no_fault (λ request. 1 ∷ []) ≡ bad_code 1
unfolding send_status read_answer ℕ_discrete
refused_run = refl

handlers_run : lookup metadata_protocol_v2 (register_handlers []) ≡ some metadata
unfolding register_handlers lookup insert String_discrete
handlers_run = refl

goodbye_run : handle_goodbye (λ bytes. some 129) [] ≡ some ("too many peers", 129)
unfolding handle_goodbye lookup ℕ_discrete
goodbye_run = refl

metadata_run : metadata_for metadata_protocol_v1 (1 ∷ []) ≡ meta_data_v0 0 (1 ∷ [])
unfolding metadata_for String_discrete
metadata_run = refl
