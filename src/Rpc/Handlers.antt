-- ===== src/Rpc/Handlers.antt =====
-- The request handlers of rpc/rpc.go. A stream is the bytes that it brings and the bytes written to
-- it. prysm's SSZ encoder and the marshalling of the metadata are parameters; a write or an encoding
-- may fail, and then writes nothing more.
use beaconprobe.Base.{
  take, ℕ, ◌-◌, String, Bool, Option, none, some, List, [], ◌∷◌, lookup, insert, GoMap, nat_key,
  string_key, ◌==◌, ltb, if◌then◌else◌,
}

pub record StatusV2 : Type 0 where
  pub fork_digest : List ℕ
  pub finalized_root : List ℕ
  pub finalized_epoch : ℕ
  pub head_root : List ℕ
  pub head_slot : ℕ
  pub earliest_available_slot : ℕ

-- Whether the write of the code succeeds, and, if that of the body fails, after how many bytes.
pub record Writes : Type 0 where
  pub code_ok : Bool
  pub body_cut : Option ℕ

abbrev body_written : Option ℕ → List ℕ → List ℕ
body_written none body = body
body_written (some n) body = take n body

abbrev pub response_code_success : ℕ
response_code_success = 0

-- The code and the body of an answer, as far as they are written.
abbrev answer : Writes → List ℕ → List ℕ
answer w body = if w.code_ok then response_code_success ∷ body_written w.body_cut body else []

-- The head slot that the request names, if it decodes, and the bytes of the answer.
unfoldable pub handle_status :
    (List ℕ → Option StatusV2)
    → (StatusV2 → List ℕ)
    → StatusV2
    → Writes
    → List ℕ
    → Option ℕ × List ℕ
handle_status decode encode our_status w request = elim (decode request) [
  | none ↦ (none, [])
  | some peer_status ↦ (some peer_status.head_slot, answer w (encode our_status))
]

-- The sequence number in the answer is 0.
handle_ping : (List ℕ → Option ℕ) → (ℕ → List ℕ) → Writes → List ℕ → List ℕ
handle_ping decode encode w request = elim (decode request) [
  | none ↦ []
  | some ping ↦ answer w (encode 0)
]

-- `MetaDataV0`, `MetaDataV1` and `MetaDataV2` of prysm, with the fields that the handler fills in.
pub data Metadata : Type 0 where
  meta_data_v0 : ℕ → List ℕ → Metadata
  meta_data_v1 : ℕ → List ℕ → List ℕ → Metadata
  meta_data_v2 : ℕ → List ℕ → List ℕ → ℕ → Metadata

abbrev status_protocol_v1 : String
status_protocol_v1 = "/eth2/beacon_chain/req/status/1/ssz_snappy"

abbrev status_protocol_v2 : String
status_protocol_v2 = "/eth2/beacon_chain/req/status/2/ssz_snappy"

abbrev ping_protocol : String
ping_protocol = "/eth2/beacon_chain/req/ping/1/ssz_snappy"

abbrev pub metadata_protocol_v1 : String
metadata_protocol_v1 = "/eth2/beacon_chain/req/metadata/1/ssz_snappy"

abbrev pub metadata_protocol_v2 : String
metadata_protocol_v2 = "/eth2/beacon_chain/req/metadata/2/ssz_snappy"

abbrev metadata_protocol_v3 : String
metadata_protocol_v3 = "/eth2/beacon_chain/req/metadata/3/ssz_snappy"

abbrev goodbye_protocol : String
goodbye_protocol = "/eth2/beacon_chain/req/goodbye/1/ssz_snappy"

unfoldable pub metadata_for : String → List ℕ → Metadata
metadata_for protocol attnets =
    if protocol == metadata_protocol_v3
    then meta_data_v2 0 attnets (0 ∷ []) 4
    else if protocol == metadata_protocol_v1
    then meta_data_v0 0 attnets
    else meta_data_v1 0 attnets (0 ∷ [])

-- The handler reads nothing.
handle_metadata : (Metadata → List ℕ) → String → List ℕ → Writes → List ℕ
unfolding metadata_for
handle_metadata encode protocol attnets w = answer w (encode (metadata_for protocol attnets))

abbrev goodbye_reasons : GoMap ℕ String
goodbye_reasons =
    (1, "client shutdown")
    ∷ (2, "irrelevant network")
    ∷ (3, "fault/error")
    ∷ (128, "unable to verify network")
    ∷ (129, "too many peers")
    ∷ (250, "peer score too low")
    ∷ (251, "client banned this node")
    ∷ []

-- The reason and the code that are logged; nothing is written.
unfoldable pub handle_goodbye : (List ℕ → Option ℕ) → List ℕ → Option (String × ℕ)
handle_goodbye decode request = elim (decode request) [
  | none ↦ none
  | some code ↦ elim (lookup code goodbye_reasons) [
    | none ↦ some ("unknown", code)
    | some msg ↦ some (msg, code)
  ]
]

pub data Handler : Type 0 where
  status ping metadata goodbye : Handler

-- The protocols that `RegisterHandlers` sets, in the order of its calls; a later one replaces an
-- earlier one of the same name.
unfoldable pub register_handlers : GoMap String Handler → GoMap String Handler
register_handlers m = insert goodbye_protocol goodbye (
    insert metadata_protocol_v3 metadata (
      insert metadata_protocol_v2 metadata (
        insert metadata_protocol_v1 metadata (
          insert ping_protocol ping
            (insert status_protocol_v2 status (insert status_protocol_v1 status m))))))

-- `MakeStatusProvider`: prysm's current slot and 32 zero bytes for a root are arguments.
unfoldable pub status_for : List ℕ → List ℕ → ℕ → StatusV2
status_for fork_digest zero_root current_slot = record {
  fork_digest = fork_digest;
  finalized_root = zero_root;
  finalized_epoch = 0;
  head_root = zero_root;
  head_slot = if ltb 0 current_slot then current_slot - 1 else 0;
  earliest_available_slot = 0;
}
