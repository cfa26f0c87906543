-- ===== src/Discovery/Filters.antt =====
-- Which nodes discovery/discovery.go takes. A go-ethereum node is what the code reads of it: its
-- record's `eth2` and `attnets` entries, if there are any, its text, and the address that
-- `enodeToAddrInfo` makes of its key, IP and ports, `none` where that returns an error or nil.
use beaconprobe.Base.{
  ℕ, String, ◌≡◌, Bool, true, false, ◌&&◌, Option, none, some, List, [], ◌∷◌, arith, nat_key,
  string_key, ◌==◌, ltb, if◌then◌else◌, length, any, get_or,
}
use beaconprobe.Base.Text.{contains}
use beaconprobe.Node.PeerFinder.{AddrInfo}

pub record Node : Type 0 where
  pub eth2 : Option (List ℕ)
  pub attnets : Option (List ℕ)
  pub addr_info : Option AddrInfo
  pub text : String

-- The bytes are compared one by one, up to the fourth.
abbrev same_digest : List ℕ → List ℕ → Bool
same_digest a b =
    get_or a 0 0 == get_or b 0 0
    && (get_or a 1 0 == get_or b 1 0
        && (get_or a 2 0 == get_or b 2 0 && get_or a 3 0 == get_or b 3 0))

-- `unmarshal` is prysm's `ENRForkID.UnmarshalSSZ`, with the field `CurrentForkDigest` of its result.
unfoldable pub matches_fork_digest : (List ℕ → Option (List ℕ)) → Option (List ℕ) → List ℕ → Bool
matches_fork_digest unmarshal none digest = false
matches_fork_digest unmarshal (some eth2_data) digest =
    if ltb (length eth2_data) 4 then false else elim (unmarshal eth2_data) [
      | none ↦ false
      | some current ↦ if ltb (length current) 4 then false else same_digest current digest
    ]

unfoldable pub has_quic_addr : AddrInfo → Bool
has_quic_addr ai = any (λ a. contains a "/quic-v1") ai.addrs

-- With four bytes on both sides the digest matches exactly if it is the same.
digest_equal :
    (a b c d : ℕ) (rest digest : List ℕ)
    → length digest ≡ 4
    → same_digest (a ∷ b ∷ c ∷ d ∷ rest) digest ≡ true
    → digest ≡ a ∷ b ∷ c ∷ d ∷ []
digest_equal a b c d rest (w ∷ x ∷ y ∷ z ∷ []) n h = ground arith
digest_equal a b c d rest _ n h = absurd (omega arith)
