-- ===== src/Discovery/Addresses.antt =====
-- `enodeToAddrInfo` and `retrieveMultiAddrsFromNode` of discovery/discovery.go: the peer and the
-- addresses that a node record stands for.
pub mod Tests
use beaconprobe.Base.{
  ℕ, zero, suc, ◌+◌, ◌-◌, ◌*◌, ◌/◌, ◌%◌, ◌^◌, ◌≤◌, ◌<◌, min, max, String, ◌≡◌, refl, sym, ap, ◌∙◌,
  subst, ◌≢◌, ◌↔◌, ◌⊎◌, inl, inr, ite, if_pos, if_neg, Bool, true, false, not, ◌&&◌, ◌||◌, Option,
  none, some, List, [], ◌∷◌, ◌++◌, map, arith, dec_lt, dec_le, ℕ_discrete, String_discrete, lookup,
  insert, delete, lookup-insert, lookup-delete, GoMap, Distinct, delete-Distinct, insert-Distinct,
  delete_absent, length-delete, Bool-cases, Option-cases, Key, nat_key, string_key, ◌==◌, ltb, leb,
  if◌then◌else◌, ltb→lt, lt→ltb, leb→le, le→leb, tests, ==_sound, ==_refl, ==_ne, length, get_elem?,
  take, set, select, any, All, Has, here, there, length-append, length-take, length-select-le,
  get_elem?_total, All_Has, All-map, All-append, get_or, length-set, get_or-set_self, get_or-set_ne,
}
use beaconprobe.Node.PeerFinder.{AddrInfo}
use Prim.Native.String

-- An IP as net.IP prints it, and whether `To4` and `To16` are not nil.
pub record Ip : Type 0 where
  pub text : String
  pub is_v4 : Bool
  pub is_v6 : Bool

-- What the code reads of a node record; a port that is not there is `none`, or 0 for `TCP`.
pub record Record (P : Type 0) : Type 0 where
  pub pubkey : Option P
  pub ip : Option Ip
  pub quic_port : Option ℕ
  pub tcp_port : ℕ

-- The printing of decimal numbers, prysm's conversion of a key, and libp2p's peer IDs, multiaddresses and `AddrInfosFromP2pAddrs`.
pub record Parsers (P K M : Type 0) : Type 0 where
  pub decimal : ℕ → String
  pub convert_pubkey : P → Option K
  pub id_from_public_key : K → Option String
  pub new_multiaddr : String → Option M
  pub infos_from_p2p_addrs : List M → Option (List AddrInfo)

pub data Error : Type 0 where
  no_pubkey bad_pubkey no_peer_id bad_quic bad_tcp bad_infos : Error
  not_one : ℕ → Error

pub data Result (A : Type 0) : Type 0 where
  err : Error → Result A
  ok : A → Result A

infixl 5 ◌>>=◌
abbrev ◌>>=◌ : {A B : Type 0} → Result A → (A → Result B) → Result B
err e >>= f = err e
ok a >>= f = f a

abbrev or_err : {A : Type 0} → Option A → Error → Result A
or_err none e = err e
or_err (some a) e = ok a

pub ip_type : Ip → String
ip_type ip = if not ip.is_v4 && ip.is_v6 then "ip6" else "ip4"

-- An entry that cannot be loaded counts as no port.
abbrev quic_of : {P : Type 0} → Record P → ℕ
quic_of n = elim n.quic_port [ none ↦ 0 | some p ↦ p ]

bind_ok :
    {A B : Type 0} (m : Result A) (f : A → Result B) (b : B)
    → ((m >>= f) ≡ ok b) ↔ ((a : A) × (m ≡ ok a) × (f a ≡ ok b))
bind_ok (err e) f b = (λ h. absurd (ground arith), λ (a, h, k). absurd (ground arith))
bind_ok (ok a) f b = (λ h. (a, refl, h), λ (c, h, k). ground arith)

module _ {P K M : Type 0} (l : Parsers P K M) where
  -- "/%s/%s/udp/%d/quic-v1/p2p/%s" and "/%s/%s/tcp/%d/p2p/%s".
  unfoldable pub quic_text : Ip → ℕ → String → String
  quic_text ip port id = String.◌++◌ "/" (
      String.◌++◌ (ip_type ip) (
        String.◌++◌ "/" (
          String.◌++◌ ip.text
            (String.◌++◌ "/udp/" (String.◌++◌ (l.decimal port) (String.◌++◌ "/quic-v1/p2p/" id))))))

  unfoldable pub tcp_text : Ip → ℕ → String → String
  tcp_text ip port id = String.◌++◌ "/" (
      String.◌++◌ (ip_type ip) (
        String.◌++◌ "/" (
          String.◌++◌ ip.text
            (String.◌++◌ "/tcp/" (String.◌++◌ (l.decimal port) (String.◌++◌ "/p2p/" id))))))

  -- The address of a port, if there is one.
  unfoldable pub with_addr : ℕ → String → Error → List M → Result (List M)
  with_addr port text e ms =
      if port == 0
      then ok ms
      else elim (l.new_multiaddr text) [ none ↦ err e | some m ↦ ok (ms ++ m ∷ []) ]

  unfoldable pub peer_id_of : Record P → Result String
  peer_id_of n = do
    pubkey ← or_err n.pubkey no_pubkey
    k ← or_err (l.convert_pubkey pubkey) bad_pubkey
    or_err (l.id_from_public_key k) no_peer_id

  unfoldable pub addrs_at : Record P → Ip → String → Result (List M)
  addrs_at n ip id = do
    ms ← with_addr (quic_of n) (quic_text ip (quic_of n) id) bad_quic []
    with_addr n.tcp_port (tcp_text ip n.tcp_port id) bad_tcp ms

  unfoldable pub retrieve_multi_addrs : Record P → Result (List M)
  retrieve_multi_addrs n = do
    id ← peer_id_of n
    elim n.ip [ none ↦ ok [] | some ip ↦ addrs_at n ip id ]

  abbrev only_one : List AddrInfo → Result (Option AddrInfo)
  only_one (ai ∷ []) = ok (some ai)
  only_one infos = err (not_one (length infos))

  abbrev info_of : List M → Result (Option AddrInfo)
  info_of [] = ok none
  info_of (m ∷ ms) = or_err (l.infos_from_p2p_addrs (m ∷ ms)) bad_infos >>= only_one

  -- `ok none` is a nil info without an error.
  unfoldable pub enode_to_addr_info : Record P → Result (Option AddrInfo)
  enode_to_addr_info n = do ms ← retrieve_multi_addrs n; info_of ms

  -- The addresses that a record asks for: the QUIC port's before the TCP port's.
  abbrev pub texts : Record P → Ip → String → List String
  texts n ip id =
      (if quic_of n == 0 then [] else quic_text ip (quic_of n) id ∷ [])
      ++ (if n.tcp_port == 0 then [] else tcp_text ip n.tcp_port id ∷ [])

  addrs_at_lem :
      (n : Record P) (ip : Ip) (id : String) (ms : List M)
      → (addrs_at n ip id ≡ ok ms) ↔ (map l.new_multiaddr (texts n ip id) ≡ map some ms)
  unfolding addrs_at with_addr
  addrs_at_lem n ip id [] = ground arith
  addrs_at_lem n ip id (m ∷ []) = ground arith
  addrs_at_lem n ip id (m ∷ k ∷ []) = ground arith
  addrs_at_lem n ip id (m ∷ k ∷ j ∷ ms) = ground arith

  info_of_lem :
      (ms : List M) (ai : AddrInfo)
      → (info_of ms ≡ ok (some ai)) ↔ ((ms ≢ []) × (l.infos_from_p2p_addrs ms ≡ some (ai ∷ [])))
  info_of_lem [] ai = ground arith
  info_of_lem (m ∷ ms) ai = go (l.infos_from_p2p_addrs (m ∷ ms)) refl
    where
      go :
          (r : Option (List AddrInfo))
          → l.infos_from_p2p_addrs (m ∷ ms) ≡ r
          → ((or_err r bad_infos >>= only_one) ≡ ok (some ai))
            ↔ (((m ∷ ms) ≢ []) × (l.infos_from_p2p_addrs (m ∷ ms) ≡ some (ai ∷ [])))
      go none e = ground arith
      go (some []) e = ground arith
      go (some (i ∷ [])) e = ground arith
      go (some (i ∷ j ∷ is)) e = ground arith

  -- `enodeToAddrInfo` returns a peer exactly if the record has a key that gives a peer ID, an IP, and
  -- a QUIC or a TCP port, and the library parses the address of each port that is not 0, QUIC before
  -- TCP, and makes exactly this one peer of them.
  pub enode_to_addr_info_found :
      (n : Record P) (ai : AddrInfo)
      → (enode_to_addr_info n ≡ ok (some ai)) ↔ (
          (id : String) × (ip : Ip) × (ms : List M) × (peer_id_of n ≡ ok id)
          × (n.ip ≡ some ip)
          × (map l.new_multiaddr (texts n ip id) ≡ map some ms)
          × ((ms ≢ []) × (l.infos_from_p2p_addrs ms ≡ some (ai ∷ []))))
  unfolding enode_to_addr_info retrieve_multi_addrs
  enode_to_addr_info_found n ai = (
    λ h.
        let (ms, got, made) = (bind_ok (retrieve_multi_addrs n) info_of (some ai)).0 h in
        let (id, known, asked) = (bind_ok (peer_id_of n) (at n.ip) ms).0 got in
        let (some_ms, one) = (info_of_lem ms ai).0 made in
        let (ip, there_is, built) = at_some n.ip id ms some_ms asked in
        (id, ip, ms, known, there_is, (addrs_at_lem n ip id ms).0 built, (some_ms, one)),
    λ (id, ip, ms, known, there_is, built, (some_ms, one)).
        (bind_ok (retrieve_multi_addrs n) info_of (some ai)).1 (
          ms,
          (bind_ok (peer_id_of n) (at n.ip) ms).1 (
            id,
            known,
            subst (λ o. at o id ≡ ok ms) (sym there_is) ((addrs_at_lem n ip id ms).1 built),
          ),
          (info_of_lem ms ai).1 (some_ms, one),
        ),
  )
    where
      at : Option Ip → String → Result (List M)
      at o id = elim o [ none ↦ ok [] | some ip ↦ addrs_at n ip id ]

      at_some :
          (o : Option Ip) (id : String) (ms : List M)
          → ms ≢ []
          → at o id ≡ ok ms
          → (ip : Ip) × (o ≡ some ip) × (addrs_at n ip id ≡ ok ms)
      at_some none id ms ne h = absurd (ground arith)
      at_some (some ip) id ms ne h = (ip, refl, h)
