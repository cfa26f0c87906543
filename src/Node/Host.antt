-- ===== src/Node/Host.antt =====
-- `LoadOrGenerateKey` of node/host.go: the key of an instance, which a file keeps from one run to
-- the next. The file system, hex and the elliptic curve are parameters.
pub mod Keys
pub mod Tests
use beaconprobe.Base.{
  ℕ, zero, suc, ◌+◌, ◌-◌, ◌*◌, ◌/◌, ◌%◌, ◌^◌, ◌≤◌, ◌<◌, min, max, String, ◌≡◌, refl, sym, ap, ◌∙◌,
  subst, ◌≢◌, ◌↔◌, ◌⊎◌, inl, inr, ite, if_pos, if_neg, Bool, true, false, not, ◌&&◌, ◌||◌, Option,
  none, some, List, [], ◌∷◌, ◌++◌, map, arith, dec_lt, dec_le, ℕ_discrete, String_discrete, lookup,
  insert, delete, lookup-insert, lookup-delete, GoMap, Distinct, delete-Distinct, insert-Distinct,
  delete_absent, length-delete, Bool-cases, Option-cases, Key, nat_key, string_key, ◌==◌, ltb, leb,
  if◌then◌else◌, ltb→lt, lt→ltb, leb→le, le→leb, tests, ==_sound, ==_refl, ==_ne, length, get_elem?,
  take, set, select, any, All, Has, here, there, length-append, length-take, length-select-le,
  get_elem?_total, All_Has, All-map, All-append, get_or, length-set, get_or-set_self, get_or-set_ne,
}

-- What os.ReadFile answers: the bytes, or an error, which is that there is no such file or another.
pub data Read : Type 0 where
  content : List ℕ → Read
  not_exist : Read
  unreadable : Read

-- os.ReadFile and os.WriteFile; a write tells whether it succeeded.
pub record Disk (S : Type 0) : Type 0 where
  pub read_file : S → String → Read
  pub write_file : S → String → List ℕ → S × Bool

-- gcrypto.ToECDSA and FromECDSA, and encoding/hex.
pub record Codec (K : Type 0) : Type 0 where
  pub to_ecdsa : List ℕ → Option K
  pub from_ecdsa : K → List ℕ
  pub hex_encode : List ℕ → List ℕ
  pub hex_decode : List ℕ → Option (List ℕ)

-- A transport and its port, for the addresses of the forms `/ip4/0.0.0.0/tcp/%d` and
-- `/ip4/0.0.0.0/udp/%d/quic-v1`.
pub data Listen : Type 0 where
  tcp quic : ℕ → Listen

-- What `NewHostWithKey` listens on.
unfoldable pub listen_addrs : ℕ → ℕ → Bool → List Listen
listen_addrs tcp_port quic_port quic_only =
    if quic_only then quic quic_port ∷ [] else tcp tcp_port ∷ quic quic_port ∷ []

pub data Outcome (K : Type 0) : Type 0 where
  key : K → Outcome K
  bad_hex bad_key read_failed generate_failed save_failed : Outcome K

module _ {S K : Type 0} (disk : Disk S) (codec : Codec K) where
  parse_key : Option K → Outcome K
  parse_key none = bad_key
  parse_key (some k) = key k

  pub decode_key : List ℕ → Outcome K
  unfolding parse_key
  decode_key src =
      if length src == 32 then parse_key (codec.to_ecdsa src) else elim (codec.hex_decode src) [
        | none ↦ bad_hex
        | some raw ↦ parse_key (codec.to_ecdsa raw)
      ]

  save_key : String → K → S → S × Outcome K
  save_key key_file k s =
      let (s', done) = disk.write_file s key_file (codec.hex_encode (codec.from_ecdsa k)) in
      if done then (s', key k) else (s', save_failed)

  -- What GenerateKey answers is an argument, `none` for an error.
  generate_key : Option K → String → S → S × Outcome K
  unfolding save_key
  generate_key none key_file s = (s, generate_failed)
  generate_key (some k) key_file s = if key_file == "" then (s, key k) else save_key key_file k s

  unfoldable pub load_or_generate_key : Option K → String → S → S × Outcome K
  unfolding decode_key generate_key
  load_or_generate_key generated key_file s =
      if key_file == ""
      then generate_key generated key_file s
      else elim (disk.read_file s key_file) [
        | content src ↦ (s, decode_key src)
        | unreadable ↦ (s, read_failed)
        | not_exist ↦ generate_key generated key_file s
      ]
