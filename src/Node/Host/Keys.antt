-- ===== src/Node/Host/Keys.antt =====
-- What `LoadOrGenerateKey` of node/host.go saves, it loads again.
use beaconprobe.Base.{
  ℕ, ◌*◌, String, ◌≡◌, ◌≢◌, true, Option, some, List, arith, nat_key, string_key, length,
}
use beaconprobe.Node.Host.{
  content, not_exist, Disk, Codec, key, parse_key, decode_key, save_key, generate_key,
  load_or_generate_key,
}

-- What is documented of the two libraries: a file that was written reads back, a key has 32 bytes and
-- comes back from them, hex comes back and takes two digits for a byte.
pub record IsFaithful {S K : Type 0} (disk : Disk S) (codec : Codec K) : Type 0 where
  pub reads_back :
      (s s' : S) (file : String) (bytes : List ℕ)
      → disk.write_file s file bytes ≡ (s', true)
      → disk.read_file s' file ≡ content bytes
  pub key_back : (k : K) → codec.to_ecdsa (codec.from_ecdsa k) ≡ some k
  pub key_length : (k : K) → length (codec.from_ecdsa k) ≡ 32
  pub hex_back : (bytes : List ℕ) → codec.hex_decode (codec.hex_encode bytes) ≡ some bytes
  pub hex_length : (bytes : List ℕ) → length (codec.hex_encode bytes) ≡ 2 * length bytes

decode_key-hex :
    {S K : Type 0} (disk : Disk S) (codec : Codec K) (k : K)
    → IsFaithful disk codec
    → decode_key disk codec (codec.hex_encode (codec.from_ecdsa k)) ≡ key k
unfolding decode_key parse_key
decode_key-hex disk codec k f = ground (
  arith,
  f.hex_length (codec.from_ecdsa k),
  f.key_length k,
  f.hex_back (codec.from_ecdsa k),
  f.key_back k,
)

-- A call for a file that does not exist, when the key that it generates can be saved, returns that
-- key; and every later call for the file, whatever it could generate, returns the same key and writes
-- nothing, as long as the disk is as the first call left it.
pub key_persists :
    {S K : Type 0} (disk : Disk S) (codec : Codec K) (file : String) (k : K) (s s' : S)
    (generated : Option K)
    → IsFaithful disk codec
    → file ≢ ""
    → disk.read_file s file ≡ not_exist
    → disk.write_file s file (codec.hex_encode (codec.from_ecdsa k)) ≡ (s', true)
    → (load_or_generate_key disk codec (some k) file s ≡ (s', key k))
      × (load_or_generate_key disk codec generated file s' ≡ (s', key k))
unfolding load_or_generate_key generate_key save_key
key_persists disk codec file k s s' generated f named absent saved = (
  ground arith,
  ground (
    arith,
    f.reads_back s s' file (codec.hex_encode (codec.from_ecdsa k)) saved,
    decode_key-hex disk codec k f,
  ),
)
