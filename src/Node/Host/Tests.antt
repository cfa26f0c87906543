-- ===== src/Node/Host/Tests.antt =====
-- A disk that keeps its files in a map, and keys that are their own bytes.
use beaconprobe.Base.{
  ℕ, zero, suc, ◌+◌, ◌*◌, ◌/◌, ◌%◌, String, ◌≡◌, refl, ◌≢◌, true, Option, none, some, List, [], ◌∷◌,
  arith, ℕ_discrete, String_discrete, lookup, insert, lookup-insert, GoMap, nat_key, string_key,
  length,
}
use text.Mathlib.TextEquality.{eq_iff}
use beaconprobe.Node.Host.{
  content, not_exist, Disk, Codec, key, bad_hex, decode_key, load_or_generate_key,
}
use beaconprobe.Node.Host.Keys.{IsFaithful, key_persists}

hex : List ℕ → List ℕ
hex [] = []
hex (b ∷ bs) = b / 16 ∷ b % 16 ∷ hex bs

unhex : List ℕ → Option (List ℕ)
unhex [] = some []
unhex (a ∷ []) = none
unhex (a ∷ b ∷ rest) = elim (unhex rest) [ none ↦ none | some bytes ↦ some ((a * 16 + b) ∷ bytes) ]

first_byte : List ℕ → Option ℕ
first_byte [] = none
first_byte (b ∷ bs) = some b

zeros : ℕ → List ℕ
zeros zero = []
zeros (suc n) = 0 ∷ zeros n

abbrev disk : Disk (GoMap String (List ℕ))
disk = record {
  read_file = λ s file. elim (lookup file s) [ none ↦ not_exist | some bytes ↦ content bytes ];
  write_file = λ s file bytes. (insert file bytes s, true);
}

abbrev codec : Codec ℕ
codec = record {
  to_ecdsa = first_byte;
  from_ecdsa = λ k. k ∷ zeros 31;
  hex_encode = hex;
  hex_decode = unhex;
}

unhex-hex : (bytes : List ℕ) → unhex (hex bytes) ≡ some bytes
unfolding unhex hex
unhex-hex [] = refl
unhex-hex (b ∷ bs) = ground (arith, unhex-hex bs)

length-hex : (bytes : List ℕ) → length (hex bytes) ≡ 2 * length bytes
unfolding hex
length-hex [] = refl
length-hex (b ∷ bs) = ground (arith, length-hex bs)

written :
    (s s' : GoMap String (List ℕ)) (file : String) (bytes : List ℕ)
    → disk.write_file s file bytes ≡ (s', true)
    → disk.read_file s' file ≡ content bytes
written s s' file bytes h = ground (arith, lookup-insert file file bytes s)

disk-IsFaithful : IsFaithful disk codec
unfolding first_byte zeros
disk-IsFaithful = record {
  reads_back = written;
  key_back = λ k. refl;
  key_length = λ k. refl;
  hex_back = unhex-hex;
  hex_length = length-hex;
}

-- A file that is neither a raw key nor hex.
odd_run :
    load_or_generate_key disk codec none "a.key" (("a.key", 1 ∷ []) ∷ [])
    ≡ (("a.key", 1 ∷ []) ∷ [], bad_hex)
unfolding load_or_generate_key decode_key unhex lookup String_discrete ℕ_discrete
odd_run = refl

named : ◌≢◌ {A = String} "a.key" ""
named = ground (arith, eq_iff "a.key" "")

absent : disk.read_file [] "a.key" ≡ not_exist
unfolding lookup
absent = refl

abbrev saved : GoMap String (List ℕ)
saved = insert "a.key" (hex (7 ∷ zeros 31)) []

key_persists_example :
    (load_or_generate_key disk codec (some 7) "a.key" [] ≡ (saved, key 7))
    × (load_or_generate_key disk codec none "a.key" saved ≡ (saved, key 7))
key_persists_example =
    key_persists disk codec "a.key" 7 [] saved none disk-IsFaithful named absent refl
