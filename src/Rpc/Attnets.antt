-- ===== src/Rpc/Attnets.antt =====
-- `MakeAttnetsBytes` of rpc/rpc.go and `hasSubnetOverlap` of discovery/discovery.go: the one writes
-- the bit field that the other reads. A byte is a number below 256, a subnet ID a uint64.
use beaconprobe.Base.{
  ℕ, zero, suc, ◌/◌, ◌%◌, ◌<◌, ◌≡◌, refl, sym, ap, ◌∙◌, ◌≢◌, inl, inr, Bool, true, false, ◌&&◌,
  ◌||◌, Option, none, some, List, [], ◌∷◌, arith, ℕ_discrete, Bool-cases, nat_key, string_key, ◌==◌,
  ltb, if◌then◌else◌, tests, ==_refl, ==_ne, length, set, any, All, get_or, length-set,
  get_or-set_self, get_or-set_ne,
}
use beaconprobe.Base.Bytes.{test_bit, set_bit, set_bit-lt, test_bit-set_bit, test_bit-zero}

-- One round of the loop of `MakeAttnetsBytes`.
unfoldable pub mark_subnet : List ℕ → ℕ → List ℕ
mark_subnet bv id =
    if ltb id 64 then set bv (id / 8) (set_bit (get_or bv (id / 8) 0) (id % 8)) else bv

unfoldable pub mark_all : List ℕ → List ℕ → List ℕ
mark_all bv [] = bv
mark_all bv (id ∷ ids) = mark_all (mark_subnet bv id) ids

abbrev zeroed : List ℕ
zeroed = 0 ∷ 0 ∷ 0 ∷ 0 ∷ 0 ∷ 0 ∷ 0 ∷ 0 ∷ []

unfoldable pub make_attnets_bytes : List ℕ → List ℕ
unfolding mark_all mark_subnet
make_attnets_bytes ids = mark_all zeroed ids

-- The test of one round of the loop of `hasSubnetOverlap`.
unfoldable pub has_subnet : List ℕ → ℕ → Bool
has_subnet attnets id =
    ltb id 64 && (ltb (id / 8) (length attnets) && test_bit (get_or attnets (id / 8) 0) (id % 8))

-- `none` is a record with no such entry.
unfoldable pub has_subnet_overlap : Option (List ℕ) → List ℕ → Bool
unfolding has_subnet
has_subnet_overlap none ids = false
has_subnet_overlap (some attnets) ids = any (has_subnet attnets) ids

-- Eight bytes.
pub record IsField (bv : List ℕ) : Type 0 where
  pub eight : length bv ≡ 8
  pub bytes : (i : ℕ) → get_or bv i 0 < 256

in_field : (bv : List ℕ) (id : ℕ) → IsField bv → ltb id 64 ≡ true → id / 8 < length bv
in_field bv id f low = omega (tests, f.eight)

mark-IsField : (bv : List ℕ) (id : ℕ) → IsField bv → IsField (mark_subnet bv id)
unfolding mark_subnet
mark-IsField bv id f = elim (Bool-cases (ltb id 64)) [
  | inr high ↦ rw high f
  | inl low ↦
      let byte = set_bit (get_or bv (id / 8) 0) (id % 8) in
      rw low (record {
        eight = length-set bv (id / 8) byte ∙ f.eight;
        bytes = λ i. elim (ℕ_discrete (id / 8) i) [
          | yes e ↦ rw (← e) (
              rw (get_or-set_self bv (id / 8) byte 0 (in_field bv id f low))
                (set_bit-lt (get_or bv (id / 8) 0) (id % 8) (f.bytes (id / 8)) (omega arith)))
          | no ne ↦ rw (get_or-set_ne bv (id / 8) i byte 0 ne) (f.bytes i)
        ];
      })
]

-- The byte of `w` after `id` is marked.
byte_after :
    (bv : List ℕ) (id w : ℕ)
    → IsField bv
    → ltb id 64 ≡ true
    → test_bit
        (get_or (set bv (id / 8) (set_bit (get_or bv (id / 8) 0) (id % 8))) (w / 8) 0)
        (w % 8)
      ≡ ((w == id) || test_bit (get_or bv (w / 8) 0) (w % 8))
byte_after bv id w f low =
    let byte = set_bit (get_or bv (id / 8) 0) (id % 8) in
    elim (ℕ_discrete (id / 8) (w / 8)) [
      | yes e ↦ rw (← e) (
          ap (λ b. test_bit b (w % 8)) (get_or-set_self bv (id / 8) byte 0 (in_field bv id f low))
          ∙ test_bit-set_bit (get_or bv (id / 8) 0) (id % 8) (w % 8) (f.bytes (id / 8))
              (omega arith) (omega arith)
          ∙ ap (λ b. b || test_bit (get_or bv (id / 8) 0) (w % 8)) (same_place id w e))
      | no ne ↦
          ap (λ b. test_bit b (w % 8)) (get_or-set_ne bv (id / 8) (w / 8) byte 0 ne)
          ∙ ap (λ b. b || test_bit (get_or bv (w / 8) 0) (w % 8)) (other_place id w ne)
    ]
  where
    same_place : (id w : ℕ) → id / 8 ≡ w / 8 → (id % 8 == w % 8) ≡ (w == id)
    same_place id w e = elim (ℕ_discrete w id) [
      | yes p ↦ rw p (==_refl {A = ℕ} (id % 8) ∙ sym (==_refl {A = ℕ} id))
      | no ne ↦ ==_ne {A = ℕ} (id % 8) (w % 8) (λ q. ne (omega arith)) ∙ sym (==_ne {A = ℕ} w id ne)
    ]

    other_place : (id w : ℕ) → id / 8 ≢ w / 8 → false ≡ (w == id)
    other_place id w ne = sym (==_ne {A = ℕ} w id (λ q. ne (ap (λ (k : ℕ). k / 8) (sym q))))

mark-has_subnet :
    (bv : List ℕ) (id w : ℕ)
    → IsField bv
    → has_subnet (mark_subnet bv id) w ≡ ((ltb w 64 && w == id) || has_subnet bv w)
unfolding mark_subnet has_subnet
mark-has_subnet bv id w f = elim (Bool-cases (ltb id 64)) [
  | inr high ↦ rw high (ground arith)
  | inl low ↦
      let byte = set_bit (get_or bv (id / 8) 0) (id % 8) in
      rw low (ground (arith, byte_after bv id w f low, length-set bv (id / 8) byte, f.eight))
]

mark_all-has_subnet :
    (bv : List ℕ) (ids : List ℕ) (w : ℕ)
    → IsField bv
    → has_subnet (mark_all bv ids) w ≡ ((ltb w 64 && any (◌==◌ w) ids) || has_subnet bv w)
unfolding mark_all
mark_all-has_subnet bv [] w f = ground arith
mark_all-has_subnet bv (id ∷ ids) w f = ground (
  arith,
  mark_all-has_subnet (mark_subnet bv id) ids w (mark-IsField bv id f),
  mark-has_subnet bv id w f,
)

zeroed_byte : (xs : List ℕ) (i : ℕ) → All (λ x. x ≡ 0) xs → get_or xs i 0 ≡ 0
zeroed_byte [] i h = refl
zeroed_byte (x ∷ xs) zero h = h.0
zeroed_byte (x ∷ xs) (suc i) h = zeroed_byte xs i h.1

zeroed-IsField : IsField zeroed
zeroed-IsField = record {
  eight = refl;
  bytes = λ i. rw (zeroed_byte zeroed i (omega arith)) (omega arith);
}

zeroed_empty : (w : ℕ) → has_subnet zeroed w ≡ false
unfolding has_subnet
zeroed_empty w =
    let off : test_bit (get_or zeroed (w / 8) 0) (w % 8) ≡ false =
      ap (λ b. test_bit b (w % 8)) (zeroed_byte zeroed (w / 8) (omega arith))
      ∙ test_bit-zero (w % 8) (omega arith) in
    rw off (ground arith)

any_cong : (f g : ℕ → Bool) (xs : List ℕ) → ((x : ℕ) → f x ≡ g x) → any f xs ≡ any g xs
any_cong f g [] h = refl
any_cong f g (x ∷ xs) h = ground (arith, h x, any_cong f g xs h)

-- Of a bit field that `MakeAttnetsBytes` made from any list of IDs, `hasSubnetOverlap` finds out
-- exactly whether one of the wanted IDs is below 64 and in the list; an ID from 64 on is never written
-- and never found.
pub attnets_overlap :
    (ids wanted : List ℕ)
    → has_subnet_overlap (some (make_attnets_bytes ids)) wanted
      ≡ any (λ w. ltb w 64 && any (◌==◌ w) ids) wanted
unfolding has_subnet_overlap make_attnets_bytes
attnets_overlap ids wanted =
    any_cong (has_subnet (mark_all zeroed ids)) (λ w. ltb w 64 && any (◌==◌ w) ids) wanted
      λ w. ground (arith, mark_all-has_subnet zeroed ids w zeroed-IsField, zeroed_empty w)

mark_all-IsField : (bv ids : List ℕ) → IsField bv → IsField (mark_all bv ids)
unfolding mark_all
mark_all-IsField bv [] f = f
mark_all-IsField bv (id ∷ ids) f = mark_all-IsField (mark_subnet bv id) ids (mark-IsField bv id f)

-- Whatever the IDs, the bit field has eight bytes, each below 256.
attnets-IsField :
    (ids : List ℕ) (i : ℕ)
    → (length (make_attnets_bytes ids) ≡ 8) × (get_or (make_attnets_bytes ids) i 0 < 256)
unfolding make_attnets_bytes
attnets-IsField ids i = let f = mark_all-IsField zeroed ids zeroed-IsField in (f.eight, f.bytes i)
