-- ===== src/Main/Wires/Siblings.antt =====
-- The gater that `runProbe` of main.go gives to an instance.
use beaconprobe.Base.{
  ℕ, zero, suc, ◌+◌, String, ◌≡◌, refl, sym, ap, subst, ◌≢◌, Bool, true, false, some, List, [], ◌∷◌,
  arith, ℕ_discrete, nat_key, string_key, get_elem?, Has, here, there,
}
use beaconprobe.Main.Probe.{sibling_ids}
use beaconprobe.Node.PeerSet.{SharedPeerSet}
use beaconprobe.Node.Gater.{
  SiblingGater, new_sibling_gater, is_sibling, intercept_peer_dial, intercept_secured,
  siblings_refused, is_sibling-new,
}

sibling_ids_own :
    (i j : ℕ) (x : String) (ids : List String)
    → j ≡ i
    → sibling_ids i j (x ∷ ids) ≡ sibling_ids i (suc j) ids
unfolding sibling_ids
sibling_ids_own i j x ids e = ground arith

sibling_ids_other :
    (i j : ℕ) (x : String) (ids : List String)
    → j ≢ i
    → sibling_ids i j (x ∷ ids) ≡ x ∷ sibling_ids i (suc j) ids
unfolding sibling_ids
sibling_ids_other i j x ids ne = ground arith

sibling_ids-Has :
    (i j k : ℕ) (ids : List String) (id : String)
    → get_elem? ids k ≡ some id
    → j + k ≢ i
    → Has id (sibling_ids i j ids)
sibling_ids-Has i j k [] id h ne = absurd (ground arith)
sibling_ids-Has i j zero (x ∷ ids) id h ne =
    subst (Has id) (sym (sibling_ids_other i j x ids (λ e. ne (omega arith))))
      (subst (λ y. Has id (y ∷ sibling_ids i (suc j) ids)) (ground arith) here)
sibling_ids-Has i j (suc k) (x ∷ ids) id h ne =
    let later = sibling_ids-Has i (suc j) k ids id h (λ e. ne (omega arith)) in
    elim (ℕ_discrete j i) [
      | yes e ↦ subst (Has id) (sym (sibling_ids_own i j x ids e)) later
      | no d ↦ subst (Has id) (sym (sibling_ids_other i j x ids d)) (there later)
    ]

-- An ID at an index other than i, the first of which is j.
abbrev OtherId : ℕ → ℕ → List String → String → Type 0
OtherId i j ids id = (k : ℕ) × (j + k ≢ i) × (get_elem? ids k ≡ some id)

sibling_ids_only :
    (i j : ℕ) (ids : List String) (id : String) → Has id (sibling_ids i j ids) → OtherId i j ids id
unfolding sibling_ids
sibling_ids_only i j [] id h = elim h [ ]
sibling_ids_only i j (x ∷ ids) id h = elim (ℕ_discrete j i) [
  | yes e ↦
      later (sibling_ids_only i (suc j) ids id (subst (Has id) (sibling_ids_own i j x ids e) h))
  | no d ↦
      first d (sibling_ids_only i (suc j) ids id) x refl
        (subst (Has id) (sibling_ids_other i j x ids d) h)
]
  where
    later : OtherId i (suc j) ids id → OtherId i j (x ∷ ids) id
    later (k, ne, e) = (suc k, λ f. ne (omega arith), e)

    first :
        j ≢ i
        → (Has id (sibling_ids i (suc j) ids) → OtherId i (suc j) ids id)
        → (y : String) → x ≡ y
        → Has id (y ∷ sibling_ids i (suc j) ids)
        → OtherId i j (x ∷ ids) id
    first d rest y e here = (0, λ f. d (omega arith), ap some e)
    first d rest y e (there h) = later (rest h)

-- The gater of the i-th instance refuses exactly the IDs of the other instances, in both directions
-- and without a claim.
pub record Guards (name : String) (i : ℕ) (ids : List String) (g : SiblingGater) : Type 0 where
  pub named : g.my_name ≡ name
  pub refuses :
      (j : ℕ) (id : String) (outbound : Bool) (s : SharedPeerSet)
      → j ≢ i
      → get_elem? ids j ≡ some id
      → (intercept_peer_dial g id ≡ false) × (intercept_secured g outbound id s ≡ (s, false))
  pub only_siblings :
      (id : String) → is_sibling g id ≡ true → (j : ℕ) × (j ≢ i) × (get_elem? ids j ≡ some id)

pub new_sibling_gater-Guards :
    (name : String) (i : ℕ) (ids : List String)
    → Guards name i ids (new_sibling_gater name (sibling_ids i 0 ids))
unfolding new_sibling_gater
new_sibling_gater-Guards name i ids = record {
  named = refl;
  refuses = λ j id outbound s ne h.
      siblings_refused name (sibling_ids i 0 ids) id outbound s
        (sibling_ids-Has i 0 j ids id h (λ e. ne (omega arith)));
  only_siblings = λ id h.
      let (k, ne, e) =
        sibling_ids_only i 0 ids id (is_sibling-new name (sibling_ids i 0 ids) id h) in
      (k, λ f. ne (omega arith), e);
}
