-- ===== src/Node/PeerFinder/Pulls.antt =====
-- What `GetPeers` hands to a peer manager.
use beaconprobe.Base.{
  ℕ, zero, suc, min, String, ◌≡◌, refl, sym, ap, ◌∙◌, subst, ◌≢◌, inl, inr, Bool, false, Option,
  none, some, List, [], ◌∷◌, map, arith, lookup, Distinct, Bool-cases, nat_key, string_key, length,
  take, select, not, All, Has, here, there, length-take, All_Has,
}
use mathlib.Core.List.{Permᴰ}
use beaconprobe.Node.PeerFinder.{
  PeerFinder, AddrInfo, Peers, IsSorted, get_peers, eligible, skipped, info_at,
}

-- What math/rand documents of `Shuffle`: it permutes.
abbrev pub Shuffles : (List String → List String) → Type 0
Shuffles shuffle = (xs : List String) → Permᴰ (shuffle xs) xs

length-Permᴰ : {xs ys : List String} → Permᴰ xs ys → length xs ≡ length ys
length-Permᴰ Permᴰ.nil = refl
length-Permᴰ (Permᴰ.cons e d) = ap suc (length-Permᴰ d)
length-Permᴰ (Permᴰ.swap e f) = refl
length-Permᴰ (Permᴰ.trans d e) = length-Permᴰ d ∙ length-Permᴰ e

pub All-Permᴰ : (P : String → Type 0) {xs ys : List String} → Permᴰ xs ys → All P ys → All P xs
All-Permᴰ P Permᴰ.nil a = a
All-Permᴰ P (Permᴰ.cons e d) a = (subst P (sym e) a.0, All-Permᴰ P d a.1)
All-Permᴰ P (Permᴰ.swap e f) a = (subst P (sym e) a.1.0, (subst P (sym f) a.0, a.1.1))
All-Permᴰ P (Permᴰ.trans d e) a = All-Permᴰ P d (All-Permᴰ P e a)

-- No ID stands twice.
abbrev pub AllDiffer : List String → Type 0
AllDiffer [] = Unit
AllDiffer (x ∷ xs) = All (λ y. x ≢ y) xs × AllDiffer xs

AllDiffer-Permᴰ : {xs ys : List String} → Permᴰ xs ys → AllDiffer ys → AllDiffer xs
AllDiffer-Permᴰ Permᴰ.nil a = a
AllDiffer-Permᴰ (Permᴰ.cons {a = x} e d) a =
    (All-Permᴰ (λ y. x ≢ y) d (rw e a.0), AllDiffer-Permᴰ d a.1)
AllDiffer-Permᴰ (Permᴰ.swap {l = l} e f) a = (
  (λ p. a.0.0 (sym f ∙ sym p ∙ e), subst (λ z. All (λ y. z ≢ y) l) (sym e) a.1.0),
  (subst (λ z. All (λ y. z ≢ y) l) (sym f) a.0.1, a.1.1),
)
AllDiffer-Permᴰ (Permᴰ.trans d e) a = AllDiffer-Permᴰ d (AllDiffer-Permᴰ e a)

All-take : (P : String → Type 0) (n : ℕ) (xs : List String) → All P xs → All P (take n xs)
All-take P zero xs a = tt
All-take P (suc n) [] a = tt
All-take P (suc n) (x ∷ xs) a = (a.0, All-take P n xs a.1)

AllDiffer-take : (n : ℕ) (xs : List String) → AllDiffer xs → AllDiffer (take n xs)
AllDiffer-take zero xs a = tt
AllDiffer-take (suc n) [] a = tt
AllDiffer-take (suc n) (x ∷ xs) a = (All-take _ n xs a.0, AllDiffer-take n xs a.1)

-- An eligible ID is stored and not skipped.
abbrev Eligible : Option (String → Bool) → Peers → String → Type 0
Eligible skip ps id = (skipped skip id ≡ false) × ((ai : AddrInfo) × (lookup id ps ≡ some ai))

cons_found :
    (ps : Peers) (b id : String) (bi ai : AddrInfo)
    → lookup b ps ≡ none
    → lookup id ps ≡ some ai
    → lookup id ((b, bi) ∷ ps) ≡ some ai
unfolding lookup
cons_found ps b id bi ai d h = ground arith

ne_of_found :
    (ps : Peers) (b id : String) (ai : AddrInfo)
    → lookup b ps ≡ none
    → lookup id ps ≡ some ai
    → b ≢ id
ne_of_found ps b id ai d h = ground arith

Eligible-later :
    (skip : Option (String → Bool)) (ps : Peers) (b : String) (bi : AddrInfo) (ids : List String)
    → lookup b ps ≡ none
    → All (Eligible skip ps) ids
    → All (Eligible skip ((b, bi) ∷ ps)) ids × All (λ y. b ≢ y) ids
Eligible-later skip ps b bi [] d a = (tt, tt)
Eligible-later skip ps b bi (id ∷ ids) d a =
    let (ai, found) = a.0.1 in
    let (rest, ne) = Eligible-later skip ps b bi ids d a.1 in
    (((a.0.0, (ai, cons_found ps b id bi ai d found)), rest), (ne_of_found ps b id ai d found, ne))

found_first : (ps : Peers) (id : String) (ai : AddrInfo) → lookup id ((id, ai) ∷ ps) ≡ some ai
unfolding lookup
found_first ps id ai = ground arith

eligible_sound :
    (skip : Option (String → Bool)) (ps : Peers)
    → Distinct ps
    → All (Eligible skip ps) (eligible skip ps) × AllDiffer (eligible skip ps)
unfolding eligible
eligible_sound skip [] d = (tt, tt)
eligible_sound skip ((id, ai) ∷ ps) d =
    let (es, differ) = eligible_sound skip ps d.1 in
    let (later, ne) = Eligible-later skip ps id ai (eligible skip ps) d.0 es in
    elim (Bool-cases (skipped skip id)) [
      | inl out ↦ rw out (later, differ)
      | inr stays ↦ rw stays (((stays, (ai, found_first ps id ai)), later), (ne, differ))
    ]

-- An ID that is stored and that `skip` does not reject is among the eligible ones, which `GetPeers`
-- shuffles.
eligible_complete :
    (skip : Option (String → Bool)) (ps : Peers) (id : String) (ai : AddrInfo)
    → lookup id ps ≡ some ai
    → skipped skip id ≡ false
    → Has id (eligible skip ps)
unfolding eligible lookup
eligible_complete skip [] id ai h k = absurd (ground arith)
eligible_complete skip ((b, bi) ∷ ps) id ai h k = elim (string_key.dec id b) [
  | yes p ↦ rw (← p, k) here
  | no p ↦
      let rest = eligible_complete skip ps id ai (ground arith) k in
      elim (Bool-cases (skipped skip b)) [
        | inl out ↦ rw out rest
        | inr stays ↦ rw stays (there rest)
      ]
]

-- There are as many eligible IDs as stored peers that `skip` does not reject.
abbrev pub unskipped : Option (String → Bool) → Peers → Peers
unskipped none ps = ps
unskipped (some skip) ps = select (λ e. not (skip e.0)) ps

length-eligible :
    (skip : Option (String → Bool)) (ps : Peers)
    → length (eligible skip ps) ≡ length (unskipped skip ps)
unfolding eligible
length-eligible none [] = refl
length-eligible none ((id, ai) ∷ ps) = ap suc (length-eligible none ps)
length-eligible (some skip) [] = refl
length-eligible (some skip) ((id, ai) ∷ ps) = ground (arith, length-eligible (some skip) ps)

-- A peer that an instance may be handed: its own, stored under its ID, and not skipped.
abbrev pub MayPull : PeerFinder → String → Option (String → Bool) → Peers → AddrInfo → Type 0
MayPull f inst skip ps ai =
    (lookup ai.id ps ≡ some ai)
    × (lookup ai.id f.peer_set.assignments ≡ some inst)
    × (skipped skip ai.id ≡ false)

may_pull :
    (f : PeerFinder) (inst : String) (skip : Option (String → Bool)) (ps : Peers) (id : String)
    (ai : AddrInfo)
    → ai.id ≡ id
    → lookup id ps ≡ some ai
    → lookup id f.peer_set.assignments ≡ some inst
    → skipped skip id ≡ false
    → MayPull f inst skip ps ai
may_pull f inst skip ps id ai e found owner k = (
  ap (λ j. lookup j ps) e ∙ found,
  ap (λ j. lookup j f.peer_set.assignments) e ∙ owner,
  ap (skipped skip) e ∙ k,
)

abbrev pub ids_of : List AddrInfo → List String
ids_of = map (λ ai. ai.id)

pulled :
    (f : PeerFinder) (inst : String) (skip : Option (String → Bool)) (ps : Peers)
    → IsSorted f
    → lookup inst f.peers ≡ some ps
    → (ids : List String) → All (Eligible skip ps) ids
    → All (MayPull f inst skip ps) (map (info_at ps) ids)
      × (ids_of (map (info_at ps) ids) ≡ ids)
      × (length (map (info_at ps) ids) ≡ length ids)
pulled f inst skip ps w h [] a = (tt, refl, refl)
pulled f inst skip ps w h (id ∷ ids) a =
    let (may, same, len) = pulled f inst skip ps w h ids a.1 in
    let (ai, found) = a.0.1 in
    let (own_id, owner) = w.sorted inst id ps ai h found in
    let at : info_at ps id ≡ ai = rw (found, info_at) in
    (
      (rw at (may_pull f inst skip ps id ai own_id found owner a.0.0), may),
      rw at (cc (own_id, same)),
      omega arith,
    )

-- `GetPeers` for an instance with a map, from a finder that has its peers sorted and with any
-- shuffle that permutes: it returns `count` peers, or as many as the instance stores and does not skip
-- if there are fewer; each is stored for the instance, owned by it and not skipped, and no peer comes twice.
pub get_peers_pulls :
    (shuffle : List String → List String) (f : PeerFinder) (inst : String) (count : ℕ)
    (skip : Option (String → Bool)) (ps : Peers)
    → Shuffles shuffle
    → IsSorted f
    → lookup inst f.peers ≡ some ps
    → let got = get_peers shuffle f inst count skip in
      All (MayPull f inst skip ps) got
      × AllDiffer (ids_of got)
      × (length got ≡ min count (length (unskipped skip ps)))
unfolding get_peers
get_peers_pulls shuffle f inst count skip ps sh w h =
    let ids = eligible skip ps in
    let n = min count (length ids) in
    let (sound, differ) = eligible_sound skip ps (w.no_double inst ps h) in
    let chosen = take n (shuffle ids) in
    let ok = All-take (Eligible skip ps) n (shuffle ids) (All-Permᴰ _ (sh ids) sound) in
    let (may, same, len) = pulled f inst skip ps w h chosen ok in
    rw (h, get_peers)
      (
        may,
        rw same (AllDiffer-take n (shuffle ids) (AllDiffer-Permᴰ (sh ids) differ)),
        omega (
          arith,
          len,
          length-take n (shuffle ids),
          length-Permᴰ (sh ids),
          length-eligible skip ps,
        ),
      )

-- From one finder, whatever their shuffles, counts and skips, two instances with different names
-- are never handed the same peer.
pub pulls_disjoint :
    (sa sb : List String → List String) (f : PeerFinder) (a b : String) (na nb : ℕ)
    (ka kb : Option (String → Bool)) (pa pb : Peers) (x y : AddrInfo)
    → Shuffles sa
    → Shuffles sb
    → IsSorted f
    → lookup a f.peers ≡ some pa
    → lookup b f.peers ≡ some pb
    → Has x (get_peers sa f a na ka)
    → Has y (get_peers sb f b nb kb)
    → a ≢ b
    → x.id ≢ y.id
pulls_disjoint sa sb f a b na nb ka kb pa pb x y pma pmb w ha hb hx hy ne same =
    let (may_a, _, _) = get_peers_pulls sa f a na ka pa pma w ha in
    let (may_b, _, _) = get_peers_pulls sb f b nb kb pb pmb w hb in
    let (_, own_a, _) = All_Has (MayPull f a ka pa) may_a hx in
    let (_, own_b, _) = All_Has (MayPull f b kb pb) may_b hy in
    ne (one_owner f x.id y.id a b same own_a own_b)
  where
    one_owner :
        (f : PeerFinder) (p q a b : String)
        → p ≡ q
        → lookup p f.peer_set.assignments ≡ some a
        → lookup q f.peer_set.assignments ≡ some b
        → a ≡ b
    one_owner f p q a b e g h = ground arith
