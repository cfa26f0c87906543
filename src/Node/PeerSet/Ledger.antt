-- ===== src/Node/PeerSet/Ledger.antt =====
-- The abstract view of node/sharedpeerset.go: who owns whom is a function, new peers go to the names
-- in turn, and the turns are counted without a bound. A history of calls gets the same answers from it.
use beaconprobe.Base.{
  ℕ, zero, suc, ◌+◌, ◌%◌, ◌≤◌, ◌<◌, String, ◌≡◌, refl, sym, ap, ◌∙◌, subst, inl, inr, Bool, true,
  Option, none, some, List, [], ◌∷◌, arith, lookup, insert, lookup-insert, insert-Distinct,
  Option-cases, nat_key, string_key, ◌==◌, if◌then◌else◌, length, get_elem?, get_or,
}
use beaconprobe.Node.PeerSet.{
  u64_mod, SharedPeerSet, IsValid, new_shared_peer_set, new-IsValid, assign_or_get, owner_of, claim,
  assign_or_get_fresh, assign_or_get_known,
}

-- The calls of the set's three methods, and what they answer.
pub data Query : Type 0 where
  assigns asks : String → Query
  claims : String → String → Query

pub data Reply : Type 0 where
  owned told : String → Reply
  claimed : String → Bool → Reply

answer : SharedPeerSet → Query → Option (SharedPeerSet × Reply)
answer s (assigns id) = elim (assign_or_get s id) [
  | none ↦ none
  | some (s', o) ↦ some (s', owned o)
]
answer s (asks id) = some (s, told (owner_of s id))
answer s (claims id inst) = let (s', o, mine) = claim s id inst in some (s', claimed o mine)

pub answers : List Query → SharedPeerSet → Option (SharedPeerSet × List Reply)
answers [] s = some (s, [])
answers (q ∷ qs) s = elim (answer s q) [
  | none ↦ none
  | some (s', r) ↦ elim (answers qs s') [ none ↦ none | some (t, rs) ↦ some (t, r ∷ rs) ]
]

pub record Ledger : Type 0 where
  pub owner : String → Option String
  pub turn : ℕ

abbrev pub blank : Ledger
blank = record { owner = λ p. none; turn = 0 }

-- A peer gets an owner; the others keep theirs.
abbrev gives : String → String → Ledger → String → Option String
gives id o l p = if p == id then some o else l.owner p

-- What the names say of one query.
unfoldable pub entry : List String → Ledger → Query → Ledger × Reply
entry names l (asks id) = (l, told (elim (l.owner id) [ none ↦ "" | some o ↦ o ]))
entry names l (claims id inst) = elim (l.owner id) [
  | some o ↦ (l, claimed o (o == inst))
  | none ↦ (record l { owner = gives id inst l }, claimed inst true)
]
entry names l (assigns id) = elim (l.owner id) [
  | some o ↦ (l, owned o)
  | none ↦
      let o = get_or names (l.turn % length names) "" in
      (record { owner = gives id o l; turn = suc l.turn }, owned o)
]

unfoldable pub entries : List String → List Query → Ledger → Ledger × List Reply
entries names [] l = (l, [])
entries names (q ∷ qs) l =
    let (l', r) = entry names l q in let (t, rs) = entries names qs l' in (t, r ∷ rs)

-- A set that stands for a ledger.
pub record Keeps (names : List String) (s : SharedPeerSet) (l : Ledger) : Type 0 where
  pub valid : IsValid s
  pub same_names : s.instances ≡ names
  pub same_turn : s.next_idx ≡ l.turn
  pub same_owners : (p : String) → lookup p s.assignments ≡ l.owner p

get_or-get_elem? :
    (xs : List String) (i : ℕ) (x d : String) → get_elem? xs i ≡ some x → get_or xs i d ≡ x
get_or-get_elem? [] i x d h = absurd (ground arith)
get_or-get_elem? (y ∷ xs) zero x d h = ground arith
get_or-get_elem? (y ∷ xs) (suc i) x d h = get_or-get_elem? xs i x d h

-- One query gets the ledger's reply, and the set stands for what the ledger then is.
abbrev Follows : List String → SharedPeerSet → Ledger → Query → Ledger × Reply → Type 0
Follows names s l q after =
    (s' : SharedPeerSet) × (answer s q ≡ some (s', after.1))
    × Keeps names s' after.0
    × (after.0.turn ≤ suc l.turn)

gives-insert :
    (s : SharedPeerSet) (l : Ledger) (id o : String)
    → ((p : String) → lookup p s.assignments ≡ l.owner p)
    → (p : String) → lookup p (insert id o s.assignments) ≡ gives id o l p
gives-insert s l id o h p = ground (arith, h p, lookup-insert p id o s.assignments)

entry-claims_new :
    (names : List String) (l : Ledger) (id inst : String)
    → l.owner id ≡ none
    → entry names l (claims id inst) ≡ (record l { owner = gives id inst l }, claimed inst true)
unfolding entry
entry-claims_new names l id inst e = rw (e, entry) refl

entry-claims_old :
    (names : List String) (l : Ledger) (id inst o : String)
    → l.owner id ≡ some o
    → entry names l (claims id inst) ≡ (l, claimed o (o == inst))
unfolding entry
entry-claims_old names l id inst o e = rw (e, entry) refl

claims-Follows :
    (names : List String) (s : SharedPeerSet) (l : Ledger) (id inst : String)
    → Keeps names s l
    → Follows names s l (claims id inst) (entry names l (claims id inst))
unfolding answer claim
claims-Follows names s l id inst k = elim (Option-cases (l.owner id)) [
  | inl e ↦
      let f : lookup id s.assignments ≡ none = k.same_owners id ∙ e in
      subst (Follows names s l (claims id inst)) (sym (entry-claims_new names l id inst e)) (
        record s { assignments = insert id inst s.assignments },
        rw (f, answer, claim) refl,
        record {
          valid = record {
            inhabited = k.valid.inhabited;
            in_range = k.valid.in_range;
            distinct = insert-Distinct id inst s.assignments k.valid.distinct;
          };
          same_names = k.same_names;
          same_turn = k.same_turn;
          same_owners = gives-insert s l id inst k.same_owners;
        },
        omega arith,
      )
  | inr (o, e) ↦
      let f : lookup id s.assignments ≡ some o = k.same_owners id ∙ e in
      subst (Follows names s l (claims id inst)) (sym (entry-claims_old names l id inst o e))
        (s, rw (f, answer, claim) refl, k, omega arith)
]

asks-Follows :
    (names : List String) (s : SharedPeerSet) (l : Ledger) (id : String)
    → Keeps names s l
    → Follows names s l (asks id) (entry names l (asks id))
unfolding answer entry owner_of
asks-Follows names s l id k = (
  s,
  ap (λ o. some (s, told (elim o as (λ _. String) [ none ↦ "" | some o ↦ o ]))) (k.same_owners id),
  k,
  omega arith,
)

entry-assigns_new :
    (names : List String) (l : Ledger) (id : String)
    → l.owner id ≡ none
    → entry names l (assigns id) ≡ (
      record { owner = gives id (get_or names (l.turn % length names) "") l; turn = suc l.turn },
      owned (get_or names (l.turn % length names) ""),
    )
unfolding entry
entry-assigns_new names l id e = rw (e, entry) refl

entry-assigns_old :
    (names : List String) (l : Ledger) (id o : String)
    → l.owner id ≡ some o
    → entry names l (assigns id) ≡ (l, owned o)
unfolding entry
entry-assigns_old names l id o e = rw (e, entry) refl

-- The instance whose turn it is.
turn_of :
    (names : List String) (s : SharedPeerSet) (l : Ledger) (o : String)
    → Keeps names s l
    → get_elem? s.instances (s.next_idx % length s.instances) ≡ some o
    → get_or names (l.turn % length names) "" ≡ o
turn_of names s l o k at =
    subst (λ t. get_or names (t % length names) "" ≡ o) k.same_turn
      (subst (λ ns. get_or ns (s.next_idx % length ns) "" ≡ o) k.same_names
        (get_or-get_elem? s.instances (s.next_idx % length s.instances) o "" at))

assigns-Follows :
    (names : List String) (s : SharedPeerSet) (l : Ledger) (id : String)
    → Keeps names s l
    → suc l.turn < u64_mod
    → Follows names s l (assigns id) (entry names l (assigns id))
unfolding answer
assigns-Follows names s l id k room = elim (Option-cases (l.owner id)) [
  | inl e ↦
      let (o, at, done) = assign_or_get_fresh s id k.valid (k.same_owners id ∙ e) in
      subst (Follows names s l (assigns id)) (sym (entry-assigns_new names l id e)) (
        subst
          (λ x.
            Follows names s l (assigns id)
              (record { owner = gives id x l; turn = suc l.turn }, owned x))
          (sym (turn_of names s l o k at))
          (
            record s {
              assignments = insert id o s.assignments;
              next_idx = (s.next_idx + 1) % u64_mod;
            },
            rw (done, answer) refl,
            record {
              valid = record {
                inhabited = k.valid.inhabited;
                in_range = omega arith;
                distinct = insert-Distinct id o s.assignments k.valid.distinct;
              };
              same_names = k.same_names;
              same_turn = omega (arith, k.same_turn);
              same_owners = gives-insert s l id o k.same_owners;
            },
            omega arith,
          ))
  | inr (o, e) ↦
      subst (Follows names s l (assigns id)) (sym (entry-assigns_old names l id o e))
        (s, rw (assign_or_get_known s id o (k.same_owners id ∙ e), answer) refl, k, omega arith)
]

query-Follows :
    (names : List String) (s : SharedPeerSet) (l : Ledger) (q : Query)
    → Keeps names s l
    → suc l.turn < u64_mod
    → Follows names s l q (entry names l q)
query-Follows names s l (assigns id) k room = assigns-Follows names s l id k room
query-Follows names s l (asks id) k room = asks-Follows names s l id k
query-Follows names s l (claims id inst) k room = claims-Follows names s l id inst k

answers-Keeps :
    (names : List String) (qs : List Query) (s : SharedPeerSet) (l : Ledger)
    → Keeps names s l
    → l.turn + length qs < u64_mod
    → (s' : SharedPeerSet) × (answers qs s ≡ some (s', (entries names qs l).1))
      × Keeps names s' (entries names qs l).0
unfolding answers entries
answers-Keeps names [] s l k room = (s, refl, k)
answers-Keeps names (q ∷ qs) s l k room =
    let (t, replied, kept, turn) = query-Follows names s l q k (omega arith) in
    let (s', ran, rest) = answers-Keeps names qs t (entry names l q).0 kept (omega arith) in
    (s', rw (replied, answers) (rw ran refl), rest)

-- The shared peer set refines the ledger: from a new set of one instance or more, every history of
-- fewer than 2^64 calls of AssignOrGet, Claim and Owner runs without a panic and gets the replies of
-- the ledger, in which a peer belongs to whoever claimed it first, or to the instance whose turn it
-- was when it was first assigned; and the set ends with the owners and the turn of the ledger.
pub answers_refine :
    (names : List String) (qs : List Query) (s : SharedPeerSet)
    → new_shared_peer_set names ≡ some s
    → length qs < u64_mod
    → (s' : SharedPeerSet) × (answers qs s ≡ some (s', (entries names qs blank).1))
      × Keeps names s' (entries names qs blank).0
unfolding new_shared_peer_set lookup
answers_refine [] qs s made room = absurd (ground arith)
answers_refine (n ∷ ns) qs s made room =
    let (valid, names, empty) = new-IsValid (n ∷ ns) s made in
    answers-Keeps (n ∷ ns) qs s blank
      (record {
        valid = valid;
        same_names = names;
        same_turn = ground (arith, made);
        same_owners = λ p. rw (empty, lookup) refl;
      })
      (omega arith)
