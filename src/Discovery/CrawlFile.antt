-- ===== src/Discovery/CrawlFile.antt =====
-- `crawlFileWriter` of discovery/discovery.go: the ENRs of the peers that connect, each peer once.
use beaconprobe.Base.{
  String, ◌≡◌, refl, sym, ◌∙◌, ap, ◌≢◌, inl, inr, Bool, true, false, none, some, List, [], ◌∷◌,
  ◌++◌, map, arith, lookup, insert, delete, lookup-insert, lookup-delete, GoMap, Distinct,
  insert-Distinct, delete_absent, Option-cases, nat_key, string_key, ◌==◌, if◌then◌else◌, length,
  All, length-append, All-map, All-append,
}
use mathlib.Core.List.{append_assoc, append-nil}
use beaconprobe.Node.PeerFinder.Pulls.{AllDiffer}

-- The lines of the file stand with the peers that they are for; flushing and closing the file are left
-- out.
pub record CrawlFileWriter : Type 0 where
  pub seen : GoMap String (Unit {0})
  pub pending : GoMap String String
  pub lines : List (String × String)

-- The file is opened to append: the lines that it has stay, and nothing of them is read.
abbrev pub new_crawl_file_writer : List (String × String) → CrawlFileWriter
new_crawl_file_writer old = record { seen = []; pending = []; lines = old }

abbrev pub holds : {V : Type 0} → String → GoMap String V → Bool
holds id m = elim (lookup id m) [ none ↦ false | some _ ↦ true ]

unfoldable pub has_peer : CrawlFileWriter → String → Bool
has_peer c id = if holds id c.seen then true else holds id c.pending

unfoldable pub register_enr : CrawlFileWriter → String → String → CrawlFileWriter
register_enr c id enr = record c { pending = insert id enr c.pending }

unfoldable pub write_line : CrawlFileWriter → String → String → CrawlFileWriter
write_line c id enr = elim (lookup id c.seen) [
  | some _ ↦ c
  | none ↦ record c { seen = insert id tt c.seen; lines = c.lines ++ (id, enr) ∷ [] }
]

unfoldable pub write_connected : CrawlFileWriter → String → CrawlFileWriter
unfolding write_line
write_connected c id = elim (lookup id c.pending) [
  | none ↦ c
  | some enr ↦ write_line (record c { pending = delete id c.pending }) id enr
]

-- Another peer's connection, or another registration, never makes the writer forget a peer.
pub has_peer-register_enr :
    (c : CrawlFileWriter) (id enr q : String)
    → has_peer (register_enr c id enr) q ≡ (if q == id then true else has_peer c q)
unfolding has_peer register_enr
has_peer-register_enr c id enr q = ground (arith, lookup-insert q id enr c.pending)

pub has_peer-write_connected :
    (c : CrawlFileWriter) (id q : String) → has_peer (write_connected c id) q ≡ has_peer c q
unfolding has_peer write_connected
has_peer-write_connected c id q =
    ground (arith, lookup-delete q id c.pending, lookup-insert q id tt c.seen)

pub data Call : Type 0 where
  registers : String → String → Call
  connects : String → Call

unfoldable pub calls : List Call → CrawlFileWriter → CrawlFileWriter
calls [] c = c
calls (registers id enr ∷ cs) c = calls cs (register_enr c id enr)
calls (connects id ∷ cs) c = calls cs (write_connected c id)

abbrev pub ids_in : List (String × String) → List String
ids_in = map (λ l. l.0)

abbrev IsSeen : GoMap String (Unit {0}) → String → Type 0
IsSeen seen id = lookup id seen ≡ some tt

record IsOnce (old : List (String × String)) (c : CrawlFileWriter) : Type 0 where
  new : List (String × String)
  appended : c.lines ≡ old ++ new
  differ : AllDiffer (ids_in new)
  seen_all : All (IsSeen c.seen) (ids_in new)
  distinct : Distinct c.seen
  as_many : length new ≡ length c.seen

pub differ_snoc :
    (xs : List String) (x : String) → AllDiffer xs → All (λ y. y ≢ x) xs → AllDiffer (xs ++ x ∷ [])
differ_snoc [] x a b = (tt, tt)
differ_snoc (y ∷ xs) x a b =
    (All-append (λ z. y ≢ z) xs (x ∷ []) a.0 (b.0, tt), differ_snoc xs x a.1 b.1)

ids_in-append : (xs ys : List (String × String)) → ids_in (xs ++ ys) ≡ ids_in xs ++ ids_in ys
ids_in-append [] ys = refl
ids_in-append (x ∷ xs) ys = ap (◌∷◌ x.0) (ids_in-append xs ys)

seen_ne :
    (seen : GoMap String (Unit {0})) (id q : String)
    → lookup id seen ≡ none
    → IsSeen seen q
    → q ≢ id
seen_ne seen id q h k = ground arith

IsSeen-later :
    (seen : GoMap String (Unit {0})) (id q : String) → IsSeen seen q → IsSeen (insert id tt seen) q
IsSeen-later seen id q h = ground (arith, lookup-insert q id tt seen)

write-IsOnce :
    (old : List (String × String)) (c : CrawlFileWriter) (id enr : String)
    → lookup id c.seen ≡ none
    → IsOnce old c
    → IsOnce old (record c { seen = insert id tt c.seen; lines = c.lines ++ (id, enr) ∷ [] })
unfolding insert
write-IsOnce old c id enr h o = record {
  new = o.new ++ (id, enr) ∷ [];
  appended = ap (λ l. l ++ (id, enr) ∷ []) o.appended ∙ append_assoc old o.new ((id, enr) ∷ []);
  differ = rw (ids_in-append o.new ((id, enr) ∷ [])) (
      differ_snoc (ids_in o.new) id o.differ (
        All-map (IsSeen c.seen) (λ q. q ≢ id) (ids_in o.new) (λ q. seen_ne c.seen id q h)
          o.seen_all));
  seen_all = rw (ids_in-append o.new ((id, enr) ∷ [])) (
      All-append (IsSeen (insert id tt c.seen)) (ids_in o.new) (id ∷ [])
        (All-map (IsSeen c.seen) (IsSeen (insert id tt c.seen)) (ids_in o.new)
          (λ q. IsSeen-later c.seen id q) o.seen_all)
        (ground (arith, lookup-insert id id tt c.seen), tt));
  distinct = insert-Distinct id tt c.seen o.distinct;
  as_many = omega (
    arith,
    o.as_many,
    length-append o.new ((id, enr) ∷ []),
    ap (λ (m : GoMap String (Unit {0})). length m) (delete_absent id c.seen h),
  );
}

-- What a writer promises depends on its lines and on the peers seen alone.
same-IsOnce :
    (old : List (String × String)) (c d : CrawlFileWriter)
    → d.lines ≡ c.lines
    → d.seen ≡ c.seen
    → IsOnce old c
    → IsOnce old d
same-IsOnce old c d e f o = record {
  new = o.new;
  appended = e ∙ o.appended;
  differ = o.differ;
  seen_all = rw f o.seen_all;
  distinct = rw f o.distinct;
  as_many = rw f o.as_many;
}

connected-IsOnce :
    (old : List (String × String)) (c : CrawlFileWriter) (id : String)
    → IsOnce old c
    → IsOnce old (write_connected c id)
unfolding write_connected
connected-IsOnce old c id o = elim (Option-cases (lookup id c.pending)) [
  | inl e ↦ rw (e, write_connected) o
  | inr (enr, e) ↦ elim (Option-cases (lookup id c.seen)) [
    | inl new ↦
        rw (e, write_connected)
          (rw (new, write_line) (same-IsOnce old _ _ refl refl (write-IsOnce old c id enr new o)))
    | inr (u, known) ↦
        rw (e, write_connected) (rw (known, write_line) (same-IsOnce old c _ refl refl o))
  ]
]

calls-IsOnce :
    (old : List (String × String)) (cs : List Call) (c : CrawlFileWriter)
    → IsOnce old c
    → IsOnce old (calls cs c)
unfolding calls register_enr
calls-IsOnce old [] c o = o
calls-IsOnce old (registers id enr ∷ cs) c o =
    calls-IsOnce old cs (record c { pending = insert id enr c.pending })
      (same-IsOnce old c _ refl refl o)
calls-IsOnce old (connects id ∷ cs) c o =
    calls-IsOnce old cs (write_connected c id) (connected-IsOnce old c id o)

-- From the moment that the file is opened, and however registrations and connections interleave, the
-- lines that it had stay in front; among those that are added no peer has two, though one of the old
-- lines may be for the same peer; and there are as many new lines as peers seen.
pub written_once :
    (old : List (String × String)) (cs : List Call)
    → let c = calls cs (new_crawl_file_writer old) in
      (new : List (String × String)) × (c.lines ≡ old ++ new)
      × AllDiffer (ids_in new)
      × (length new ≡ length c.seen)
written_once old cs =
    let o = calls-IsOnce old cs (new_crawl_file_writer old) (record {
      new = [];
      appended = sym (append-nil old);
      differ = tt;
      seen_all = tt;
      distinct = tt;
      as_many = refl;
    }) in
    (o.new, o.appended, o.differ, o.as_many)
