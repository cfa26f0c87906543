-- ===== src/Node/UserAgent.antt =====
-- node/useragent.go: how many peers run which client. The gauge of the metrics has a value for each
-- label, 0 for a label that it has not met.
pub mod Tally
pub mod Tests
use beaconprobe.Base.{
  ℕ, zero, suc, ◌+◌, ◌-◌, ◌*◌, ◌/◌, ◌%◌, ◌^◌, ◌≤◌, ◌<◌, min, max, String, ◌≡◌, refl, sym, ap, ◌∙◌,
  subst, ◌≢◌, ◌↔◌, ◌⊎◌, inl, inr, ite, if_pos, if_neg, Bool, true, false, not, ◌&&◌, ◌||◌, Option,
  none, some, List, [], ◌∷◌, ◌++◌, map, arith, dec_lt, dec_le, ℕ_discrete, String_discrete, lookup,
  insert, delete, lookup-insert, lookup-delete, GoMap, Distinct, delete-Distinct, insert-Distinct,
  delete_absent, length-delete, Bool-cases, Option-cases, Key, nat_key, string_key, ◌==◌, ltb, leb,
  if◌then◌else◌, ltb→lt, lt→ltb, leb→le, le→leb, tests, ==_sound, ==_refl, ==_ne, length, get_elem?,
  take, set, select, any, All, Has, here, there, length-append, length-take, length-select-le,
  get_elem?_total, All_Has, All-map, All-append, get_or, length-set, get_or-set_self, get_or-set_ne,
}
use Prim.Native.String.{slice, len}
use Prim.Native.String
use text.Mathlib.Text.{find?, starts_with}
use beaconprobe.Base.Int.{ℤ, pos, ◌+ℤ◌, ◌-ℤ◌, leb_ℤ}

-- Go's `strings.Cut` for a separator of one character: what is before it, and what is after it.
abbrev cut : String → String → Option (String × String)
cut s sep = elim (find? s sep) [
  | none ↦ none
  | some i ↦ some (slice s 0 i, slice s (i + 1) (len s))
]

-- The version up to its first dot.
pub major_of : String → String
major_of ver = elim (cut ver ".") [ none ↦ ver | some (major, rest) ↦ major ]

pub normalize_user_agent : String → String
unfolding major_of
normalize_user_agent raw = if raw == "" then "unknown" else elim (cut raw "/") [
  | none ↦ raw
  | some (name, version) ↦
      let prefix = if starts_with version "v" then "v" else "" in
      let ver = if starts_with version "v" then slice version 1 (len version) else version in
      String.◌++◌ name (String.◌++◌ "/" (String.◌++◌ prefix (major_of ver)))
]

-- The maps of `TrackUserAgents` and the gauge.
pub record Agents : Type 0 where
  pub peers : GoMap String String
  pub counts : GoMap String ℤ
  pub gauge : GoMap String ℤ

abbrev pub no_agents : Agents
no_agents = record { peers = []; counts = []; gauge = [] }

-- `m[k]`, with 0 for a missing key.
abbrev pub value_at : String → GoMap String ℤ → ℤ
value_at k m = elim (lookup k m) [ none ↦ pos 0 | some n ↦ n ]

pub count_down : String → GoMap String ℤ → GoMap String ℤ
count_down ua counts =
    let n = value_at ua counts -ℤ pos 1 in
    if leb_ℤ n (pos 0) then delete ua counts else insert ua n counts

pub count_up : String → GoMap String ℤ → GoMap String ℤ
count_up ua counts = insert ua (value_at ua counts +ℤ pos 1) counts

-- The gauge keeps a label once it has met it.
pub gauge_down : String → GoMap String ℤ → GoMap String ℤ
gauge_down ua g = insert ua (value_at ua g -ℤ pos 1) g

-- What both handlers do with the entry that a peer has.
pub uncount : Agents → String → Agents
unfolding count_down gauge_down
uncount s old = record s { counts = count_down old s.counts; gauge = gauge_down old s.gauge }

pub identified : Agents → String → String → Agents
unfolding uncount count_up
identified s id agent_version =
    let ua = normalize_user_agent agent_version in
    let t : Agents = elim (lookup id s.peers) [ none ↦ s | some old ↦ uncount s old ] in
    record {
      peers = insert id ua t.peers;
      counts = count_up ua t.counts;
      gauge = count_up ua t.gauge;
    }

pub connectedness_changed : Agents → String → Bool → Agents
unfolding uncount
connectedness_changed s id not_connected =
    if not_connected
    then elim (lookup id s.peers) [
      | none ↦ s
      | some ua ↦ uncount (record s { peers = delete id s.peers }) ua
    ]
    else s

-- What the loop selects: the end of the context or of a channel, an event, or the ticker, which
-- logs the counts.
pub data Input : Type 0 where
  done : Input
  identify : String → String → Input
  connectedness : String → Bool → Input
  tick : Input

pub track_user_agents : List Input → Agents → Agents
track_user_agents [] s = s
track_user_agents (done ∷ is) s = s
track_user_agents (identify id agent_version ∷ is) s =
    track_user_agents is (identified s id agent_version)
track_user_agents (connectedness id not_connected ∷ is) s =
    track_user_agents is (connectedness_changed s id not_connected)
track_user_agents (tick ∷ is) s = track_user_agents is s
