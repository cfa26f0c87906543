-- ===== src/Config/Ports.antt =====
-- The port checks of config/config.go against their meaning: no two ports in use are equal.
use beaconprobe.Base.{
  ℕ, suc, String, ◌≡◌, refl, sym, ap, ◌∙◌, subst, ◌≢◌, ◌⊎◌, inl, inr, none, List, [], ◌∷◌, ◌++◌,
  map, arith, ℕ_discrete, lookup, insert, lookup-insert, GoMap, nat_key, string_key, All, All-map,
}
use Prim.Native.String
use beaconprobe.Config.{
  Config, InstanceConfig, Result, ok, err, ◌>>=◌, tcp_port, quic_port, disc_v5_port, add_port,
  add_instance_ports, check_ports,
}

-- The ports of the instances, the next of which is instance i.
abbrev pub instance_ports : Config → ℕ → List InstanceConfig → List ℕ
instance_ports c i [] = []
instance_ports c i (inst ∷ insts) =
    tcp_port c i ∷ quic_port c i ∷ disc_v5_port c i ∷ instance_ports c (suc i) insts

-- Every port that the process listens on, 0 for one that is left out.
abbrev pub all_ports : Config → List ℕ
all_ports c = instance_ports c 0 c.instances ++ c.disc_v4_port ∷ []

-- Two ports that are not both in use, or that differ.
abbrev pub Apart : ℕ → ℕ → Type 0
Apart p q = (p ≡ 0) ⊎ (p ≢ q)

abbrev pub AllApart : List ℕ → Type 0
AllApart [] = Unit
AllApart (p ∷ ps) = All (Apart p) ps × AllApart ps

-- A port that the map does not hold, or that is 0.
abbrev IsFree : GoMap ℕ String → ℕ → Type 0
IsFree m p = (p ≡ 0) ⊎ (lookup p m ≡ none)

-- `addPort` for each port of a list.
add_all : List (ℕ × String) → GoMap ℕ String → Result (GoMap ℕ String)
add_all [] m = ok m
add_all ((p, d) ∷ l) m = add_port p d m >>= add_all l

abbrev ports_of : List (ℕ × String) → List ℕ
ports_of = map (λ e. e.0)

add_port_cases :
    (p : ℕ) (d : String) (m m' : GoMap ℕ String)
    → add_port p d m ≡ ok m'
    → ((p ≡ 0) × (m' ≡ m)) ⊎ ((p ≢ 0) × (lookup p m ≡ none) × (m' ≡ insert p d m))
unfolding add_port
add_port_cases p d m m' h = ground arith

add_port_zero : (d : String) (m : GoMap ℕ String) (p : ℕ) → p ≡ 0 → add_port p d m ≡ ok m
unfolding add_port
add_port_zero d m p e = ground arith

add_port_free :
    (p : ℕ) (d : String) (m : GoMap ℕ String)
    → p ≢ 0
    → lookup p m ≡ none
    → add_port p d m ≡ ok (insert p d m)
unfolding add_port
add_port_free p d m e h = ground arith

IsFree-before :
    (m : GoMap ℕ String) (p : ℕ) (d : String) (q : ℕ)
    → p ≢ 0
    → IsFree (insert p d m) q
    → IsFree m q × Apart p q
IsFree-before m p d q h (inl z) = (inl z, inr (λ e. h (e ∙ z)))
IsFree-before m p d q h (inr f) = elim (ℕ_discrete q p) [
  | yes e ↦ absurd (ground (arith, lookup-insert q p d m))
  | no ne ↦ (inr (ground (arith, lookup-insert q p d m)), inr (λ e. ne (sym e)))
]

IsFree-after :
    (m : GoMap ℕ String) (p : ℕ) (d : String) (q : ℕ)
    → p ≢ 0
    → IsFree m q × Apart p q
    → IsFree (insert p d m) q
IsFree-after m p d q h (inl z, a) = inl z
IsFree-after m p d q h (inr f, inl z) = absurd (h z)
IsFree-after m p d q h (inr f, inr ne) = inr (ground (arith, lookup-insert q p d m))

-- A chain that ends well ended well at its first link, and from there on.
both_ok {ℓ} :
    {A B : Type ℓ} {end : B} (rest : A → Result B) (first : Result A)
    → (first >>= rest) ≡ ok end
    → (mid : A) × (first ≡ ok mid) × (rest mid ≡ ok end)
both_ok rest (ok mid) h = (mid, refl, h)
both_ok rest (err e) h = cc

both : (P Q : ℕ → Type 0) (ps : List ℕ) → All (λ q. P q × Q q) ps → All P ps × All Q ps
both P Q [] h = (tt, tt)
both P Q (p ∷ ps) h = let (a, b) = both P Q ps h.1 in ((h.0.0, a), (h.0.1, b))

pair : (P Q : ℕ → Type 0) (ps : List ℕ) → All P ps → All Q ps → All (λ q. P q × Q q) ps
pair P Q [] h k = tt
pair P Q (p ∷ ps) h k = ((h.0, k.0), pair P Q ps h.1 k.1)

add_all_sound :
    (l : List (ℕ × String)) (m m' : GoMap ℕ String)
    → add_all l m ≡ ok m'
    → All (IsFree m) (ports_of l) × AllApart (ports_of l)
unfolding add_all
add_all_sound [] m m' h = (tt, tt)
add_all_sound ((p, d) ∷ l) m m' h =
    let (n, first, rest) = both_ok (add_all l) (add_port p d m) h in
    let (free, apart) = add_all_sound l n m' rest in
    elim (add_port_cases p d m n first) [
      | inl (z, e) ↦ (
        (inl z, subst (λ k. All (IsFree k) (ports_of l)) e free),
        (All-map (IsFree n) (Apart p) (ports_of l) (λ q f. inl z) free, apart),
      )
      | inr (ne, none_yet, e) ↦
          let old = subst (λ k. All (IsFree k) (ports_of l)) e free in
          let (f, a) = both (IsFree m) (Apart p) (ports_of l) (
            All-map (IsFree (insert p d m)) (λ q. IsFree m q × Apart p q) (ports_of l)
              (λ q. IsFree-before m p d q ne) old) in
          ((inr none_yet, f), (a, apart))
    ]

add_all_complete :
    (l : List (ℕ × String)) (m : GoMap ℕ String)
    → All (IsFree m) (ports_of l)
    → AllApart (ports_of l)
    → (m' : GoMap ℕ String) × (add_all l m ≡ ok m')
unfolding add_all
add_all_complete [] m free apart = (m, refl)
add_all_complete ((p, d) ∷ l) m free apart = elim (ℕ_discrete p 0) [
  | yes z ↦
      let (m', done) = add_all_complete l m free.1 apart.1 in
      (m', ap (λ r. r >>= add_all l) (add_port_zero d m p z) ∙ done)
  | no ne ↦
      let later =
        All-map (λ q. IsFree m q × Apart p q) (IsFree (insert p d m)) (ports_of l)
          (λ q. IsFree-after m p d q ne) (pair (IsFree m) (Apart p) (ports_of l) free.1 apart.0) in
      let (m', done) = add_all_complete l (insert p d m) later apart.1 in
      (m', ap (λ r. r >>= add_all l) (add_port_free p d m ne (unused p m ne free.0)) ∙ done)
]
  where
    unused : (p : ℕ) (m : GoMap ℕ String) → p ≢ 0 → IsFree m p → lookup p m ≡ none
    unused p m ne (inl z) = absurd (ne z)
    unused p m ne (inr e) = e

-- The ports of the loop with their descriptions.
labelled : Config → ℕ → List InstanceConfig → List (ℕ × String)
labelled c i [] = []
labelled c i (inst ∷ insts) =
    (tcp_port c i, String.◌++◌ inst.name "/tcp")
    ∷ (quic_port c i, String.◌++◌ inst.name "/quic")
    ∷ (disc_v5_port c i, String.◌++◌ inst.name "/discv5")
    ∷ labelled c (suc i) insts

ports_of-labelled :
    (c : Config) (i : ℕ) (insts : List InstanceConfig)
    → ports_of (labelled c i insts ++ (c.disc_v4_port, "discv4") ∷ [])
      ≡ instance_ports c i insts ++ c.disc_v4_port ∷ []
unfolding labelled
ports_of-labelled c i [] = refl
ports_of-labelled c i (inst ∷ insts) =
    ap (λ ps. tcp_port c i ∷ quic_port c i ∷ disc_v5_port c i ∷ ps)
      (ports_of-labelled c (suc i) insts)

bind_assoc {ℓ} :
    {A B C : Type ℓ} (m : Result A) (f : A → Result B) (g : B → Result C)
    → ((m >>= f) >>= g) ≡ (m >>= λ a. f a >>= g)
bind_assoc (ok a) f g = refl
bind_assoc (err e) f g = refl

bind_ok {ℓ} : {A : Type ℓ} (m : Result A) → (m >>= ok) ≡ m
bind_ok (ok a) = refl
bind_ok (err e) = refl

-- The loop and the call after it add the labelled ports one after the other.
ports_loop :
    (c : Config) (i : ℕ) (insts : List InstanceConfig) (m : GoMap ℕ String)
    → (add_instance_ports c i insts m >>= add_port c.disc_v4_port "discv4")
      ≡ add_all (labelled c i insts ++ (c.disc_v4_port, "discv4") ∷ []) m
unfolding add_instance_ports labelled add_all
ports_loop c i [] m = sym (bind_ok (add_port c.disc_v4_port "discv4" m))
ports_loop c i (inst ∷ insts) m = simp (bind_assoc, ports_loop c (suc i) insts)

-- What the check of the ports comes to.
check_ports_lem :
    (c : Config)
    → check_ports c
      ≡ (add_all (labelled c 0 c.instances ++ (c.disc_v4_port, "discv4") ∷ []) [] >>= λ _. ok tt)
unfolding check_ports
check_ports_lem c =
    sym (
      bind_assoc (add_instance_ports c 0 c.instances []) (add_port c.disc_v4_port "discv4")
        (λ _. ok tt))
    ∙ ap (λ r. r >>= λ _. ok tt) (ports_loop c 0 c.instances [])

-- If the check of the ports passes, any two ports that are in use differ.
pub check_ports_sound : (c : Config) → check_ports c ≡ ok tt → AllApart (all_ports c)
check_ports_sound c h =
    let l = labelled c 0 c.instances ++ (c.disc_v4_port, "discv4") ∷ [] in
    let (m, done, _) = both_ok (λ _. ok tt) (add_all l []) (sym (check_ports_lem c) ∙ h) in
    subst AllApart (ports_of-labelled c 0 c.instances) (add_all_sound l [] m done).1

All-IsFree : (ps : List ℕ) → All (IsFree []) ps
unfolding lookup
All-IsFree [] = tt
All-IsFree (p ∷ ps) = (inr refl, All-IsFree ps)

-- If any two ports in use differ, the check of the ports passes.
pub check_ports_complete : (c : Config) → AllApart (all_ports c) → check_ports c ≡ ok tt
check_ports_complete c apart =
    let l = labelled c 0 c.instances ++ (c.disc_v4_port, "discv4") ∷ [] in
    let (m, done) =
      add_all_complete l [] (All-IsFree (ports_of l))
        (subst AllApart (sym (ports_of-labelled c 0 c.instances)) apart) in
    check_ports_lem c ∙ ap (λ r. r >>= λ _. ok tt) done
