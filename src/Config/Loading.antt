-- ===== src/Config/Loading.antt =====
-- What `Load` of config/config.go returns.
use beaconprobe.Base.{
  ℕ, suc, ◌*◌, zero, suc, ◌≡◌, refl, subst, ◌≢◌, ◌⊎◌, inl, inr, true, Option, none, some, List, [],
  ◌∷◌, map, arith, Option-cases, nat_key, string_key,
}
use beaconprobe.Base.Int.{ℤ, pos, negsuc, wrap_int}
use beaconprobe.Config.{
  Config, InstanceConfig, Result, ok, err, ◌>>◌, not_positive, validate, with_max_peers, defaults,
  load,
}
use beaconprobe.Config.Validity.{IsConsistent, validate-IsConsistent}

-- An instance as it is read and as it is loaded: a cap of 0 with a positive mesh degree is replaced by
-- ten times that degree, as an int64; any other cap, and all else, is as it is read.
pub record IsFilled (read loaded : InstanceConfig) : Type 0 where
  pub rest_kept : loaded ≡ record read { max_peers = loaded.max_peers }
  pub cap_filled :
      ((n : ℕ) × (read.gossip_d ≡ pos (suc n))
        × (read.max_peers ≡ pos 0)
        × (loaded.max_peers ≡ wrap_int (pos (10 * suc n))))
      ⊎ (((not_positive read.gossip_d ≡ true) ⊎ (read.max_peers ≢ pos 0))
          × (loaded.max_peers ≡ read.max_peers))

abbrev AllFilled : List InstanceConfig → List InstanceConfig → Type 0
AllFilled [] [] = Unit
AllFilled (r ∷ rs) (l ∷ ls) = IsFilled r l × AllFilled rs ls
AllFilled _ _ = ⊥

cap_given :
    (inst : InstanceConfig) (m d : ℤ)
    → inst.max_peers ≡ m
    → inst.gossip_d ≡ d
    → IsFilled inst (with_max_peers inst)
unfolding with_max_peers
cap_given inst (pos zero) (pos (suc d)) e f = record {
  rest_kept = refl;
  cap_filled = inl (d, f, e, ground arith);
}
cap_given inst (pos zero) (pos zero) e f = record {
  rest_kept = refl;
  cap_filled = inr (inl (ground arith), ground arith);
}
cap_given inst (pos zero) (negsuc d) e f = record {
  rest_kept = refl;
  cap_filled = inr (inl (ground arith), ground arith);
}
cap_given inst (pos (suc m)) d e f = record {
  rest_kept = refl;
  cap_filled = inr (inr (ground arith), ground arith);
}
cap_given inst (negsuc m) d e f = record {
  rest_kept = refl;
  cap_filled = inr (inr (ground arith), ground arith);
}

caps_given : (insts : List InstanceConfig) → AllFilled insts (map with_max_peers insts)
caps_given [] = tt
caps_given (inst ∷ insts) =
    (cap_given inst inst.max_peers inst.gossip_d refl refl, caps_given insts)

kept_if_ok : (r : Result (Unit {0})) (a b : Config) → (r >> ok a) ≡ ok b → (r ≡ ok tt) × (a ≡ b)
kept_if_ok (ok tt) a b h = (refl, ground arith)
kept_if_ok (err e) a b h = cc

-- The configuration that is loaded is the one that was read, with the caps filled in.
pub record IsLoaded (read loaded : Config) : Type 0 where
  pub consistent : IsConsistent loaded
  pub same_else : loaded ≡ record read { instances = loaded.instances }
  pub filled : AllFilled read.instances loaded.instances

-- What `Load` returns without an error is consistent, and is what the decoder made of the file over
-- the defaults, with the caps filled in: a `max-peers` of 0 of an instance with a positive mesh degree
-- is ten times that degree, wrapped to an int64, and any other is as it was read.
pub load-IsConsistent :
    {Bytes : Type 0} (text : Bytes) (unmarshal : Bytes → Config → Option Config) (c : Config)
    → load (some text) unmarshal ≡ ok c
    → (read : Config) × (unmarshal text defaults ≡ some read) × IsLoaded read c
unfolding load
load-IsConsistent text unmarshal c h = elim (Option-cases (unmarshal text defaults)) [
  | inl e ↦ absurd (ground arith)
  | inr (read, e) ↦ (read, e, go read (rw (e, load) at h))
]
  where
    go :
        (read : Config)
        → (validate (record read { instances = map with_max_peers read.instances })
            >> ok (record read { instances = map with_max_peers read.instances }))
          ≡ ok c
        → IsLoaded read c
    go read k =
        let filled = record read { instances = map with_max_peers read.instances } in
        let (passed, same) = kept_if_ok (validate filled) filled c k in
        subst (IsLoaded read) same (record {
          consistent = (validate-IsConsistent filled).0 passed;
          same_else = refl;
          filled = caps_given read.instances;
        })

-- The same for a file that may not be readable.
pub load_any-IsConsistent :
    {Bytes : Type 0} (text : Option Bytes) (unmarshal : Bytes → Config → Option Config) (c : Config)
    → load text unmarshal ≡ ok c
    → IsConsistent c
unfolding load
load_any-IsConsistent none unmarshal c h = absurd (ground arith)
load_any-IsConsistent (some text) unmarshal c h =
    (load-IsConsistent text unmarshal c h).2.consistent
