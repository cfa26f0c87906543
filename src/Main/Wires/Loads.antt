-- ===== src/Main/Wires/Loads.antt =====
-- A configuration that main.go has loaded is consistent.
use beaconprobe.Base.{
  String, ◌≡◌, refl, ◌≢◌, Option, some, List, [], ◌∷◌, arith, nat_key, string_key,
}
use beaconprobe.Config.{Result, ok, err, InstanceConfig, Config, load}
use beaconprobe.Config.Validity.{IsConsistent}
use beaconprobe.Config.Loading.{load_any-IsConsistent}
use beaconprobe.Node.PeerSet.{SharedPeerSet, new_shared_peer_set}
use beaconprobe.Node.Host.{Disk, Codec}
use beaconprobe.Base.Setup.{running}
use beaconprobe.Main.Probe.{Answers, World, names_of}
use beaconprobe.Main.Crawl.{load_or_exit}
use beaconprobe.Main.Wires.{Leaves}

-- A probe of one instance or more has a peer set.
pub peer_set_made :
    (insts : List InstanceConfig)
    → insts ≢ []
    → (s : SharedPeerSet) × (new_shared_peer_set (names_of insts) ≡ some s)
unfolding new_shared_peer_set
peer_set_made [] h = absurd (h refl)
peer_set_made (inst ∷ insts) h = (_, refl)

module _ {S K : Type 0} (disk : Disk S) (codec : Codec K) (join : String → String → String)
    (a : Answers K) where
  loaded_is :
      (r : Result Config) (w w' : World S) (c : Config)
      → load_or_exit disk codec join a r w ≡ running w' c
      → r ≡ ok c
  unfolding load_or_exit
  loaded_is (err e) w w' c h = absurd (ground arith)
  loaded_is (ok d) w w' c h = ground arith

  pub Leaves-load_or_exit :
      {Bytes : Type 0} (text : Option Bytes) (unmarshal : Bytes → Config → Option Config)
      → Leaves
          (load_or_exit disk codec join a (load text unmarshal))
          (λ c. IsConsistent c × (load text unmarshal ≡ ok c))
  Leaves-load_or_exit text unmarshal = record {
    left = λ w w' c h.
        let read = loaded_is (load text unmarshal) w w' c h in
        (load_any-IsConsistent text unmarshal c read, read);
  }
