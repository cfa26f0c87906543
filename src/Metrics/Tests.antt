-- ===== src/Metrics/Tests.antt =====
-- Runs of the metrics, and their theorems at concrete instances.
use beaconprobe.Base.{
  String, ◌≡◌, refl, inl, none, some, [], ◌∷◌, ℕ_discrete, String_discrete, nat_key, string_key, ap,
  All, here, there, Option, List, ◌++◌, length, arith, ◌==◌, if◌then◌else◌, nat_key,
}
use beaconprobe.Metrics.{
  Vec, Series, Prometheus, IsPrometheus, without, zip, Metrics, new_metrics, attestations_received,
  peer_user_agents,
}
use beaconprobe.Metrics.Apart.{
  views, singles, IsView, IsSingle, Writes, new_metrics_fits, series_apart,
}

-- A library that keeps its promises.
curry_with : Vec → String → String → Option Vec
curry_with v label value = elim (without label v.free) [
  | none ↦ none
  | some ls ↦ some (record v { bound = v.bound ++ (label, value) ∷ []; free = ls })
]

label_values : Vec → List String → Option Series
label_values v values =
    if length values == length v.free
    then some (record { name = v.name; labels = v.bound ++ zip v.free values })
    else none

abbrev vectors : Prometheus
vectors = record { must_curry_with = curry_with; with_label_values = label_values }

vectors-IsPrometheus : IsPrometheus vectors
unfolding curry_with label_values
vectors-IsPrometheus = record {
  curries = λ v label value ls e.
      ap
        (λ o. elim o as (λ _. Option Vec) [
          | none ↦ none
          | some ks ↦ some (record v { bound = v.bound ++ (label, value) ∷ []; free = ks })
        ])
        e;
  completes = λ v values e. ground arith;
  refuses = λ v values ne. ground arith;
}

-- The series of subnet 5 at instance a.
received_run :
    (elim (curry_with attestations_received "probe" "a") [
      | none ↦ none
      | some v ↦ label_values v ("5" ∷ [])
    ])
    ≡ some (record {
      name = "beaconprobe_attestations_received_total";
      labels = ("probe", "a") ∷ ("subnet_id", "5") ∷ [];
    })
unfolding curry_with label_values without String_discrete ℕ_discrete
received_run = refl

-- A label cannot be bound twice.
twice_run :
    curry_with
      (record peer_user_agents { bound = ("probe", "a") ∷ []; free = "user_agent" ∷ [] })
      "probe"
      "b"
    ≡ none
unfolding curry_with without String_discrete
twice_run = refl

of_a : (m : Metrics) × (new_metrics vectors "a" ≡ some m)
unfolding new_metrics curry_with label_values without String_discrete ℕ_discrete
of_a = (_, refl)

new_metrics_fits_example :
    (m : Metrics) × (new_metrics vectors "a" ≡ some m)
    × All (IsView vectors "a") (views m)
    × All (IsSingle "a") (singles m)
new_metrics_fits_example = new_metrics_fits vectors vectors-IsPrometheus "a"

abbrev blocks_of_a : Series
blocks_of_a = record { name = "beaconprobe_blocks_received_total"; labels = ("probe", "a") ∷ [] }

blocks-Writes : Writes vectors of_a.0 blocks_of_a
unfolding of_a new_metrics curry_with label_values without String_discrete ℕ_discrete
blocks-Writes = inl (there here)

series_apart_example : ◌≡◌ {A = String} "a" "a"
series_apart_example =
    series_apart vectors vectors-IsPrometheus "a" "a" of_a.0 of_a.0 blocks_of_a of_a.1 of_a.1
      blocks-Writes blocks-Writes
