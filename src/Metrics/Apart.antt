-- ===== src/Metrics/Apart.antt =====
-- Instances do not share a time series.
use beaconprobe.Base.{
  String, ◌≡◌, refl, subst, ap, ◌∙◌, Option, ◌≢◌, ◌⊎◌, inl, inr, none, some, List, [], ◌∷◌, arith,
  ℕ_discrete, String_discrete, nat_key, string_key, length, All, Has, All_Has,
}
use beaconprobe.Metrics.{
  Vec, Series, without, Prometheus, IsPrometheus, Metrics, new_metrics, new_vec, ◌>>=◌,
}

-- The views that ask for another label, and the series, of one instance.
abbrev pub views : Metrics → List Vec
views m =
    m.attestation_latency_view ∷ m.attestation_latency_from_four_seconds_view
    ∷ m.attestation_arrival_in_slot_view ∷ m.attestations_received_view ∷ m.late_attestations_view
    ∷ m.peer_user_agents_view ∷ []

abbrev pub singles : Metrics → List Series
singles m =
    m.block_arrival_in_slot_view ∷ m.blocks_received_view ∷ m.connected_peers_view
    ∷ m.quic_peers_view ∷ m.tcp_peers_view ∷ m.dial_attempts_view ∷ m.dial_backoffs_view ∷ []

-- A view whose probe has its name, and that takes one more label.
pub record IsView (lib : Prometheus) (probe : String) (v : Vec) : Type 0 where
  pub label : String
  pub one_more :
      (value : String)
      → lib.with_label_values v (value ∷ [])
        ≡ some (record { name = v.name; labels = ("probe", probe) ∷ (label, value) ∷ [] })
  pub no_other : (values : List String) → length values ≢ 1 → lib.with_label_values v values ≡ none

abbrev pub IsSingle : String → Series → Type 0
IsSingle probe s = s.labels ≡ ("probe", probe) ∷ []

-- The view of a vector with one more label, and the series of one without.
abbrev view : String → String → String → Vec
view probe name label = record { name = name; bound = ("probe", probe) ∷ []; free = label ∷ [] }

abbrev single : String → String → Series
single probe name = record { name = name; labels = ("probe", probe) ∷ [] }

bind_some :
    {A B : Type 0} {o : Option A} {a : A} {r : Option B} (f : A → Option B)
    → o ≡ some a
    → f a ≡ r
    → (o >>= f) ≡ r
bind_some f e k = ap (λ x. x >>= f) e ∙ k

module _ (lib : Prometheus) (h : IsPrometheus lib) (probe : String) where
  view-IsView : (name label : String) → IsView lib probe (view probe name label)
  unfolding ℕ_discrete
  view-IsView name label = record {
    label = label;
    one_more = λ value. h.completes (view probe name label) (value ∷ []) refl;
    no_other = λ values ne. h.refuses (view probe name label) values ne;
  }

  must_curry_with-view :
      (name label : String)
      → lib.must_curry_with (new_vec name ("probe" ∷ label ∷ [])) "probe" probe
        ≡ some (view probe name label)
  unfolding without String_discrete
  must_curry_with-view name label =
      h.curries (new_vec name ("probe" ∷ label ∷ [])) "probe" probe (label ∷ []) refl

  with_label_values-single :
      (name : String)
      → lib.with_label_values (new_vec name ("probe" ∷ [])) (probe ∷ []) ≡ some (single probe name)
  with_label_values-single name = h.completes (new_vec name ("probe" ∷ [])) (probe ∷ []) refl

  -- `NewMetrics` does not panic, whatever the name. Each vector that it leaves to be completed takes
  -- exactly one more label value, which makes a series with the name of the probe, and panics on any
  -- other number; the others are series with the name of the probe alone.
  pub new_metrics_fits :
      (m : Metrics) × (new_metrics lib probe ≡ some m)
      × All (IsView lib probe) (views m)
      × All (IsSingle probe) (singles m)
  unfolding new_metrics
  new_metrics_fits = (
    _,
    bind_some _ (must_curry_with-view _ _) (
        bind_some _ (must_curry_with-view _ _) (
          bind_some _ (must_curry_with-view _ _) (
            bind_some _ (must_curry_with-view _ _) (
              bind_some _ (must_curry_with-view _ _) (
                bind_some _ (with_label_values-single _) (
                  bind_some _ (with_label_values-single _) (
                    bind_some _ (with_label_values-single _) (
                      bind_some _ (with_label_values-single _) (
                        bind_some _ (with_label_values-single _) (
                          bind_some _ (must_curry_with-view _ _) (
                            bind_some _ (with_label_values-single _)
                              (bind_some _ (with_label_values-single _) refl)))))))))))),
    (
      view-IsView _ _,
      (
        view-IsView _ _,
        (view-IsView _ _, (view-IsView _ _, (view-IsView _ _, (view-IsView _ _, tt)))),
      ),
    ),
    (refl, (refl, (refl, (refl, (refl, (refl, (refl, tt))))))),
  )

-- A series that the code can write through a view.
abbrev pub Writes : Prometheus → Metrics → Series → Type 0
Writes lib m s =
    Has s (singles m)
    ⊎ ((v : Vec) × (value : String) × Has v (views m)
        × (lib.with_label_values v (value ∷ []) ≡ some s))

Writes-probe :
    (lib : Prometheus) (h : IsPrometheus lib) (probe : String) (m : Metrics) (s : Series)
    → new_metrics lib probe ≡ some m
    → Writes lib m s
    → (rest : List (String × String)) × (s.labels ≡ ("probe", probe) ∷ rest)
Writes-probe lib h probe m s made written =
    let (k, same, vs, ss) = new_metrics_fits lib h probe in
    let one : k ≡ m = ground (arith, same, made) in
    split (subst (λ x. All (IsView lib probe) (views x)) one vs)
      (subst (λ x. All (IsSingle probe) (singles x)) one ss) written
  where
    split :
        All (IsView lib probe) (views m)
        → All (IsSingle probe) (singles m)
        → Writes lib m s
        → (rest : List (String × String)) × (s.labels ≡ ("probe", probe) ∷ rest)
    split vs ss (inl h) = ([], All_Has (IsSingle probe) ss h)
    split vs ss (inr (v, value, h, written)) =
        let view = All_Has (IsView lib probe) vs h in
        ((view.label, value) ∷ [], ground (arith, view.one_more value, written))

-- Two instances that write the same series, whatever the label values, have the same name.
pub series_apart :
    (lib : Prometheus) (h : IsPrometheus lib) (p q : String) (m k : Metrics) (s : Series)
    → new_metrics lib p ≡ some m
    → new_metrics lib q ≡ some k
    → Writes lib m s
    → Writes lib k s
    → p ≡ q
series_apart lib h p q m k s made other one two =
    let (r, e) = Writes-probe lib h p m s made one in
    let (t, f) = Writes-probe lib h q k s other two in ground (arith, e, f)
