-- ===== src/Main/Wires/Keys.antt =====
-- The keys that `runProbe` of main.go loads, one after the other from the same files.
use beaconprobe.Base.{
  ℕ, suc, String, ◌≡◌, refl, ap, ◌∙◌, inl, inr, Option, none, some, List, [], ◌∷◌, arith,
  Option-cases, nat_key, string_key, length,
}
use beaconprobe.Config.{InstanceConfig, Config, key_file}
use beaconprobe.Node.Host.{
  Disk, Codec, Outcome, key, bad_hex, bad_key, read_failed, generate_failed, save_failed,
  load_or_generate_key,
}
use beaconprobe.Base.Setup.{Run, exited, running, pure, or_exit}
use beaconprobe.Main.Probe.{Answers, Exit, World, open_key, load_key, load_keys}
use beaconprobe.Main.Wires.Passes.{goes_on, both_ran}

or_exit_sound :
    {S A : Type 0} (o : Option A) (e : Exit) (w w' : World S) (x : A)
    → or_exit o e w ≡ running w' x
    → (o ≡ some x) × (w' ≡ w)
unfolding or_exit
or_exit_sound none e w w' x h = absurd (ground arith)
or_exit_sound (some y) e w w' x h = (ground arith, ground arith)

pure_sound :
    {S A : Type 0} (y : A) (w w' : World S) (x : A)
    → pure {E = Exit} y w ≡ running w' x
    → (y ≡ x) × (w' ≡ w)
unfolding pure
pure_sound y w w' x h = (ground arith, ground arith)

module _ {S K : Type 0} (disk : Disk S) (codec : Codec K) (join : String → String → String)
    (a : Answers K) (c : Config) where
  -- The key of the i-th instance and its peer ID, out of the instance's key file; s and t are the
  -- files before and after.
  pub record IsKeyOf (i : ℕ) (s : S) (k : K × String) (t : S) : Type 0 where
    pub file : String
    pub file_at : key_file join c i ≡ some file
    pub loaded : load_or_generate_key disk codec (a.generated i) file s ≡ (t, key k.0)
    pub id_of_key : a.peer_id k.0 ≡ some k.1

  -- One key for each instance, in order.
  abbrev pub AreKeysOf : ℕ → List InstanceConfig → S → List (K × String) → Type 0
  AreKeysOf i [] s [] = Unit
  AreKeysOf i (inst ∷ insts) s (k ∷ ks) = (t : S) × IsKeyOf i s k t × AreKeysOf (suc i) insts t ks
  AreKeysOf i _ s _ = ⊥

  pub AreKeysOf-length :
      (i : ℕ) (insts : List InstanceConfig) (s : S) (ks : List (K × String))
      → AreKeysOf i insts s ks
      → length ks ≡ length insts
  AreKeysOf-length i [] s [] h = refl
  AreKeysOf-length i [] s (k ∷ ks) h = elim h [ ]
  AreKeysOf-length i (inst ∷ insts) s [] h = elim h [ ]
  AreKeysOf-length i (inst ∷ insts) s (k ∷ ks) h =
      ap suc (AreKeysOf-length (suc i) insts h.0 ks h.2)

  open_key_sound :
      (i : ℕ) (e : Exit) (w w' : World S) (k : K)
      → open_key disk codec join a c i e w ≡ running w' k
      → (file : String) × (key_file join c i ≡ some file)
        × (load_or_generate_key disk codec (a.generated i) file w.files ≡ (w'.files, key k))
        × (w'.calls ≡ w.calls)
  unfolding open_key
  open_key_sound i e w w' k h = elim (Option-cases (key_file join c i)) [
    | inl absent ↦ absurd (ground arith)
    | inr (file, at) ↦
        let (made, kept) =
          go (load_or_generate_key disk codec (a.generated i) file w.files)
            (rw (at, open_key) at h) in
        (file, at, made, kept)
  ]
    where
      go :
          (r : S × Outcome K)
          → (elim (r.1) as (λ _. Run (World S) Exit K) [
            | key l ↦ running (record w { files = r.0 }) l
            | _ ↦ exited (record w { files = r.0 }) e
          ])
            ≡ running w' k
          → (r ≡ (w'.files, key k)) × (w'.calls ≡ w.calls)
      go (s, key l) h = (ground arith, ground arith)
      go (s, bad_hex) h = absurd (ground arith)
      go (s, bad_key) h = absurd (ground arith)
      go (s, read_failed) h = absurd (ground arith)
      go (s, generate_failed) h = absurd (ground arith)
      go (s, save_failed) h = absurd (ground arith)

  pub load_keys_sound :
      (i : ℕ) (insts : List InstanceConfig) (w w' : World S) (ks : List (K × String))
      → load_keys disk codec join a c i insts w ≡ running w' ks
      → AreKeysOf i insts w.files ks × (w'.calls ≡ w.calls)
  unfolding load_keys load_key
  load_keys_sound i [] w w' ks h = let (e, f) = pure_sound [] w w' ks h in rw (← e, f) (tt, refl)
  load_keys_sound i (inst ∷ insts) w w' ks h =
      let (v, k, first, then_rest) = both_ran _ _ w w' ks h in
      let (u, l, opened, then_id) = both_ran _ _ w v k first in
      let (file, at, made, kept) = open_key_sound i _ w u l opened in
      let (t, id, named, then_pair) = both_ran _ _ u v k then_id in
      let (found, same) = or_exit_sound (a.peer_id l) _ u t id named in
      let (pair, still) = pure_sound (l, id) t v k then_pair in
      let (x, ls, others, then_list) = both_ran _ _ v w' ks then_rest in
      let (rest, calls_kept) = load_keys_sound (suc i) insts v x ls others in
      let (all, last) = pure_sound (k ∷ ls) x w' ks then_list in
      rw (← all, ← pair)
        (
          (
            v.files,
            record { file = file; file_at = at; loaded = rw (still, same) made; id_of_key = found },
            rest,
          ),
          ap (λ z. z.calls) last ∙ calls_kept ∙ ap (λ z. z.calls) (still ∙ same) ∙ kept,
        )

  open_key_complete :
      (i : ℕ) (e : Exit) (w : World S) (t : S) (k : K × String)
      → IsKeyOf i w.files k t
      → open_key disk codec join a c i e w ≡ running (record w { files = t }) k.0
  unfolding open_key
  open_key_complete i e w t k h =
      rw (h.file_at, open_key)
        (ap
          (λ r. elim (r.1) as (λ _. Run (World S) Exit K) [
            | key l ↦ running (record w { files = r.0 }) l
            | _ ↦ exited (record w { files = r.0 }) e
          ])
          h.loaded)

  pub load_keys_complete :
      (i : ℕ) (insts : List InstanceConfig) (w : World S) (ks : List (K × String))
      → AreKeysOf i insts w.files ks
      → (w' : World S) × (load_keys disk codec join a c i insts w ≡ running w' ks)
  unfolding load_keys load_key pure or_exit
  load_keys_complete i [] w [] h = (w, refl)
  load_keys_complete i [] w (k ∷ ks) h = elim h [ ]
  load_keys_complete i (inst ∷ insts) w [] h = elim h [ ]
  load_keys_complete i (inst ∷ insts) w (k ∷ ks) h =
      let (t, own, others) = h in
      let v : World S = record w { files = t } in
      let (x, rest) = load_keys_complete (suc i) insts v ks others in
      (
        x,
        goes_on _ _ w v k (
              goes_on _ _ w v k.0 (open_key_complete i _ w t k own)
              ∙ goes_on _ _ v v k.1 (rw own.id_of_key refl))
            ∙ goes_on _ _ v x ks rest,
      )
