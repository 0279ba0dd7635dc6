-- ===== src/Snapshot/Integrity.antt =====
-- What the checksum of a snapshot protects.
use simulator.Common.{
  ◌≡◌, refl, sym, ap, subst, ◌∙◌, ◌≢◌, inl, inr, Bool, true, false, Option, none, some, arith,
  ◌>>=◌, ◌==◌, if◌then◌else◌, Bool-cases,
}
use Prim.Native.String.{String}
use simulator.Common.Maps.{text_key}
use simulator.Common.Float.{Float64}
use simulator.Store.{snapshot_components}
use simulator.Event.Snapshot.{snapshot_events}
use simulator.Runtime.{Simulation, is_running}
use simulator.World.{World}
use simulator.Snapshot.{
  Snapshot, SnapshotError, unsupported_schema, unsupported_engine, not_encodable, corrupted, Codec,
  engine_version, snapshot_schema_version, compute_checksum, checksum_error, validate, capture,
  sealed, world_snapshot, with_config, take_snapshot, mismatch, or_else, checked, world_restore,
}

-- What holds of a result, if there is one.
data Each {A : Type 0} (P : A → Type 0) : Option A → Type 0 where
  nothing_each : Each P none
  each : {a : A} → P a → Each P (some a)

module _ {A B : Type 0} {P : A → Type 0} {Q : B → Type 0} where
  Each-bind :
      {o : Option A} {f : A → Option B}
      → Each P o
      → ((a : A) → P a → Each Q (f a))
      → Each Q (o >>= f)
  Each-bind nothing_each next = nothing_each
  Each-bind (each {a = a} p) next = next a p

module _ {A : Type 0} {P : A → Type 0} where
  Each-some : {o : Option A} (a : A) → Each P o → o ≡ some a → P a
  Each-some a nothing_each e = absurd (ground arith)
  Each-some a (each {a = b} p) e = let same : b ≡ a = ground arith in subst P same p

  Each-any : (o : Option A) → ((a : A) → P a) → Each P o
  Each-any none all = nothing_each
  Each-any (some a) all = each (all a)

-- Nothing is known of a value.
abbrev some_value : {A : Type 0} → A → Unit {0}
some_value a = tt

module _ (f : Float64) {V P Q D R : Type 0} (c : Codec f.Time V P Q D R) where
  -- The versions of this engine.
  pub record IsCurrent (s : Snapshot f.Time D R) : Type 0 where
    pub schema : s.schema_version ≡ snapshot_schema_version
    pub engine : s.engine ≡ engine_version

  pub record IsSealed (s : Snapshot f.Time D R) : Type 0 where
    pub current : IsCurrent s
    pub sum : compute_checksum f c s ≡ some s.checksum

  sealed-IsSealed : (s : Snapshot f.Time D R) → IsCurrent s → Each IsSealed (sealed f c s)
  unfolding sealed compute_checksum
  sealed-IsSealed s now = summed (c.hash (record s { checksum = "" })) refl
    where
      summed :
          (h : Option String)
          → c.hash (record s { checksum = "" }) ≡ h
          → Each IsSealed (h >>= λ sum. some (record s { checksum = sum }))
      summed none e = nothing_each
      summed (some sum) e =
          each (record { current = record { schema = now.schema; engine = now.engine }; sum = e })

  capture-IsCurrent : (w : World V Q f.Time P) → Each IsCurrent (capture f c w)
  unfolding capture
  capture-IsCurrent w =
      Each-bind (Each-any (snapshot_components c.encode c.decode w.components) some_value)
        (λ components _. Each-bind (Each-any (c.stored w.resources) some_value) (λ resources _.
          Each-bind (Each-any (snapshot_events c.marshal w.events) some_value)
            (λ events _. each (record { schema = refl; engine = refl }))))

  with_config-IsSealed :
      (config : Option D) (s : Snapshot f.Time D R)
      → IsSealed s
      → Each IsSealed (with_config f c config s)
  unfolding with_config
  with_config-IsSealed none s v = each v
  with_config-IsSealed (some d) s v =
      sealed-IsSealed (record s { model_config = some d })
        (record { schema = v.current.schema; engine = v.current.engine })

  world_snapshot-IsSealed : (w : World V Q f.Time P) → Each IsSealed (world_snapshot f c w)
  unfolding world_snapshot
  world_snapshot-IsSealed w = Each-bind (capture-IsCurrent w) (λ s now. sealed-IsSealed s now)

  take_snapshot-IsSealed :
      {E : Type 0} (config : Option D) (s : Simulation (World V Q f.Time P) E)
      → Each IsSealed (take_snapshot f c config s)
  unfolding take_snapshot
  take_snapshot-IsSealed config s =
      guarded (is_running s.state)
        (Each-bind (world_snapshot-IsSealed s.world) (λ t v. with_config-IsSealed config t v))
    where
      guarded :
          (b : Bool) {o : Option (Snapshot f.Time D R)}
          → Each IsSealed o
          → Each IsSealed (if b then none else o)
      guarded true v = nothing_each
      guarded false v = v

  sealed_is_valid : (s : Snapshot f.Time D R) → IsSealed s → validate f c s ≡ none
  unfolding validate checksum_error
  sealed_is_valid s v =
      let same : text_key.same s.checksum s.checksum ≡ true =
        (text_key.same_iff s.checksum s.checksum).1 refl in
      let engine : text_key.same s.engine engine_version ≡ true =
        (text_key.same_iff s.engine engine_version).1 v.current.engine in
      let schema : s.schema_version == snapshot_schema_version ≡ true =
        ground (arith, v.current.schema) in
      rw (schema, engine, v.sum, same) refl

  checksum_refuted :
      (have : String) (o : Option String)
      → o ≢ some have
      → (e : SnapshotError) × (checksum_error f c have o ≡ some e)
  unfolding checksum_error
  checksum_refuted have none ne = (not_encodable, refl)
  checksum_refuted have (some want) ne = elim (Bool-cases (text_key.same have want)) [
    | inl e ↦ absurd (ne (ap (λ x. some x) (sym ((text_key.same_iff have want).0 e))))
    | inr e ↦ (corrupted, rw e refl)
  ]

  -- A snapshot whose checksum is not that of its contents.
  forged_is_invalid :
      (s : Snapshot f.Time D R)
      → compute_checksum f c s ≢ some s.checksum
      → (e : SnapshotError) × (validate f c s ≡ some e)
  unfolding validate
  forged_is_invalid s forged = elim (Bool-cases (s.schema_version == snapshot_schema_version)) [
    | inr schema ↦ (unsupported_schema, rw schema refl)
    | inl schema ↦ elim (Bool-cases (text_key.same s.engine engine_version)) [
      | inr engine ↦ (unsupported_engine, rw (schema, engine) refl)
      | inl engine ↦
          let (e, refuted) = checksum_refuted s.checksum (compute_checksum f c s) forged in
          (e, rw (schema, engine) refuted)
    ]
  ]

  -- What holds of a snapshot that was taken, and of another with its checksum.
  pub record IsProtected (s forged : Snapshot f.Time D R) (w : World V Q f.Time P) : Type 0 where
    pub valid : validate f c s ≡ none
    pub refused : (e : SnapshotError) × (world_restore f c forged w ≡ some (some e, w))

  -- A snapshot that Snapshot gave is valid. Any other snapshot with its checksum, whose contents
  -- hash to something else, is refused by Restore, and the world is as it was.
  pub tampered_refused :
      {E : Type 0} (config : Option D) (sim : Simulation (World V Q f.Time P) E)
      (s forged : Snapshot f.Time D R) (w : World V Q f.Time P)
      → take_snapshot f c config sim ≡ some s
      → forged.checksum ≡ s.checksum
      → compute_checksum f c forged ≢ compute_checksum f c s
      → IsProtected s forged w
  unfolding world_restore checked
  tampered_refused config sim s forged w taken kept differs =
      let v = Each-some s (take_snapshot-IsSealed config sim) taken in
      let (e, invalid) =
        forged_is_invalid forged (λ same. differs (same ∙ ap (λ x. some x) kept ∙ sym v.sum)) in
      record {
        valid = sealed_is_valid s v;
        refused =
            (e, ap (λ x. checked f c (or_else f c x (mismatch f c w forged)) forged w) invalid);
      }
