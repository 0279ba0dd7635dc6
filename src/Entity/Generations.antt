-- ===== src/Entity/Generations.antt =====
-- Sequences of Create and Destroy: an identifier that is no longer live stays dead, as long as
-- the 32-bit generation of its index does not come round.
use simulator.Common.{
  ℕ, suc, ◌+◌, ◌-◌, ◌^◌, ◌≤◌, ◌<◌, ◌≡◌, refl, sym, ap, ◌∙◌, ◌≢◌, ◌⊎◌, inl, inr, Bool, Option, some,
  List, [], ◌∷◌, ◌++◌, arith, ℕ_discrete, ◌>>=◌, Returns, returns, ltb, Bool-cases, length, get_or,
  length-append, get_or-append,
}
use simulator.Entity.{EntityManager, index, version, create, destroy}
use simulator.Entity.Invariant.{IsValid, IsLive}
use simulator.Entity.Create.{Created, create_correct}
use simulator.Entity.Destroyed.{Destroyed, destroy_correct}

pub data Operation : Type 0 where
  creates : Operation
  destroys : ℕ → Operation

unfoldable pub apply : Operation → EntityManager → ℕ → Option (EntityManager × ℕ)
apply creates m revision = create m revision >>= λ (id, m', revision'). some (m', revision')
apply (destroys id) m revision =
    destroy m id revision >>= λ (told, m', revision'). some (m', revision')

unfoldable pub apply_all : List Operation → EntityManager → ℕ → Option (EntityManager × ℕ)
apply_all [] m revision = some (m, revision)
apply_all (o ∷ os) m revision = apply o m revision >>= λ (m', revision'). apply_all os m' revision'

abbrev pub AreWords : List Operation → Type 0
AreWords [] = Unit {0}
AreWords (creates ∷ os) = AreWords os
AreWords (destroys id ∷ os) = (id < 2 ^ 64) × AreWords os

-- `id` was handed out and is gone; `budget` more operations fit.
pub record IsRetired (id budget : ℕ) (m : EntityManager) : Type 0 where
  pub valid : IsValid m
  pub dead : ¬ IsLive m id
  pub old : version id ≤ get_or m.versions (index id) 0
  pub no_wrap : get_or m.versions (index id) 0 + budget < 2 ^ 32
  pub indices : m.next + budget < 2 ^ 32
  pub places : m.count + budget < 2 ^ 31

live-append :
    (m m' : EntityManager) (id x : ℕ)
    → m'.dense ≡ m.dense ++ id ∷ []
    → IsLive m' x
    → (x ≡ id) ⊎ IsLive m x
live-append m m' id x e (p, h, f) =
    let size = length-append m.dense (id ∷ []) in
    let read = get_or-append m.dense (id ∷ []) p 0 in
    let f' : get_or (m.dense ++ id ∷ []) p 0 ≡ x = rw (← e) f in
    elim (Bool-cases (ltb p (length m.dense))) [
      | inl old ↦ inr (p, ground arith, ground (arith, read, f', old))
      | inr new ↦
          let zeroth : p - length m.dense ≡ 0 = ground (arith, size, ap length e) in
          let read' : get_or (m.dense ++ id ∷ []) p 0 ≡ id = rw (read, new, zeroth) refl in
          inl (sym f' ∙ read')
    ]

module _ (id budget : ℕ) (m : EntityManager) (revision : ℕ) where
  create_retires :
      (r : ℕ × EntityManager × ℕ)
      → IsRetired id (suc budget) m
      → Created m revision r
      → IsRetired id budget r.1
  create_retires (new, m', revision') s c =
      let same : index id ≡ index new
          → get_or m'.versions (index id) 0 ≡ get_or m.versions (index id) 0 + 1 =
        λ e. omega (
          arith,
          c.generation,
          c.new_version_stored,
          ap (λ i. get_or m.versions i 0) e,
          ap (λ i. get_or m'.versions i 0) e,
          s.no_wrap,
        ) in
      let other : index id ≢ index new
          → get_or m'.versions (index id) 0 ≡ get_or m.versions (index id) 0 =
        c.other_versions (index id) in
      let grows : (get_or m.versions (index id) 0 ≤ get_or m'.versions (index id) 0)
          × (get_or m'.versions (index id) 0 ≤ get_or m.versions (index id) 0 + 1) =
        elim (ℕ_discrete (index id) (index new)) [
          | yes e ↦ omega (arith, same e)
          | no ne ↦ omega (arith, other ne)
        ] in
      record {
        valid = c.valid;
        dead = λ l. revived (live-append m m' new id c.appended l);
        old = omega (arith, s.old, grows);
        no_wrap = omega (arith, s.no_wrap, grows);
        indices = omega (arith, s.indices, c.next_le);
        places = omega (arith, s.places, c.counted);
      }
    where
      revived : (id ≡ new) ⊎ IsLive m id → ⊥
      revived (inr l) = s.dead l
      revived (inl e) = absurd (
          omega (
            arith,
            c.generation,
            s.old,
            s.no_wrap,
            ap version e,
            ap (λ i. get_or m.versions (index i) 0) e,
          ))

  destroy_retires :
      (x : ℕ) (r : Bool × EntityManager × ℕ)
      → IsRetired id (suc budget) m
      → Destroyed m x revision r
      → IsRetired id budget r.1
  destroy_retires x (told, m', revision') s d = record {
    valid = d.valid;
    dead = λ l. s.dead ((d.remaining id).0 l).0;
    old = rw d.same_versions s.old;
    no_wrap = rw d.same_versions (omega (arith, s.no_wrap));
    indices = rw d.same_next (omega (arith, s.indices));
    places = omega (arith, s.places, d.counted);
  }

  nothing_retires : IsRetired id (suc budget) m → IsRetired id budget m
  nothing_retires s = record {
    valid = s.valid;
    dead = s.dead;
    old = s.old;
    no_wrap = omega (arith, s.no_wrap);
    indices = omega (arith, s.indices);
    places = omega (arith, s.places);
  }

  apply_retires :
      (o : Operation)
      → AreWords (o ∷ [])
      → IsRetired id (suc budget) m
      → Returns {A = EntityManager × ℕ} (λ r. IsRetired id budget r.0) (apply o m revision)
  unfolding apply
  apply_retires creates w s =
      let few : length m.dense + 1 < 2 ^ 31 = omega (arith, s.valid.counted, s.places) in
      chain (create_correct m s.valid revision few (omega (arith, s.indices)))
    where
      chain :
          {t : Option (ℕ × EntityManager × ℕ)}
          → Returns (Created m revision) t
          → Returns {A = EntityManager × ℕ}
              (λ r. IsRetired id budget r.0)
              (t >>= λ (new, m', revision'). some (m', revision'))
      chain (returns {a = r} c) = returns (create_retires r s c)
  apply_retires (destroys x) w s = elim (destroy_correct m x revision s.valid w.0) [
    | inl (_, d) ↦ chain d
    | inr (_, e) ↦ rw e (returns (nothing_retires s))
  ]
    where
      chain :
          {t : Option (Bool × EntityManager × ℕ)}
          → Returns (Destroyed m x revision) t
          → Returns {A = EntityManager × ℕ}
              (λ r. IsRetired id budget r.0)
              (t >>= λ (told, m', revision'). some (m', revision'))
      chain (returns {a = r} d) = returns (destroy_retires x r s d)

-- A stale identifier never becomes live again: any sequence of operations runs through, and the
-- identifier is dead at its end, if it is shorter than what is left of the 32-bit generation of
-- its index, of the indices and of the places.
pub stale_stays_dead :
    (os : List Operation) (m : EntityManager) (id revision : ℕ)
    → AreWords os
    → IsRetired id (length os) m
    → Returns {A = EntityManager × ℕ}
        (λ r. IsValid r.0 × (¬ IsLive r.0 id))
        (apply_all os m revision)
unfolding apply_all
stale_stays_dead [] m id revision w s = returns (s.valid, s.dead)
stale_stays_dead (o ∷ os) m id revision w s =
    continue (stale_stays_dead os) (apply_retires id (length os) m revision o (first o w) s)
  where
    first : (p : Operation) → AreWords (p ∷ os) → AreWords (p ∷ [])
    first creates h = tt
    first (destroys x) h = (h.0, tt)

    rest_words : (p : Operation) → AreWords (p ∷ os) → AreWords os
    rest_words creates h = h
    rest_words (destroys x) h = h.1

    continue :
        ((m : EntityManager) (id revision : ℕ)
          → AreWords os
          → IsRetired id (length os) m
          → Returns {A = EntityManager × ℕ}
              (λ r. IsValid r.0 × (¬ IsLive r.0 id))
              (apply_all os m revision))
        → {t : Option (EntityManager × ℕ)}
        → Returns {A = EntityManager × ℕ} (λ r. IsRetired id (length os) r.0) t
        → Returns {A = EntityManager × ℕ}
            (λ r. IsValid r.0 × (¬ IsLive r.0 id))
            (t >>= λ (m', revision'). apply_all os m' revision')
    continue rest (returns {a = r} t) = rest r.0 id r.1 (rest_words o w) t
