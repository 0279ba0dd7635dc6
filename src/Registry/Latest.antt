-- ===== src/Registry/Latest.antt =====
-- The registry's latest version of a model is one that is registered, and none is above it.
use simulator.Common.{
  ◌≡◌, refl, sym, ap, subst, ◌∙◌, ◌≢◌, inl, inr, true, false, not, Option, none, some, List, [],
  ◌∷◌, arith, Bool-cases, Option-cases,
}
use Prim.Native.Char.{Char, code}
use Prim.Native.String
use Prim.Native.String.{String}
use text.Mathlib.TextLemmas.{nil-append, cons-append, head-eq_of_cons-eq, tail-eq_of_cons-eq}
use simulator.Common.Maps.{lookup, text_key, lookup-put, lookup-put_other, key-cases}
use simulator.Registry.{
  ModelInfo, Entry, Registry, compare_version, entry_key, is_less, new_registry, becomes_latest,
  register_info, entry_or_zero, get_latest, get_version,
}
use simulator.Registry.Versions.{compare_version-flip, compare_version_chain}

-- An identifier without the '@' that the keys of the entries are put together with.
abbrev pub IsPlain : String → Type 0
IsPlain String.[] = Unit {0}
IsPlain (String.◌∷◌ c s) = (code c ≢ b'@') × IsPlain s

abbrev at_sign : Char
at_sign = "@"

key_nil : (v : String) → entry_key "" v ≡ String.◌∷◌ at_sign v
unfolding entry_key
key_nil v =
    nil-append (String.◌++◌ "@" v)
    ∙ (cons-append at_sign "" v ∙ ap (String.◌∷◌ at_sign) (nil-append v))

key_cons : (c : Char) (a v : String) → entry_key (String.◌∷◌ c a) v ≡ String.◌∷◌ c (entry_key a v)
unfolding entry_key
key_cons c a v = cons-append c a (String.◌++◌ "@" v)

entry_key_injective :
    (a b v w : String) → IsPlain a → IsPlain b → entry_key a v ≡ entry_key b w → (a ≡ b) × (v ≡ w)
entry_key_injective String.[] String.[] v w p q e =
    (refl, tail-eq_of_cons-eq (sym (key_nil v) ∙ (e ∙ key_nil w)))
entry_key_injective String.[] (String.◌∷◌ d b) v w p q e =
    absurd (q.0 (ap code (sym (head-eq_of_cons-eq (sym (key_nil v) ∙ (e ∙ key_cons d b w))))))
entry_key_injective (String.◌∷◌ c a) String.[] v w p q e =
    absurd (p.0 (ap code (head-eq_of_cons-eq (sym (key_cons c a v) ∙ (e ∙ key_nil w)))))
entry_key_injective (String.◌∷◌ c a) (String.◌∷◌ d b) v w p q e =
    let both : String.◌∷◌ c (entry_key a v) ≡ String.◌∷◌ d (entry_key b w) =
      sym (key_cons c a v) ∙ (e ∙ key_cons d b w) in
    let (same, rest) = entry_key_injective a b v w p.1 q.1 (tail-eq_of_cons-eq both) in
    (cc (same, head-eq_of_cons-eq both), rest)

not_less_self : (v : String) → is_less (compare_version v v) ≡ false
not_less_self v = ground (arith, compare_version-flip v v)

module _ {F : Type 0} where
  pub record IsRegistry (r : Registry F) : Type 0 where
    -- the latest version has an entry, with that identifier and that version
    pub stored :
        (id v : String)
        → IsPlain id
        → lookup id r.latest ≡ some v
        → (e : Entry F) × (get_version r id v ≡ some e) × (e.info.id ≡ id) × (e.info.version ≡ v)
    -- a model with an entry has a latest version
    pub tracked :
        (id w : String) (e : Entry F)
        → IsPlain id
        → get_version r id w ≡ some e
        → (v : String) × (lookup id r.latest ≡ some v) × (is_less (compare_version v w) ≡ false)

  new-IsRegistry : IsRegistry new_registry
  unfolding new_registry get_version lookup
  new-IsRegistry = record { stored = λ id v p h. cc; tracked = λ id w e p h. cc }

  module _ (r : Registry F) (i : IsRegistry r) (info : ModelInfo) (factory : Option F)
      (plain : IsPlain info.id) where
    abbrev entry : Entry F
    entry = record { info = info; factory = factory }

    abbrev registered : Registry F
    registered = register_info r info factory

    get_version_same : get_version registered info.id info.version ≡ some entry
    unfolding get_version register_info
    get_version_same = lookup-put (entry_key info.id info.version) entry r.entries

    get_version_other :
        (id w : String)
        → IsPlain id
        → ¬ ((id ≡ info.id) × (w ≡ info.version))
        → get_version registered id w ≡ get_version r id w
    unfolding get_version register_info
    get_version_other id w p ne =
        lookup-put_other (entry_key id w) (entry_key info.id info.version) entry r.entries
          (λ e. ne (entry_key_injective id info.id w info.version p plain e))

    latest_other : (id : String) → id ≢ info.id → lookup id registered.latest ≡ lookup id r.latest
    unfolding register_info
    latest_other id ne = ground (arith, lookup-put_other id info.id info.version r.latest ne)

    -- The latest version of the model that is registered.
    latest_new : becomes_latest r info ≡ true → lookup info.id registered.latest ≡ some info.version
    unfolding register_info
    latest_new h = ground (arith, lookup-put info.id info.version r.latest)

    latest_old :
        becomes_latest r info ≡ false → lookup info.id registered.latest ≡ lookup info.id r.latest
    unfolding register_info
    latest_old h = ground arith

    becomes_over :
        (u : String)
        → lookup info.id r.latest ≡ some u
        → becomes_latest r info ≡ not (is_less (compare_version info.version u))
    unfolding becomes_latest
    becomes_over u h = rw (becomes_latest, h) refl

    becomes_first : lookup info.id r.latest ≡ none → becomes_latest r info ≡ true
    unfolding becomes_latest
    becomes_first h = rw (becomes_latest, h) refl

    -- The latest version after the call, with its entry.
    abbrev IsLatest : String → Type 0
    IsLatest v =
        (lookup info.id registered.latest ≡ some v)
        × ((e : Entry F) × (get_version registered info.id v ≡ some e)
            × (e.info.id ≡ info.id)
            × (e.info.version ≡ v))
        × (is_less (compare_version v info.version) ≡ false)
        × ((u : String) → lookup info.id r.latest ≡ some u → is_less (compare_version v u) ≡ false)

    replaced : becomes_latest r info ≡ true → IsLatest info.version
    replaced h = (
      latest_new h,
      (entry, get_version_same, refl, refl),
      not_less_self info.version,
      λ u l. ground (arith, becomes_over u l),
    )

    kept :
        (u : String) → lookup info.id r.latest ≡ some u → becomes_latest r info ≡ false → IsLatest u
    kept u l h =
        let below : is_less (compare_version info.version u) ≡ true =
          ground (arith, becomes_over u l) in
        let apart : u ≢ info.version = λ e. cc (
          below,
          not_less_self info.version,
          ap (λ w. is_less (compare_version info.version w)) e,
        ) in
        let (e, at, named, versioned) = i.stored info.id u plain l in
        (
          latest_old h ∙ l,
          (e, get_version_other info.id u plain (λ q. apart q.1) ∙ at, named, versioned),
          ground (arith, compare_version-flip info.version u),
          λ w k. let same : w ≡ u = ground arith in rw same (not_less_self u),
        )

    after_call : (v : String) × IsLatest v
    after_call = elim (Bool-cases (becomes_latest r info)) [
      | inl h ↦ (info.version, replaced h)
      | inr h ↦ elim (Option-cases (lookup info.id r.latest)) [
        | inl missing ↦ absurd (cc (h, becomes_first missing))
        | inr (u, l) ↦ (u, kept u l h)
      ]
    ]

    still_stored :
        (id v : String)
        → IsPlain id
        → lookup id registered.latest ≡ some v
        → (e : Entry F) × (get_version registered id v ≡ some e)
          × (e.info.id ≡ id)
          × (e.info.version ≡ v)
    still_stored id v p h = elim (key-cases id info.id) [
      | inl same ↦
          let (u, (at, found, _, _)) = after_call in
          let q : u ≡ v = ground (arith, ap (λ k. lookup k registered.latest) same) in
          subst
            (λ k.
              (e : Entry F) × (get_version registered k v ≡ some e)
              × (e.info.id ≡ k)
              × (e.info.version ≡ v))
            (sym same)
            (subst
              (λ k.
                (e : Entry F) × (get_version registered info.id k ≡ some e)
                × (e.info.id ≡ info.id)
                × (e.info.version ≡ k))
              q found)
      | inr other ↦
          let (e, at, named, versioned) = i.stored id v p (sym (latest_other id other) ∙ h) in
          (e, get_version_other id v p (λ q. other q.0) ∙ at, named, versioned)
    ]

    still_tracked :
        (id w : String) (e : Entry F)
        → IsPlain id
        → get_version registered id w ≡ some e
        → (v : String) × (lookup id registered.latest ≡ some v)
          × (is_less (compare_version v w) ≡ false)
    still_tracked id w e p h = elim (key-cases id info.id) [
      | inl same ↦
          let (v, (at, _, over_new, over_old)) = after_call in
          let here : lookup id registered.latest ≡ some v =
            ap (λ k. lookup k registered.latest) same ∙ at in
          elim (key-cases w info.version) [
            | inl new ↦ (v, here, ap (λ k. is_less (compare_version v k)) new ∙ over_new)
            | inr old ↦
                let (u, l, over) =
                  i.tracked id w e p (sym (get_version_other id w p (λ q. old q.1)) ∙ h) in
                (
                  v,
                  here,
                  compare_version_chain v u w
                      (over_old u (sym (ap (λ k. lookup k r.latest) same) ∙ l)) over,
                )
          ]
      | inr other ↦
          let (v, at, over) =
            i.tracked id w e p (sym (get_version_other id w p (λ q. other q.0)) ∙ h) in
          (v, latest_other id other ∙ at, over)
    ]

    register_info-IsRegistry : IsRegistry registered
    register_info-IsRegistry = record { stored = still_stored; tracked = still_tracked }

  -- A registry after these registrations, the first in the list being the last made.
  unfoldable pub register_all : List (ModelInfo × Option F) → Registry F
  register_all [] = new_registry
  register_all ((info, factory) ∷ more) = register_info (register_all more) info factory

  abbrev pub ArePlain : List (ModelInfo × Option F) → Type 0
  ArePlain [] = Unit {0}
  ArePlain ((info, factory) ∷ more) = IsPlain info.id × ArePlain more

  register_all-IsRegistry :
      (regs : List (ModelInfo × Option F)) → ArePlain regs → IsRegistry (register_all regs)
  unfolding register_all
  register_all-IsRegistry [] p = new-IsRegistry
  register_all-IsRegistry ((info, factory) ∷ more) p =
      register_info-IsRegistry (register_all more) (register_all-IsRegistry more p.1) info factory
        p.0

  -- After any registrations of identifiers without '@': if some version of a model can be got, Get
  -- answers an entry of that model whose version is not below it; so Get finds the latest version.
  pub get_latest_correct :
      (regs : List (ModelInfo × Option F)) (id w : String) (e : Entry F)
      → ArePlain regs
      → IsPlain id
      → get_version (register_all regs) id w ≡ some e
      → (top : Entry F) × (get_latest (register_all regs) id ≡ some top)
        × (top.info.id ≡ id)
        × (is_less (compare_version top.info.version w) ≡ false)
  unfolding get_latest get_version entry_or_zero
  get_latest_correct regs id w e plain p h =
      let r = register_all-IsRegistry regs plain in
      let (v, at, over) = r.tracked id w e p h in
      let (top, there, named, versioned) = r.stored id v p at in
      (
        top,
        rw (get_latest, at, there) refl,
        named,
        ap (λ k. is_less (compare_version k w)) versioned ∙ over,
      )
