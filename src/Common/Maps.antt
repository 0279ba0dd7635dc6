-- ===== src/Common/Maps.antt =====
-- Go maps as association lists, for any type of keys with a Boolean equality.
use Prim.Native.Nat.{ℕ}
use Prim.Native.String.{String}
use mathlib.Core.Path.{◌≡◌, refl, sym, ◌∙◌}
use mathlib.Core.Logic.{◌↔◌, ◌≢◌, ◌⊎◌, inl, inr}
use mathlib.Core.Bool.{Bool, true, false}
use mathlib.Core.Option.{Option, none, some}
use mathlib.Core.List.{List, [], ◌∷◌}
use native.Mathlib.Omega.{arith}
use simulator.Common.Tests.{◌==◌, ==_iff, if◌then◌else◌, Bool-cases}
use text.Mathlib.Text
use text.Mathlib.TextEquality.{eq_iff}

pub record Key {ℓ} (K : Type ℓ) : Type ℓ where
  pub same : K → K → Bool
  pub same_iff : (a b : K) → (same a b ≡ true) ↔ (a ≡ b)

instance abbrev pub number_key : Key ℕ
number_key = record { same = λ a b. a == b; same_iff = ==_iff }

instance abbrev pub text_key : Key String
text_key = record { same = λ a b. Text.◌==◌ a b; same_iff = eq_iff }

module _ {ℓ} {K : Type ℓ} ⦃key : Key K⦄ where
  same_self : (k : K) → key.same k k ≡ true
  same_self k = (key.same_iff k k).1 refl

  same_other : (k j : K) → k ≢ j → key.same k j ≡ false
  same_other k j ne = elim (Bool-cases (key.same k j)) [
    | inl e ↦ absurd (ne ((key.same_iff k j).0 e))
    | inr e ↦ e
  ]

  pub key-cases : (k j : K) → (k ≡ j) ⊎ (k ≢ j)
  key-cases k j = elim (Bool-cases (key.same k j)) [
    | inl e ↦ inl ((key.same_iff k j).0 e)
    | inr e ↦ inr (λ q. cc (e, (key.same_iff k j).1 q))
  ]

module _ {ℓ κ} {K : Type ℓ} {V : Type κ} ⦃key : Key K⦄ where
  unfoldable pub lookup : K → List (K × V) → Option V
  lookup k [] = none
  lookup k ((j, v) ∷ m) = if key.same k j then some v else lookup k m

  unfoldable pub delete : K → List (K × V) → List (K × V)
  delete k [] = []
  delete k ((j, v) ∷ m) = let rest = delete k m in if key.same k j then rest else (j, v) ∷ rest

  unfoldable pub put : K → V → List (K × V) → List (K × V)
  put k v m = (k, v) ∷ delete k m

  pub lookup-delete : (k : K) (m : List (K × V)) → lookup k (delete k m) ≡ none
  unfolding lookup delete
  lookup-delete k [] = refl
  lookup-delete k ((j, v) ∷ m) = ground (arith, lookup-delete k m)

  pub lookup-delete_other :
      (k j : K) (m : List (K × V)) → k ≢ j → lookup k (delete j m) ≡ lookup k m
  unfolding lookup delete
  lookup-delete_other k j [] ne = refl
  lookup-delete_other k j ((i, v) ∷ m) ne = elim (Bool-cases (key.same j i)) [
    | inl e ↦
        let apart : key.same k i ≡ false =
          same_other k i (λ q. ne (q ∙ sym ((key.same_iff j i).0 e))) in
        ground (arith, lookup-delete_other k j m ne)
    | inr e ↦ ground (arith, lookup-delete_other k j m ne)
  ]

  pub lookup-put : (k : K) (v : V) (m : List (K × V)) → lookup k (put k v m) ≡ some v
  unfolding lookup put
  lookup-put k v m = ground (arith, same_self k)

  pub lookup-put_other :
      (k j : K) (v : V) (m : List (K × V)) → k ≢ j → lookup k (put j v m) ≡ lookup k m
  unfolding lookup put
  lookup-put_other k j v m ne = ground (arith, same_other k j ne, lookup-delete_other k j m ne)
