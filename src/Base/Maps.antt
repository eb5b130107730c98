-- ===== src/Base/Maps.antt =====
-- Keys that can be compared, and the maps that the program keeps by such keys. The order of a
-- `std::unordered_map` is not read, so a map is its entries with the newest first.
use mathlib.Core.Bool.{Bool, true}
use mathlib.Core.List.{List, [], ◌∷◌}
use mathlib.Core.Logic.{◌↔◌, inl, inr}
use mathlib.Core.Option.{Option, none, some, some-injective}
use mathlib.Core.Path.{◌≡◌, subst}
use native.Mathlib.Omega.{arith}
use kai_cc.Base.Tests.{if◌then◌else◌, Bool-cases, Option-cases}

pub record Key {ℓ} (K : Type ℓ) : Type ℓ where
  pub equal : K → K → Bool
  pub equal_iff : (a b : K) → (equal a b ≡ true) ↔ (a ≡ b)

module _ {ℓ κ} {K : Type ℓ} {V : Type κ} ⦃key : Key K⦄ where
  unfoldable pub find : K → List (K × V) → Option V
  find k [] = none
  find k ((j, v) ∷ m) = if key.equal j k then some v else find k m

  -- An entry that is there stays.
  unfoldable pub emplace : K → V → List (K × V) → List (K × V)
  emplace k v m = elim (find k m) [ none ↦ (k, v) ∷ m | some w ↦ m ]

  unfoldable pub insert_or_assign : K → V → List (K × V) → List (K × V)
  insert_or_assign k v m = (k, v) ∷ m

  pub find-emplace :
      (k j : K) (v : V) (m : List (K × V))
      → find j (emplace k v m)
        ≡ elim (find k m) [ none ↦ if key.equal k j then some v else find j m | some w ↦ find j m ]
  unfolding find emplace
  find-emplace k j v m = ground arith

  -- Every value of a map has a property.
  abbrev pub Every {μ} : (K → V → Type μ) → List (K × V) → Type μ
  Every P [] = Unit
  Every P ((k, v) ∷ m) = P k v × Every P m

  pub Every-find {μ} :
      (P : K → V → Type μ) (k : K) {v : V} (m : List (K × V))
      → Every P m
      → find k m ≡ some v
      → P k v
  unfolding find
  Every-find P k [] h e = cc e
  Every-find P k {v} ((j, w) ∷ m) h e = elim (Bool-cases (key.equal j k)) [
    | inl same ↦
        subst (λ x. P x v) ((key.equal_iff j k).0 same)
          (subst (λ x. P j x) (some-injective _ _ (rw same at e)) h.0)
    | inr other ↦ Every-find P k m h.1 (rw other at e)
  ]

  pub Every-emplace {μ} :
      (P : K → V → Type μ) (k : K) (v : V) (m : List (K × V))
      → P k v
      → Every P m
      → Every P (emplace k v m)
  unfolding emplace
  Every-emplace P k v m p h = elim (Option-cases (find k m)) [
    | inl e ↦ rw (e, emplace) (p, h)
    | inr (w, e) ↦ rw (e, emplace) h
  ]
