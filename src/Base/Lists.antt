-- ===== src/Base/Lists.antt =====
-- Lists measured and indexed by native numbers, and the bytes of a text.
use Prim.Native.Char.{code}
use Prim.Native.String.{String}
use Prim.Native.Nat.{ℕ, zero, suc, ◌+◌, ◌<◌}
use mathlib.Core.Logic.{◌⊎◌, inl, inr}
use mathlib.Core.Path.{◌≡◌, refl, sym, ap, ◌∙◌}
use mathlib.Core.List.{List, [], ◌∷◌, ◌++◌}
use mathlib.Core.Option.{Option, none, some, some-injective}
use mathlib.Core.Bool.{Bool, true, false}
use native.Mathlib.Omega.{arith}
use kai_cc.Base.Tests.{Bool-cases, if◌then◌else◌}

abbrev pub Bytes : Type 0
Bytes = List ℕ

-- The code points of a text: its bytes, if it is ASCII.
abbrev pub codes : String → Bytes
codes String.[] = []
codes (String.◌∷◌ c s) = code c ∷ codes s

module _ {ℓ} {A : Type ℓ} where
  abbrev pub length : List A → ℕ
  length [] = 0
  length (x ∷ xs) = suc (length xs)

  abbrev pub get_or : List A → ℕ → A → A
  get_or [] i d = d
  get_or (x ∷ xs) zero d = x
  get_or (x ∷ xs) (suc i) d = get_or xs i d

  abbrev pub get_elem? : List A → ℕ → Option A
  get_elem? [] i = none
  get_elem? (x ∷ xs) zero = some x
  get_elem? (x ∷ xs) (suc i) = get_elem? xs i

  abbrev pub drop : ℕ → List A → List A
  drop zero xs = xs
  drop (suc n) [] = []
  drop (suc n) (x ∷ xs) = drop n xs

  abbrev pub take : ℕ → List A → List A
  take zero xs = []
  take (suc n) [] = []
  take (suc n) (x ∷ xs) = x ∷ take n xs

  pub length-append : (xs ys : List A) → length (xs ++ ys) ≡ length xs + length ys
  length-append [] ys = omega arith
  length-append (x ∷ xs) ys = omega (arith, length-append xs ys)

  pub get_elem?-append :
      (xs ys : List A) (i : ℕ) {x : A} → get_elem? xs i ≡ some x → get_elem? (xs ++ ys) i ≡ some x
  get_elem?-append [] ys i e = cc e
  get_elem?-append (x ∷ xs) ys zero e = e
  get_elem?-append (x ∷ xs) ys (suc i) e = get_elem?-append xs ys i e

  pub get_elem?-last : (xs : List A) (x : A) → get_elem? (xs ++ x ∷ []) (length xs) ≡ some x
  get_elem?-last [] x = refl
  get_elem?-last (y ∷ xs) x = get_elem?-last xs x

  pub get_elem?-lt : (xs : List A) (i : ℕ) {x : A} → get_elem? xs i ≡ some x → i < length xs
  get_elem?-lt [] i e = cc e
  get_elem?-lt (x ∷ xs) zero e = omega arith
  get_elem?-lt (x ∷ xs) (suc i) e = omega (arith, get_elem?-lt xs i e)

  -- What is read from a list with one more element behind it.
  pub get_elem?-cases :
      (xs : List A) (y : A) (i : ℕ) {x : A}
      → get_elem? (xs ++ y ∷ []) i ≡ some x
      → (get_elem? xs i ≡ some x) ⊎ ((i ≡ length xs) × (y ≡ x))
  get_elem?-cases [] y zero e = inr (refl, some-injective _ _ e)
  get_elem?-cases [] y (suc i) e = cc e
  get_elem?-cases (z ∷ xs) y zero e = inl e
  get_elem?-cases (z ∷ xs) y (suc i) e = elim (get_elem?-cases xs y i e) [
    | inl h ↦ inl h
    | inr (h, k) ↦ inr (ap suc h, k)
  ]

  -- The place of the first element that passes a test, or the end.
  unfoldable pub index_where : (A → Bool) → List A → ℕ
  index_where test [] = 0
  index_where test (x ∷ xs) = let later = index_where test xs in if test x then 0 else suc later

  pub index_where_lem :
      (test : A → Bool) (xs : List A)
      → ((x : A) × (get_elem? xs (index_where test xs) ≡ some x) × (test x ≡ true))
        ⊎ ((index_where test xs ≡ length xs)
            × ((i : ℕ) (x : A) → get_elem? xs i ≡ some x → test x ≡ false))
  unfolding index_where
  index_where_lem test [] = inr (refl, λ i x e. cc e)
  index_where_lem test (y ∷ xs) = elim (Bool-cases (test y)) [
    | inl e ↦ inl (y, rw e refl, e)
    | inr e ↦ elim (index_where_lem test xs) [
      | inl (x, at, h) ↦ inl (x, rw e at, h)
      | inr (past, fails) ↦ inr (rw e (ap suc past), fails_first test y xs e fails)
    ]
  ]
    where
      fails_first :
          (test : A → Bool) (y : A) (xs : List A)
          → test y ≡ false
          → ((i : ℕ) (x : A) → get_elem? xs i ≡ some x → test x ≡ false)
          → (i : ℕ) (x : A) → get_elem? (y ∷ xs) i ≡ some x
          → test x ≡ false
      fails_first test y xs e fails zero x at = ap test (sym (some-injective _ _ at)) ∙ e
      fails_first test y xs e fails (suc i) x at = fails i x at
