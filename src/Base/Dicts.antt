-- ===== src/Base/Dicts.antt =====
-- Python's `dict` in insertion order: an assignment to a key that is there replaces its value in
-- place, and one to a new key goes to the end.
use red_forge.Base.Tests.{Bool-cases, if◌then◌else◌}
use red_forge.Base.Orders.{Order, ◌==◌, le_refl, contains, distinct}
use mathlib.Core.Path.{◌≡◌, refl}
use mathlib.Core.Logic.{inl, inr}
use mathlib.Core.Bool.{Bool, true, false, ◌||◌}
use mathlib.Core.List.{List, [], ◌∷◌, map}
use mathlib.Core.Option.{Option, none, some}
use native.Mathlib.Omega.{arith}

abbrev pub Dict {ℓ κ} : Type ℓ → Type κ → Type (ℓ ⊔ κ)
Dict K V = List (K × V)

abbrev pub keys {ℓ κ} : {K : Type ℓ} {V : Type κ} → Dict K V → List K
keys d = map (λ e. e.0) d

module _ {ℓ κ} {K : Type ℓ} {V : Type κ} ⦃o : Order K⦄ where
  -- `d.get(k)`
  unfoldable pub lookup : K → Dict K V → Option V
  lookup k [] = none
  lookup k ((j, v) ∷ d) = if k == j then some v else lookup k d

  -- `d[k] = v`
  unfoldable pub put : K → V → Dict K V → Dict K V
  put k v [] = (k, v) ∷ []
  put k v ((j, w) ∷ d) = if k == j then (j, v) ∷ d else (j, w) ∷ put k v d

  -- `d.update(e)`
  unfoldable pub update : Dict K V → Dict K V → Dict K V
  unfolding put
  update d [] = d
  update d ((k, v) ∷ e) = update (put k v d) e

  -- `k in d`
  unfoldable pub has : K → Dict K V → Bool
  unfolding contains
  has k d = contains k (keys d)

  pub lookup-put :
      (k j : K) (v : V) (d : Dict K V)
      → lookup j (put k v d) ≡ (if j == k then some v else lookup j d)
  unfolding lookup put
  lookup-put k j v [] = refl
  lookup-put k j v ((i, w) ∷ d) =
      ground
        (arith, o.le_antisym k i, o.le_antisym j i, o.le_antisym j k, le_refl i, lookup-put k j v d)

  pub contains-keys-put :
      (k j : K) (v : V) (d : Dict K V)
      → contains j (keys (put k v d)) ≡ (j == k || contains j (keys d))
  unfolding put contains
  contains-keys-put k j v [] = refl
  contains-keys-put k j v ((i, w) ∷ d) = ground (arith, o.le_antisym k i, contains-keys-put k j v d)

  pub distinct-keys-put :
      (k : K) (v : V) (d : Dict K V) → distinct (keys d) ≡ true → distinct (keys (put k v d)) ≡ true
  unfolding put distinct
  distinct-keys-put k v [] h = refl
  distinct-keys-put k v ((i, w) ∷ d) h =
      ground
        (arith, contains-keys-put k i v d, o.le_antisym i k, le_refl k, distinct-keys-put k v d)

  pub lookup-none_of : (k : K) (d : Dict K V) → has k d ≡ false → lookup k d ≡ none
  unfolding lookup has
  lookup-none_of k [] h = refl
  lookup-none_of k ((j, v) ∷ d) h = ground (arith, lookup-none_of k d)

  pub has-of_some : (k : K) (d : Dict K V) (v : V) → lookup k d ≡ some v → has k d ≡ true
  unfolding lookup has
  has-of_some k [] v h = cc
  has-of_some k ((j, w) ∷ d) v h = ground (arith, has-of_some k d v)

  pub some-of_has : (k : K) (d : Dict K V) → has k d ≡ true → (v : V) × (lookup k d ≡ some v)
  unfolding lookup has
  some-of_has k [] h = absurd (cc)
  some-of_has k ((j, w) ∷ d) h = elim (Bool-cases (k == j)) [
    | inl e ↦ (w, rw e)
    | inr e ↦ rw e (some-of_has k d (ground arith))
  ]
