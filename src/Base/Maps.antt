-- ===== src/Base/Maps.antt =====
-- JavaScript's `Map` with string keys, in insertion order.
use mathlib.Core.Path.{◌≡◌, refl}
use mathlib.Core.Logic.{◌≢◌}
use mathlib.Core.Option.{Option, none, some}
use mathlib.Core.List.{List, [], ◌∷◌}
use native.Mathlib.Omega.{arith}
use event_sourced_core_banki.Base.Tests.{if◌then◌else◌}
use event_sourced_core_banki.Base.Texts.{Text, ◌==◌, eq_iff, eq_refl}

abbrev pub Dict {ℓ} : Type ℓ → Type ℓ
Dict V = List (Text × V)

module _ {ℓ} {V : Type ℓ} where
  -- `map.get(k)`
  unfoldable pub get : Dict V → Text → Option V
  get [] k = none
  get ((j, v) ∷ m) k = if j == k then some v else get m k

  -- `map.set(k, v)`
  unfoldable pub put : Dict V → Text → V → Dict V
  put [] k v = (k, v) ∷ []
  put ((j, w) ∷ m) k v = if j == k then (k, v) ∷ m else (j, w) ∷ put m k v

  -- `map.delete(k)`
  unfoldable pub remove : Dict V → Text → Dict V
  remove [] k = []
  remove ((j, w) ∷ m) k = if j == k then remove m k else (j, w) ∷ remove m k

  -- `[...map.values()]`
  unfoldable pub values : Dict V → List V
  values [] = []
  values ((j, w) ∷ m) = w ∷ values m

  pub get-put :
      (m : Dict V) (k j : Text) (v : V) → get (put m k v) j ≡ (if k == j then some v else get m j)
  unfolding get put
  get-put [] k j v = refl
  get-put ((i, w) ∷ m) k j v = ground (arith, eq_iff k j, eq_iff i k, eq_iff i j, get-put m k j v)

  pub get-remove :
      (m : Dict V) (k j : Text) → get (remove m k) j ≡ (if k == j then none else get m j)
  unfolding get remove
  get-remove [] k j = ground arith
  get-remove ((i, w) ∷ m) k j = ground (arith, eq_iff k j, eq_iff i k, eq_iff i j, get-remove m k j)

  pub get-put_self : (m : Dict V) (k : Text) (v : V) → get (put m k v) k ≡ some v
  get-put_self m k v = rw (get-put, eq_refl)

  pub get-put_ne : (m : Dict V) {k j : Text} (v : V) → k ≢ j → get (put m k v) j ≡ get m j
  get-put_ne m {k} {j} v h = ground (arith, get-put m k j v, eq_iff k j)

pub ruleset dict_laws = (get-put, get-remove)
