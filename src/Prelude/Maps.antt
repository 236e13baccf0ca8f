-- ===== src/Prelude/Maps.antt =====
-- `HashMap` and `HashSet` as functions from their keys: the source never relies on an order of
-- iteration, and every operation that it uses is one of these.
use mathlib.Core.Path.{◌≡◌, refl}
use mathlib.Core.Option.{Option, none, some}
use native.Mathlib.Omega.{arith}
use singularis.Prelude.Tests.{if◌then◌else◌}
use singularis.Prelude.Equality.{Eq, ◌==◌}

abbrev pub Map : Type 0 → Type 0 → Type 0
Map K V = K → Option V

-- `Option::and_then`.
abbrev pub and_then : {A B : Type 0} → Option A → (A → Option B) → Option B
and_then none f = none
and_then (some v) f = f v

module _ {K V : Type 0} where
  abbrev pub empty_map : Map K V
  empty_map k = none

  -- `retain` on the values; the callback may change a value that it keeps.
  abbrev pub filter_values : (V → Option V) → Map K V → Map K V
  filter_values f m k = and_then (m k) f

module _ {K V : Type 0} ⦃e : Eq K⦄ where
  unfoldable pub insert : K → V → Map K V → Map K V
  insert k v m j = if k == j then some v else m j

  pub insert_self : (k : K) (v : V) (m : Map K V) → insert k v m k ≡ some v
  unfolding insert
  insert_self k v m = ground (arith, (e.beq_iff k k).1 refl)
