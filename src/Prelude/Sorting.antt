-- ===== src/Prelude/Sorting.antt =====
-- `sort_by` on lists and on the entries of a map.
use Prim.Native.Nat.{ℕ}
use mathlib.Core.Path.{◌≡◌, ◌∙◌, refl}
use mathlib.Core.Bool.{Bool, true, false, ◌||◌, ◌&&◌}
use mathlib.Core.List.{List, [], ◌∷◌, map}
use mathlib.Core.Option.{none}
use mathlib.Core.Logic.{inl, inr}
use native.Mathlib.Omega.{arith}
use singularis.Prelude.Tests.{if◌then◌else◌, Bool-cases, ltb, eqb}
use singularis.Prelude.Equality.{Eq}
use singularis.Prelude.Lists.{All}
use singularis.Prelude.HashMaps.{HashMap, get, Distinct}

-- Byte strings in their lexicographic order.
unfoldable pub le_bytes : List ℕ → List ℕ → Bool
le_bytes [] ys = true
le_bytes (x ∷ xs) [] = false
le_bytes (x ∷ xs) (y ∷ ys) = ltb x y || eqb x y && le_bytes xs ys

module _ {A : Type 0} (le : A → A → Bool) where
  unfoldable pub place : A → List A → List A
  place x [] = x ∷ []
  place x (y ∷ ys) = if le x y then x ∷ y ∷ ys else y ∷ place x ys

  unfoldable pub sort_by : List A → List A
  sort_by [] = []
  sort_by (x ∷ xs) = place x (sort_by xs)

  All-place : (P : A → Type 0) (x : A) (xs : List A) → P x → All P xs → All P (place x xs)
  unfolding place
  All-place P x [] h hs = (h, tt)
  All-place P x (y ∷ ys) h (k, ks) = elim (Bool-cases (le x y)) [
    | inl q ↦ rw q (h, (k, ks))
    | inr q ↦ rw q (k, All-place P x ys h ks)
  ]

  pub All-sort_by : (P : A → Type 0) (xs : List A) → All P xs → All P (sort_by xs)
  unfolding sort_by
  All-sort_by P [] h = tt
  All-sort_by P (x ∷ xs) (h, hs) = All-place P x (sort_by xs) h (All-sort_by P xs hs)

-- Sorting by a key of the image is sorting by the key of the source.
module _ {A B : Type 0} (le : B → B → Bool) (f : A → B) where
  map-place :
      (x : A) (xs : List A) → place le (f x) (map f xs) ≡ map f (place (λ a b. le (f a) (f b)) x xs)
  unfolding place
  map-place x [] = refl
  map-place x (y ∷ ys) = elim (Bool-cases (le (f x) (f y))) [
    | inl q ↦ rw q refl
    | inr q ↦ rw (q, map-place x ys) refl
  ]

  pub map-sort_by :
      (xs : List A) → sort_by le (map f xs) ≡ map f (sort_by (λ a b. le (f a) (f b)) xs)
  unfolding sort_by
  map-sort_by [] = refl
  map-sort_by (x ∷ xs) = rw (map-sort_by xs) (map-place x _)

-- A map's entries in another order are the same map.
module _ {K V : Type 0} ⦃e : Eq K⦄ (le : K × V → K × V → Bool) where
  get-place :
      (k : K) (v : V) (j : K) (m : HashMap K V)
      → get k m ≡ none
      → get j (place le (k, v) m) ≡ get j ((k, v) ∷ m)
  unfolding place get
  get-place k v j [] h = refl
  get-place k v j ((i, w) ∷ m) h =
      ground (arith, get-place k v j m, e.beq_iff j k, e.beq_iff j i, e.beq_iff k i)

  Distinct-place :
      (k : K) (v : V) (m : HashMap K V) → get k m ≡ none → Distinct m → Distinct (place le (k, v) m)
  unfolding place Distinct get
  Distinct-place k v [] h d = (refl, tt)
  Distinct-place k v ((i, w) ∷ m) h (d, ds) = elim (Bool-cases (le (k, v) (i, w))) [
    | inl q ↦ rw q (h, (d, ds))
    | inr q ↦ rw q (
      get-place k v i m (ground arith) ∙ ground (arith, e.beq_iff i k, e.beq_iff k i),
      Distinct-place k v m (ground arith) ds,
    )
  ]

  pub get-sort_by : (m : HashMap K V) → Distinct m → (j : K) → get j (sort_by le m) ≡ get j m
  unfolding sort_by Distinct get
  get-sort_by [] d j = refl
  get-sort_by ((k, v) ∷ m) (h, d) j =
      get-place k v j (sort_by le m) (get-sort_by m d k ∙ h) ∙ rw (get-sort_by m d j) refl

  pub Distinct-sort_by : (m : HashMap K V) → Distinct m → Distinct (sort_by le m)
  unfolding sort_by Distinct
  Distinct-sort_by [] d = tt
  Distinct-sort_by ((k, v) ∷ m) (h, d) =
      Distinct-place k v (sort_by le m) (get-sort_by m d k ∙ h) (Distinct-sort_by m d)
