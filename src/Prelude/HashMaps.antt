-- ===== src/Prelude/HashMaps.antt =====
-- `HashMap` and `HashSet` where their entries are listed: the entries in some order, one to a key.
use Prim.Native.Nat.{suc}
use mathlib.Core.Path.{◌≡◌, refl, ap}
use mathlib.Core.Bool.{Bool, true, false, not, ◌||◌}
use mathlib.Core.List.{List, [], ◌∷◌}
use mathlib.Core.Option.{Option, none, some}
use mathlib.Core.Logic.{inl, inr}
use native.Mathlib.Omega.{arith}
use singularis.Prelude.Tests.{if◌then◌else◌, Bool-cases}
use singularis.Prelude.Equality.{Eq, ◌==◌, ==_refl}
use singularis.Prelude.Lists.{retain, All, length}

abbrev pub HashMap : Type 0 → Type 0 → Type 0
HashMap K V = List (K × V)

abbrev pub HashSet : Type 0 → Type 0
HashSet K = HashMap K Unit

abbrev pub is_some : {A : Type 0} → Option A → Bool
is_some none = false
is_some (some a) = true

module _ {K V : Type 0} ⦃e : Eq K⦄ where
  unfoldable pub get : K → HashMap K V → Option V
  get k [] = none
  get k ((j, v) ∷ m) = if k == j then some v else get k m

  abbrev pub contains : K → HashMap K V → Bool
  contains k m = is_some (get k m)

  unfoldable pub put : K → V → HashMap K V → HashMap K V
  put k v m = (k, v) ∷ retain (λ entry. not (k == entry.0)) m

  -- One entry to a key.
  unfoldable pub Distinct : HashMap K V → Type 0
  Distinct [] = Unit
  Distinct ((k, v) ∷ m) = (get k m ≡ none) × Distinct m

  get-retain_self : (k : K) (m : HashMap K V) → get k (retain (λ p. not (k == p.0)) m) ≡ none
  unfolding get retain
  get-retain_self k [] = refl
  get-retain_self k ((j, v) ∷ m) = elim (Bool-cases (k == j)) [
    | inl h ↦ rw h (get-retain_self k m)
    | inr h ↦ rw (h, h) (get-retain_self k m)
  ]

  get-retain_other :
      (k j : K) (m : HashMap K V)
      → (k == j) ≡ false
      → get j (retain (λ p. not (k == p.0)) m) ≡ get j m
  unfolding get retain
  get-retain_other k j [] h = refl
  get-retain_other k j ((i, v) ∷ m) h =
      ground (arith, get-retain_other k j m h, e.beq_iff k i, e.beq_iff j i, e.beq_iff k j)

  pub get-put_self : (k : K) (v : V) (m : HashMap K V) → get k (put k v m) ≡ some v
  unfolding get put
  get-put_self k v m = rw (==_refl k) refl

  pub get-put :
      (k : K) (v : V) (j : K) (m : HashMap K V)
      → get j (put k v m) ≡ (if j == k then some v else get j m)
  unfolding get put
  get-put k v j m = elim (Bool-cases (j == k)) [
    | inl h ↦ rw h refl
    | inr h ↦ rw h (get-retain_other k j m (ground (arith, e.beq_iff k j, e.beq_iff j k)))
  ]

  pub contains-put :
      (k : K) (v : V) (j : K) (m : HashMap K V) → contains j (put k v m) ≡ (j == k || contains j m)
  contains-put k v j m = elim (Bool-cases (j == k)) [
    | inl h ↦ rw (get-put k v j m, h) refl
    | inr h ↦ rw (get-put k v j m, h) refl
  ]

  get-retain-none :
      (p : K × V → Bool) (k : K) (m : HashMap K V) → get k m ≡ none → get k (retain p m) ≡ none
  unfolding get retain
  get-retain-none p k [] h = refl
  get-retain-none p k ((j, v) ∷ m) h = ground (arith, get-retain-none p k m)

  Distinct-retain : (p : K × V → Bool) (m : HashMap K V) → Distinct m → Distinct (retain p m)
  unfolding retain Distinct
  Distinct-retain p [] h = tt
  Distinct-retain p ((k, v) ∷ m) (h, rest) = elim (Bool-cases (p (k, v))) [
    | inl q ↦ rw q (get-retain-none p k m h, Distinct-retain p m rest)
    | inr q ↦ rw q (Distinct-retain p m rest)
  ]

  pub Distinct-put : (k : K) (v : V) (m : HashMap K V) → Distinct m → Distinct (put k v m)
  unfolding put Distinct
  Distinct-put k v m h = (get-retain_self k m, Distinct-retain (λ p. not (k == p.0)) m h)

  retain-absent : (k : K) (m : HashMap K V) → get k m ≡ none → retain (λ p. not (k == p.0)) m ≡ m
  unfolding get retain
  retain-absent k [] h = refl
  retain-absent k ((j, w) ∷ m) h = ground (arith, retain-absent k m)

  pub length-put :
      (k : K) (v : V) (m : HashMap K V) → get k m ≡ none → length (put k v m) ≡ suc (length m)
  unfolding put
  length-put k v m h = ap (λ rest. suc (length rest)) (retain-absent k m h)

  -- What holds of each value under its key holds of all entries.
  pub All-get :
      (P : K × V → Type 0) (m : HashMap K V)
      → Distinct m
      → ((k : K) (v : V) → get k m ≡ some v → P (k, v))
      → All P m
  unfolding get Distinct
  All-get P [] d h = tt
  All-get P ((k, v) ∷ m) (absent, d) h = (
    h k v (rw (==_refl k) refl),
    All-get P m d (λ j w found. h j w (ground (arith, e.beq_iff j k))),
  )
