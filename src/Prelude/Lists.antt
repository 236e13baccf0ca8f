-- ===== src/Prelude/Lists.antt =====
-- Lists over the native numbers: lengths, `Vec::retain`, `Iterator::any`, and predicates by
-- recursion.
use Prim.Native.Nat.{ℕ, zero, suc, ◌+◌, ◌≤◌}
use mathlib.Core.Path.{◌≡◌, refl}
use mathlib.Core.Bool.{Bool, true, false, ◌&&◌, ◌||◌}
use mathlib.Core.List.{List, [], ◌∷◌, ◌++◌, map}
use native.Mathlib.Omega.{arith}
use mathlib.Core.Logic.{inl, inr}
use singularis.Prelude.Tests.{if◌then◌else◌, Bool-cases}

abbrev pub All {ℓ κ} : {A : Type ℓ} → (A → Type κ) → List A → Type κ
All P [] = Unit
All P (x ∷ xs) = P x × All P xs

module _ {ℓ} {A : Type ℓ} where
  abbrev pub length : List A → ℕ
  length [] = 0
  length (x ∷ xs) = suc (length xs)

  abbrev pub is_empty : List A → Bool
  is_empty [] = true
  is_empty (x ∷ xs) = false

  abbrev pub take : ℕ → List A → List A
  take zero xs = []
  take (suc n) [] = []
  take (suc n) (x ∷ xs) = x ∷ take n xs

  pub length-append : (xs ys : List A) → length (xs ++ ys) ≡ length xs + length ys
  length-append [] ys = omega arith
  length-append (x ∷ xs) ys = omega (arith, length-append xs ys)

  -- `Vec::retain`, and `filter` on an iterator.
  unfoldable pub retain : (A → Bool) → List A → List A
  retain p [] = []
  retain p (x ∷ xs) = if p x then x ∷ retain p xs else retain p xs

  unfoldable pub any : (A → Bool) → List A → Bool
  any p [] = false
  any p (x ∷ xs) = p x || any p xs

  unfoldable pub all : (A → Bool) → List A → Bool
  all p [] = true
  all p (x ∷ xs) = p x && all p xs

  pub retain-append :
      (p : A → Bool) (xs ys : List A) → retain p (xs ++ ys) ≡ retain p xs ++ retain p ys
  unfolding retain
  retain-append p [] ys = refl
  retain-append p (x ∷ xs) ys = ground (arith, retain-append p xs ys)

  pub retain_comm : (p q : A → Bool) (xs : List A) → retain p (retain q xs) ≡ retain q (retain p xs)
  unfolding retain
  retain_comm p q [] = refl
  retain_comm p q (x ∷ xs) = ground (arith, retain_comm p q xs)

  pub length-retain-le : (p : A → Bool) (xs : List A) → length (retain p xs) ≤ length xs
  unfolding retain
  length-retain-le p [] = omega arith
  length-retain-le p (x ∷ xs) = ground (arith, length-retain-le p xs)

  pub All-append {κ} : (P : A → Type κ) (xs ys : List A) → All P xs → All P ys → All P (xs ++ ys)
  All-append P [] ys hx hy = hy
  All-append P (x ∷ xs) ys hx hy = (hx.0, All-append P xs ys hx.1 hy)

  pub All-mono {κ μ} :
      (P : A → Type κ) (Q : A → Type μ) (f : (a : A) → P a → Q a) (xs : List A)
      → All P xs
      → All Q xs
  All-mono P Q f [] h = tt
  All-mono P Q f (x ∷ xs) h = (f x h.0, All-mono P Q f xs h.1)

  All-retain-cons {κ} :
      (P : A → Type κ) (b : Bool) (x : A) (r : List A)
      → P x
      → All P r
      → All P (if b then x ∷ r else r)
  All-retain-cons P true x r hx hr = (hx, hr)
  All-retain-cons P false x r hx hr = hr

  pub All-retain {κ} :
      (P : A → Type κ) (p : A → Bool) (xs : List A) → All P xs → All P (retain p xs)
  unfolding retain
  All-retain P p [] h = tt
  All-retain P p (x ∷ xs) h = All-retain-cons P (p x) x (retain p xs) h.0 (All-retain P p xs h.1)

  -- What `retain` leaves passes its test.
  pub All-retain_self : (p : A → Bool) (xs : List A) → All (λ a. p a ≡ true) (retain p xs)
  unfolding retain
  All-retain_self p [] = tt
  All-retain_self p (x ∷ xs) = elim (Bool-cases (p x)) [
    | inl e ↦ rw e (e, All-retain_self p xs)
    | inr e ↦ rw e (All-retain_self p xs)
  ]

-- What holds of all holds of the retained ones, which moreover pass the test.
pub All-retain_and {ℓ κ} :
    {A : Type ℓ} (P : A → Type κ) (p : A → Bool) (xs : List A)
    → All P xs
    → All (λ a. P a × (p a ≡ true)) (retain p xs)
unfolding retain
All-retain_and P p [] h = tt
All-retain_and P p (x ∷ xs) h = elim (Bool-cases (p x)) [
  | inl e ↦ rw e ((h.0, e), All-retain_and P p xs h.1)
  | inr e ↦ rw e (All-retain_and P p xs h.1)
]

-- Every element stands in the relation to each later one.
abbrev pub Pairwise {ℓ κ} : {A : Type ℓ} → (A → A → Type κ) → List A → Type κ
Pairwise R [] = Unit
Pairwise R (x ∷ xs) = All (R x) xs × Pairwise R xs

module _ {ℓ κ} {A : Type ℓ} (R : A → A → Type κ) where
  Pairwise-retain-cons :
      (b : Bool) (x : A) (r : List A)
      → All (R x) r
      → Pairwise R r
      → Pairwise R (if b then x ∷ r else r)
  Pairwise-retain-cons true x r hx hr = (hx, hr)
  Pairwise-retain-cons false x r hx hr = hr

  pub Pairwise-retain : (p : A → Bool) (xs : List A) → Pairwise R xs → Pairwise R (retain p xs)
  unfolding retain
  Pairwise-retain p [] h = tt
  Pairwise-retain p (x ∷ xs) h =
      Pairwise-retain-cons (p x) x (retain p xs) (All-retain (R x) p xs h.0)
        (Pairwise-retain p xs h.1)

  pub Pairwise-snoc :
      (xs : List A) (y : A) → All (λ x. R x y) xs → Pairwise R xs → Pairwise R (xs ++ y ∷ [])
  Pairwise-snoc [] y h d = (tt, tt)
  Pairwise-snoc (x ∷ xs) y h d =
      (All-append (R x) xs (y ∷ []) d.0 (h.0, tt), Pairwise-snoc xs y h.1 d.1)

pub All-zip {ℓ κ μ ν} :
    {A : Type ℓ} (P : A → Type κ) (Q : A → Type μ) (S : A → Type ν)
    → ((a : A) → P a → Q a → S a)
    → (xs : List A) → All P xs
    → All Q xs
    → All S xs
All-zip P Q S f [] hp hq = tt
All-zip P Q S f (x ∷ xs) hp hq = (f x hp.0 hq.0, All-zip P Q S f xs hp.1 hq.1)

module _ {ℓ κ} {A : Type ℓ} {B : Type κ} (f : A → B) where
  pub All-map {μ} : (P : B → Type μ) (xs : List A) → All (λ a. P (f a)) xs → All P (map f xs)
  All-map P [] h = tt
  All-map P (x ∷ xs) h = (h.0, All-map P xs h.1)

  pub Pairwise-map {μ} :
      (R : B → B → Type μ) (xs : List A)
      → Pairwise (λ a b. R (f a) (f b)) xs
      → Pairwise R (map f xs)
  Pairwise-map R [] h = tt
  Pairwise-map R (x ∷ xs) h = (All-map (R (f x)) xs h.0, Pairwise-map R xs h.1)

-- A relation that follows from another and from what holds of every element.
pub Pairwise-mono {ℓ κ μ ν} :
    {A : Type ℓ} (P : A → Type μ) (R : A → A → Type κ) (S : A → A → Type ν)
    → ((a b : A) → P a → P b → R a b → S a b)
    → (xs : List A) → All P xs
    → Pairwise R xs
    → Pairwise S xs
Pairwise-mono P R S f [] h r = tt
Pairwise-mono P R S f (x ∷ xs) h r = (
  All-zip P (R x) (S x) (λ b hb hr. f x b h.0 hb hr) xs h.1 r.0,
  Pairwise-mono P R S f xs h.1 r.1,
)
