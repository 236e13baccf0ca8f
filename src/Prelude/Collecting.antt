-- ===== src/Prelude/Collecting.antt =====
-- Loops that insert what they read into a map and refuse a key that is there already.
use mathlib.Core.Path.{◌≡◌, ◌∙◌, refl, sym, ap, subst}
use mathlib.Core.Bool.{Bool}
use mathlib.Core.List.{List, [], ◌∷◌, map}
use mathlib.Core.Option.{Option, none, some}
use mathlib.Core.Logic.{inl, inr}
use native.Mathlib.Omega.{arith}
use singularis.Prelude.Tests.{Bool-cases}
use singularis.Prelude.Equality.{Eq, ◌==◌, ==_refl}
use singularis.Prelude.Results.{Result, ok, ◌>>=◌, ◌>>◌, fail_if}
use singularis.Prelude.Lists.{All}
use singularis.Prelude.HashMaps.{
  HashMap, get, put, contains, Distinct, Distinct-put, get-put, All-get,
}
use singularis.Prelude.Sorting.{sort_by, map-sort_by, get-sort_by, Distinct-sort_by, All-sort_by}

-- Both sides have a value, and the two are related, or neither has one.
abbrev pub Related : {A B : Type 0} → (A → B → Type 0) → Option A → Option B → Type 0
Related R none none = Unit
Related R (some a) (some b) = R a b
Related R _ _ = ⊥

abbrev unwrap_or : {A : Type 0} → A → Option A → A
unwrap_or a none = a
unwrap_or a (some b) = b

module _ {K V X E : Type 0} ⦃e : Eq K⦄ (duplicate : E) (read : X → Result E (K × V)) where
  unfoldable pub collect_distinct : List X → HashMap K V → Result E (HashMap K V)
  collect_distinct [] m = ok m
  collect_distinct (x ∷ xs) m = do
    entry ← read x
    fail_if (contains entry.0 m) duplicate
    collect_distinct xs (put entry.0 entry.1 m)

  module _ {W : Type 0} (write : K × W → X) (R : W → V → Type 0) where
    -- Reading undoes writing, up to `R`.
    abbrev pub Reads : K × W → Type 0
    Reads entry = (v : V) × (read (write entry) ≡ ok (entry.0, v)) × R entry.1 v

    abbrev Collected : HashMap K W → HashMap K V → HashMap K V → Type 0
    Collected m before after =
        (j : K)
        → (get j m ≡ none → get j after ≡ get j before)
          × ((w : W) → get j m ≡ some w → (v : V) × (get j after ≡ some v) × R w v)

    abbrev Fresh : HashMap K W → HashMap K V → Type 0
    Fresh m before = (j : K) (w : W) → get j m ≡ some w → get j before ≡ none

    Fresh-put :
        (k : K) (w : W) (v : V) (m : HashMap K W) (before : HashMap K V)
        → get k m ≡ none
        → Fresh ((k, w) ∷ m) before
        → Fresh m (put k v before)
    unfolding get
    Fresh-put k w v m before h fresh j u found =
        get-put k v j before ∙ ground (arith, fresh j u, e.beq_iff j k)

    Collected-cons :
        (k : K) (w : W) (v : V) (m : HashMap K W) (before after : HashMap K V)
        → get k m ≡ none
        → R w v
        → Collected m (put k v before) after
        → Collected ((k, w) ∷ m) before after
    unfolding get
    Collected-cons k w v m before after h r rest j = elim (Bool-cases (j == k)) [
      | inl q ↦
          let none_later = ap (λ i. get i m) ((e.beq_iff j k).0 q) ∙ h in
          rw q (
            λ absent. absurd (ground arith),
            λ u same. (
              v,
              (rest j).0 none_later ∙ get-put k v j before ∙ rw q refl,
              subst (λ x. R x v) (ap (λ o. unwrap_or w o) same) r,
            ),
          )
      | inr q ↦ rw q (λ absent. (rest j).0 absent ∙ get-put k v j before ∙ rw q refl, (rest j).1)
    ]

    collect-Collected :
        (m : HashMap K W) (before : HashMap K V)
        → Distinct m
        → Distinct before
        → All Reads m
        → Fresh m before
        → (after : HashMap K V) × (collect_distinct (map write m) before ≡ ok after)
          × Distinct after
          × Collected m before after
    unfolding collect_distinct Distinct get
    collect-Collected [] before d d' reads fresh =
        (before, refl, d', λ j. (λ h. refl, λ w h. absurd (ground arith)))
    collect-Collected ((k, w) ∷ m) before (h, d) d' ((v, read_eq, r), reads) fresh =
        let (after, run, distinct, collected) =
          collect-Collected m (put k v before) d (Distinct-put k v before d') reads
            (Fresh-put k w v m before h fresh) in
        (
          after,
          rw (read_eq, fresh k w (rw (==_refl k) refl)) run,
          distinct,
          Collected-cons k w v m before after h r collected,
        )

    -- Written and read again, a map's entries are the map, up to `R`.
    pub collect_distinct-map :
        (m : HashMap K W)
        → Distinct m
        → All Reads m
        → (after : HashMap K V) × (collect_distinct (map write m) [] ≡ ok after)
          × Distinct after
          × ((j : K) → Related R (get j m) (get j after))
    unfolding Distinct get
    collect_distinct-map m d reads =
        let (after, run, distinct, collected) = collect-Collected m [] d tt reads (λ j w h. refl) in
        (after, run, distinct, λ j. related (get j m) (get j after) (collected j))
      where
        related :
            (o : Option W) (p : Option V)
            → (o ≡ none → p ≡ none) × ((w : W) → o ≡ some w → (v : V) × (p ≡ some v) × R w v)
            → Related R o p
        related none none h = tt
        related none (some v) h = absurd (ground (arith, h.0 refl))
        related (some w) none h = absurd (ground (arith, (h.1 w refl).1))
        related (some w) (some v) h =
            let (u, same, r) = h.1 w refl in subst (R w) (sym (ap (λ o. unwrap_or v o) same)) r

    pub collect_distinct-sort_by :
        (le : X → X → Bool) (m : HashMap K W)
        → Distinct m
        → ((k : K) (w : W) → get k m ≡ some w → Reads (k, w))
        → (after : HashMap K V) × (collect_distinct (sort_by le (map write m)) [] ≡ ok after)
          × Distinct after
          × ((j : K) → Related R (get j m) (get j after))
    collect_distinct-sort_by le m d reads =
        let order = λ (a : K × W) (b : K × W). le (write a) (write b) in
        let (after, run, distinct, related) =
          collect_distinct-map (sort_by order m) (Distinct-sort_by order m d)
            (All-sort_by order Reads m (All-get Reads m d reads)) in
        (
          after,
          ap (λ xs. collect_distinct xs []) (map-sort_by le write m) ∙ run,
          distinct,
          λ j. subst (λ o. Related R o (get j after)) (get-sort_by order m d j) (related j),
        )
