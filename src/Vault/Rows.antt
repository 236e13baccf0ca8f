-- ===== src/Vault/Rows.antt =====
-- Lookups in the tables after an insertion, an update or a deletion.
use singularis.Prelude.{
  ℕ, ◌≡◌, ◌≢◌, refl, sym, Bool, true, Option, none, some, List, [], ◌∷◌, ◌++◌, if◌then◌else◌, Text,
  Bytes, ◌==◌, nat_eq, list_eq, arith, All, Pairwise, Bool-cases, inl, inr, retain, All-mono,
}
use singularis.Vault.Input.{VaultMessage, VaultOutboxItem}
use singularis.Vault.Database.{find_message, find_snapshot, find_item, put_snapshot}

abbrev pub text_iff : (s t : Text) → ((s == t) ≡ true → s ≡ t) × (s ≡ t → (s == t) ≡ true)
text_iff s t = (list_eq {A = ℕ}).beq_iff s t

module _ (m : VaultMessage) where
  pub find_message-snoc :
      (id : Text) (l : List VaultMessage)
      → find_message m.id l ≡ none
      → find_message id (l ++ m ∷ []) ≡ (if m.id == id then some m else find_message id l)
  unfolding find_message
  find_message-snoc id [] h = refl
  find_message-snoc id (n ∷ l) h =
      ground (arith, find_message-snoc id l, text_iff n.id id, text_iff m.id id, text_iff n.id m.id)

  pub fresh_message :
      (l : List VaultMessage) → find_message m.id l ≡ none → All (λ n. n.id ≢ m.id) l
  unfolding find_message
  fresh_message [] h = tt
  fresh_message (n ∷ l) h =
      (λ e. ground (arith, text_iff n.id m.id), fresh_message l (ground arith))

module _ (item : VaultOutboxItem) where
  pub find_item-snoc :
      (id : Text) (l : List VaultOutboxItem)
      → find_item item.event_id l ≡ none
      → find_item id (l ++ item ∷ []) ≡ (if item.event_id == id then some item else find_item id l)
  unfolding find_item
  find_item-snoc id [] h = refl
  find_item-snoc id (n ∷ l) h = ground (
    arith,
    find_item-snoc id l,
    text_iff n.event_id id,
    text_iff item.event_id id,
    text_iff n.event_id item.event_id,
  )

  pub fresh_item :
      (l : List VaultOutboxItem)
      → find_item item.event_id l ≡ none
      → All (λ n. n.event_id ≢ item.event_id) l
  unfolding find_item
  fresh_item [] h = tt
  fresh_item (n ∷ l) h =
      (λ e. ground (arith, text_iff n.event_id item.event_id), fresh_item l (ground arith))

-- The row that a lookup finds has the id that was looked for.
pub find_item-id :
    (id : Text) (l : List VaultOutboxItem) (item : VaultOutboxItem)
    → find_item id l ≡ some item
    → item.event_id ≡ id
unfolding find_item
find_item-id id [] item h = absurd (ground arith)
find_item-id id (n ∷ l) item h = ground (arith, find_item-id id l item, text_iff n.event_id id)

find_item-none :
    (id : Text) (l : List VaultOutboxItem) → All (λ n. n.event_id ≢ id) l → find_item id l ≡ none
unfolding find_item
find_item-none id [] h = refl
find_item-none id (n ∷ l) h = ground (arith, find_item-none id l h.1, text_iff n.event_id id)

abbrev pub keep_item : (VaultOutboxItem → Bool) → Option VaultOutboxItem → Option VaultOutboxItem
keep_item p none = none
keep_item p (some item) = if p item then some item else none

abbrev pub DistinctItems : List VaultOutboxItem → Type 0
DistinctItems = Pairwise (λ a b. a.event_id ≢ b.event_id)

pub find_item-retain :
    (p : VaultOutboxItem → Bool) (id : Text) (l : List VaultOutboxItem)
    → DistinctItems l
    → find_item id (retain p l) ≡ keep_item p (find_item id l)
unfolding find_item retain
find_item-retain p id [] h = refl
find_item-retain p id (n ∷ l) h = elim (Bool-cases (n.event_id == id)) [
  | inl e ↦ ground (
    arith,
    find_item-retain p id l h.1,
    find_item-none id l (
        rw (← (text_iff n.event_id id).0 e)
          (All-mono (λ b. n.event_id ≢ b.event_id) _ (λ b k q. k (sym q)) l h.0)),
  )
  | inr e ↦ ground (arith, find_item-retain p id l h.1)
]

module _ (device_id : Text) (snapshot : Bytes) where
  pub find_snapshot-put_snapshot :
      (d : Text) (l : List (Text × Bytes))
      → find_snapshot d (put_snapshot device_id snapshot l)
        ≡ (if device_id == d then some snapshot else find_snapshot d l)
  unfolding find_snapshot put_snapshot
  find_snapshot-put_snapshot d [] = refl
  find_snapshot-put_snapshot d ((e, old) ∷ l) = ground (
    arith,
    find_snapshot-put_snapshot d l,
    text_iff e device_id,
    text_iff device_id d,
    text_iff e d,
  )

  pub All-put_snapshot {ℓ} :
      (P : Text × Bytes → Type ℓ) (l : List (Text × Bytes))
      → P (device_id, snapshot)
      → All P l
      → All P (put_snapshot device_id snapshot l)
  unfolding put_snapshot
  All-put_snapshot P [] new h = (new, tt)
  All-put_snapshot P ((e, old) ∷ l) new h = elim (Bool-cases (e == device_id)) [
    | inl k ↦ rw k (new, h.1)
    | inr k ↦ rw k (h.0, All-put_snapshot P l new h.1)
  ]

  pub Pairwise-put_snapshot :
      (l : List (Text × Bytes))
      → Pairwise (λ a b. a.0 ≢ b.0) l
      → Pairwise (λ a b. a.0 ≢ b.0) (put_snapshot device_id snapshot l)
  unfolding put_snapshot
  Pairwise-put_snapshot [] h = (tt, tt)
  Pairwise-put_snapshot ((e, old) ∷ l) h = elim (Bool-cases (e == device_id)) [
    | inl k ↦ rw k (rw (← (text_iff e device_id).0 k) h)
    | inr k ↦ rw k (
      All-put_snapshot (λ b. e ≢ b.0) l (λ q. cc (k, (text_iff e device_id).1 q)) h.0,
      Pairwise-put_snapshot l h.1,
    )
  ]
