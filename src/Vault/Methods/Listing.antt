-- ===== src/Vault/Methods/Listing.antt =====
-- The order in which the messages of a channel are listed.
use singularis.Prelude.{
  Bool, ap, subst, sym, ◌++◌, ℕ, zero, suc, ◌≡◌, refl, ◌∙◌, true, false, some, List, [], ◌∷◌, ok,
  if◌then◌else◌, leb, length, take, retain, Text, ◌==◌, nat_eq, list_eq, ℤ, pos, negsuc, int_eq,
  int_leb, int_beq_iff, arith, Bool-cases, inl, inr, All, All-mono, Pairwise,
}
use singularis.Vault.Input.{VaultMessage, validate_channel_id}
use singularis.Vault.Database.{Database, no_faults}
use singularis.Vault.Methods.{list_limit, text_leb, row_leb, insert_row, order_rows, list_messages}

text_leb_total : (s t : Text) → text_leb s t ≡ false → text_leb t s ≡ true
unfolding text_leb
text_leb_total [] t h = absurd (ground arith)
text_leb_total (c ∷ s) [] h = refl
text_leb_total (c ∷ s) (d ∷ t) h = ground (arith, text_leb_total s t)

text_leb_trans : (s t u : Text) → text_leb s t ≡ true → text_leb t u ≡ true → text_leb s u ≡ true
unfolding text_leb
text_leb_trans [] t u h k = refl
text_leb_trans (c ∷ s) [] u h k = absurd (ground arith)
text_leb_trans (c ∷ s) (d ∷ t) [] h k = absurd (ground arith)
text_leb_trans (c ∷ s) (d ∷ t) (e ∷ u) h k = ground (arith, text_leb_trans s t u)

int_leb_total : (a b : ℤ) → int_leb a b ≡ false → int_leb b a ≡ true
int_leb_total (pos a) (pos b) h = ground arith
int_leb_total (pos a) (negsuc b) h = ground arith
int_leb_total (negsuc a) (pos b) h = ground arith
int_leb_total (negsuc a) (negsuc b) h = ground arith

int_leb_trans : (a b c : ℤ) → int_leb a b ≡ true → int_leb b c ≡ true → int_leb a c ≡ true
int_leb_trans (pos a) (pos b) (pos c) h k = ground arith
int_leb_trans (pos a) (pos b) (negsuc c) h k = ground arith
int_leb_trans (pos a) (negsuc b) c h k = absurd (ground arith)
int_leb_trans (negsuc a) (pos b) (pos c) h k = ground arith
int_leb_trans (negsuc a) (pos b) (negsuc c) h k = absurd (ground arith)
int_leb_trans (negsuc a) (negsuc b) (pos c) h k = ground arith
int_leb_trans (negsuc a) (negsuc b) (negsuc c) h k = ground arith

int_leb_antisym : (a b : ℤ) → int_leb a b ≡ true → int_leb b a ≡ true → a ≡ b
int_leb_antisym (pos a) (pos b) h k = ground arith
int_leb_antisym (pos a) (negsuc b) h k = absurd (ground arith)
int_leb_antisym (negsuc a) (pos b) h k = absurd (ground arith)
int_leb_antisym (negsuc a) (negsuc b) h k = ground arith

row_leb_total : (a b : VaultMessage) → row_leb a b ≡ false → row_leb b a ≡ true
row_leb_total a b h = ground (
  arith,
  int_leb_total a.created_at_ms b.created_at_ms,
  text_leb_total a.id b.id,
  int_beq_iff a.created_at_ms b.created_at_ms,
  int_beq_iff b.created_at_ms a.created_at_ms,
)

row_leb_trans :
    (a b c : VaultMessage) → row_leb a b ≡ true → row_leb b c ≡ true → row_leb a c ≡ true
row_leb_trans a b c h k = ground (
  arith,
  int_leb_trans a.created_at_ms b.created_at_ms c.created_at_ms,
  text_leb_trans a.id b.id c.id,
  int_leb_antisym a.created_at_ms b.created_at_ms,
  int_beq_iff a.created_at_ms b.created_at_ms,
  int_beq_iff b.created_at_ms c.created_at_ms,
  int_beq_iff a.created_at_ms c.created_at_ms,
)

abbrev pub InOrder : List VaultMessage → Type 0
InOrder = Pairwise (λ a b. row_leb a b ≡ true)

All-insert_row {κ} :
    (P : VaultMessage → Type κ) (m : VaultMessage) (l : List VaultMessage)
    → P m
    → All P l
    → All P (insert_row m l)
unfolding insert_row
All-insert_row P m [] h hs = (h, tt)
All-insert_row P m (n ∷ l) h hs = elim (Bool-cases (row_leb m n)) [
  | inl e ↦ rw e (h, hs)
  | inr e ↦ rw e (hs.0, All-insert_row P m l h hs.1)
]

insert_row-InOrder :
    (m : VaultMessage) (l : List VaultMessage) → InOrder l → InOrder (insert_row m l)
unfolding insert_row
insert_row-InOrder m [] h = (tt, tt)
insert_row-InOrder m (n ∷ l) h = elim (Bool-cases (row_leb m n)) [
  | inl e ↦
      rw e ((e, All-mono (λ b. row_leb n b ≡ true) _ (λ b k. row_leb_trans m n b e k) l h.0), h)
  | inr e ↦ rw e (
    All-insert_row (λ b. row_leb n b ≡ true) m l (row_leb_total m n e) h.0,
    insert_row-InOrder m l h.1,
  )
]

order_rows-InOrder : (l : List VaultMessage) → InOrder (order_rows l)
unfolding order_rows
order_rows-InOrder [] = tt
order_rows-InOrder (m ∷ l) = insert_row-InOrder m (order_rows l) (order_rows-InOrder l)

length-insert_row :
    (m : VaultMessage) (l : List VaultMessage) → length (insert_row m l) ≡ suc (length l)
unfolding insert_row
length-insert_row m [] = refl
length-insert_row m (n ∷ l) = ground (arith, length-insert_row m l)

length-order_rows : (l : List VaultMessage) → length (order_rows l) ≡ length l
unfolding order_rows
length-order_rows [] = refl
length-order_rows (m ∷ l) = omega (arith, length-insert_row m (order_rows l), length-order_rows l)

length-take-min :
    (n : ℕ) (l : List VaultMessage) → length (take n l) ≡ (if leb n (length l) then n else length l)
length-take-min zero l = ground arith
length-take-min (suc n) [] = ground arith
length-take-min (suc n) (m ∷ l) = ground (arith, length-take-min n l)

abbrev pub channel_rows : Text → Database → List VaultMessage
channel_rows channel_id db = retain (λ m. m.channel_id == channel_id) db.local_messages

count-insert_row :
    (p : VaultMessage → Bool) (m : VaultMessage) (l : List VaultMessage)
    → length (retain p (insert_row m l)) ≡ length (retain p (m ∷ l))
unfolding insert_row retain
count-insert_row p m [] = refl
count-insert_row p m (n ∷ l) = ground (arith, count-insert_row p m l)

count-order_rows :
    (p : VaultMessage → Bool) (l : List VaultMessage)
    → length (retain p (order_rows l)) ≡ length (retain p l)
unfolding order_rows retain
count-order_rows p [] = refl
count-order_rows p (m ∷ l) =
    count-insert_row p m (order_rows l) ∙ ground (arith, count-order_rows p l)

rows_split : (n : ℕ) (l : List VaultMessage) → (later : List VaultMessage) × (take n l ++ later ≡ l)
rows_split zero l = (l, refl)
rows_split (suc n) [] = ([], refl)
rows_split (suc n) (m ∷ l) = let (later, e) = rows_split n l in (later, ap (◌∷◌ m) e)

-- For a valid channel id and an open vault, the listing succeeds when no statement fails. Its rows are
-- the first thousand, or all if there are fewer, of the channel's rows in the order of their times and,
-- at equal times, of their ids: with the rows that are left out they are in order, and any kind of row
-- occurs in both together as often as among the channel's rows in the table.
pub list_messages-InOrder :
    (channel_id : Text) (db : Database)
    → validate_channel_id channel_id ≡ ok tt
    → (rows : List VaultMessage) × (later : List VaultMessage) × (list_messages no_faults channel_id
          (some db)
        ≡ ok rows)
      × InOrder (rows ++ later)
      × ((p : VaultMessage → Bool)
          → length (retain p (rows ++ later)) ≡ length (retain p (channel_rows channel_id db)))
      × (length rows ≡ (
          if leb list_limit (length (channel_rows channel_id db))
          then list_limit
          else length (channel_rows channel_id db)))
unfolding list_messages
list_messages-InOrder channel_id db valid =
    let of_channel = channel_rows channel_id db in
    let (later, split) = rows_split list_limit (order_rows of_channel) in
    (
      take list_limit (order_rows of_channel),
      later,
      rw valid refl,
      subst InOrder (sym split) (order_rows-InOrder of_channel),
      λ p. ap (λ l. length (retain p l)) split ∙ count-order_rows p of_channel,
      length-take-min list_limit (order_rows of_channel) ∙ rw (length-order_rows of_channel) refl,
    )
