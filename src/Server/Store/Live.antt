-- ===== src/Server/Store/Live.antt =====
-- Lists of stored events: the lookup by id, the part of one channel, and distinct ids.
use singularis.Prelude.{
  and_then, ◌≡◌, refl, Bool, Option, none, some, List, [], ◌∷◌, ◌++◌, arith, if◌then◌else◌, ◌==◌,
  nat_eq, retain, retain_comm, Bool-cases, inl, inr,
}
use singularis.Protocol.Event.{Uuid, EventId}
use singularis.Server.Store.{StoredEvent, keep_nonempty, or_default}

unfoldable pub find_id : EventId → List StoredEvent → Option StoredEvent
find_id id [] = none
find_id id (s ∷ rest) = if s.request.event_id == id then some s else find_id id rest

unfoldable pub of_channel : Uuid → List StoredEvent → List StoredEvent
of_channel channel = retain (λ s. s.request.channel_id == channel)

-- No id occurs twice.
abbrev pub IsDistinct : List StoredEvent → Type 0
IsDistinct [] = Unit
IsDistinct (s ∷ rest) = (find_id s.request.event_id rest ≡ none) × IsDistinct rest

abbrev pub keep_if : (StoredEvent → Bool) → Option StoredEvent → Option StoredEvent
keep_if p none = none
keep_if p (some s) = if p s then some s else none

module _ (p : StoredEvent → Bool) where
  none-retain :
      (id : EventId) (l : List StoredEvent) → find_id id l ≡ none → find_id id (retain p l) ≡ none
  unfolding find_id retain
  none-retain id [] h = refl
  none-retain id (s ∷ l) h = ground (arith, none-retain id l)

  pub IsDistinct-retain : (l : List StoredEvent) → IsDistinct l → IsDistinct (retain p l)
  unfolding retain
  IsDistinct-retain [] h = tt
  IsDistinct-retain (s ∷ l) h = elim (Bool-cases (p s)) [
    | inl e ↦ rw e (none-retain s.request.event_id l h.0, IsDistinct-retain l h.1)
    | inr e ↦ rw e (IsDistinct-retain l h.1)
  ]

  pub find_id-retain :
      (id : EventId) (l : List StoredEvent)
      → IsDistinct l
      → find_id id (retain p l) ≡ keep_if p (find_id id l)
  unfolding find_id retain
  find_id-retain id [] h = refl
  find_id-retain id (s ∷ l) h =
      ground (arith, find_id-retain id l h.1, nat_eq.beq_iff s.request.event_id id)

  pub of_channel-retain :
      (c : Uuid) (l : List StoredEvent) → of_channel c (retain p l) ≡ retain p (of_channel c l)
  unfolding of_channel
  of_channel-retain c l = retain_comm (λ s. s.request.channel_id == c) p l

module _ (s : StoredEvent) where
  pub find_id-snoc :
      (id : EventId) (l : List StoredEvent)
      → find_id s.request.event_id l ≡ none
      → find_id id (l ++ s ∷ []) ≡ (if s.request.event_id == id then some s else find_id id l)
  unfolding find_id
  find_id-snoc id [] h = refl
  find_id-snoc id (t ∷ l) h = ground (arith, find_id-snoc id l)

  pub IsDistinct-snoc :
      (l : List StoredEvent)
      → find_id s.request.event_id l ≡ none
      → IsDistinct l
      → IsDistinct (l ++ s ∷ [])
  unfolding find_id
  IsDistinct-snoc [] h d = (refl, tt)
  IsDistinct-snoc (t ∷ l) h d =
      (ground (arith, find_id-snoc t.request.event_id l), IsDistinct-snoc l (ground arith) d.1)

  pub of_channel-snoc :
      (c : Uuid) (l : List StoredEvent)
      → of_channel c (l ++ s ∷ [])
        ≡ (if s.request.channel_id == c then of_channel c l ++ s ∷ [] else of_channel c l)
  unfolding of_channel retain
  of_channel-snoc c [] = ground arith
  of_channel-snoc c (t ∷ l) = ground (arith, of_channel-snoc c l)

pub keep_nonempty-retain :
    (p : StoredEvent → Bool) (l : List StoredEvent)
    → and_then (keep_nonempty l) (λ events. keep_nonempty (retain p events))
      ≡ keep_nonempty (retain p l)
unfolding retain
keep_nonempty-retain p [] = refl
keep_nonempty-retain p (s ∷ l) = refl

pub or_default-keep_nonempty : (l : List StoredEvent) → or_default (keep_nonempty l) ≡ l
or_default-keep_nonempty [] = refl
or_default-keep_nonempty (s ∷ l) = refl

pub keep_nonempty-snoc :
    (l : List StoredEvent) (s : StoredEvent) → keep_nonempty (l ++ s ∷ []) ≡ some (l ++ s ∷ [])
keep_nonempty-snoc [] s = refl
keep_nonempty-snoc (t ∷ l) s = refl
