-- ===== src/Server/Store/History.antt =====
-- Retries and replays: what a submission does after others.
use singularis.Prelude.{
  ℕ, ◌≤◌, ◌<◌, ◌≡◌, refl, sym, ap, ◌∙◌, Option-cases, inl, inr, Option, none, some, List, [], ◌∷◌,
  arith, if◌then◌else◌, ◌==◌, nat_eq, pair_eq, insert, All, ok, err, Result,
}
use singularis.Protocol.Ttl.{ServerTtl}
use singularis.Protocol.Event.{
  Uuid, EventId, OffsetDateTime, SubmitEvent, AcceptedEvent, submit_eq, submit_beq_iff,
}
use singularis.Server.Store.{
  StoredEvent, StoreData, StoreError, event_id_conflict, default, prune_expired, replayed,
  sender_key, admit, settle, accept, list_active, Call, accepts, lists, step, run,
}
use singularis.Server.Store.Order.{last}

abbrev pub highest_of : StoreData → Uuid × Uuid → ℕ
highest_of d key = last (d.highest_counter_by_sender key)

-- `accept` either only prunes, or admits a request that is new and advances its counter.
accept_cases {ℓ} :
    (P : StoreData → Type ℓ) (request : SubmitEvent) (max : ServerTtl) (at : OffsetDateTime)
    (d : StoreData)
    → P (prune_expired at d)
    → ((prune_expired at d).events_by_id request.event_id ≡ none
        → replayed request ((prune_expired at d).highest_counter_by_sender (sender_key request))
          ≡ none
        → P (admit request max at (prune_expired at d)).1)
    → P (accept request max at d).1
unfolding accept
accept_cases P request max at d kept admitted = by_found _ _ refl refl
  where
    by_found :
        (found : Option StoredEvent) (counter : Option ℕ)
        → (prune_expired at d).events_by_id request.event_id ≡ found
        → replayed request ((prune_expired at d).highest_counter_by_sender (sender_key request))
          ≡ counter
        → P (settle request max at (prune_expired at d) found counter).1
    by_found (some s) counter e h = kept
    by_found none (some n) e h = kept
    by_found none none e h = admitted e h

pub highest_of-step :
    (c : Call) (d : StoreData) (key : Uuid × Uuid) → highest_of d key ≤ highest_of (step c d) key
unfolding list_active prune_expired admit insert
highest_of-step (accepts request max at) d key =
    accept_cases (λ d'. highest_of d key ≤ highest_of d' key) request max at d (omega arith)
      (λ e h. ground (arith, (pair_eq {A = Uuid} {B = Uuid}).beq_iff (sender_key request) key))
highest_of-step (lists channel after now) d key = omega arith

pub highest_of-run :
    (cs : List Call) (d : StoreData) (key : Uuid × Uuid)
    → highest_of d key ≤ highest_of (run cs d) key
unfolding run
highest_of-run [] d key = omega arith
highest_of-run (c ∷ cs) d key =
    omega (arith, highest_of-step c d key, highest_of-run cs (step c d) key)

-- No stored event's counter passes the highest counter of its sender.
pub record IsCounted (d : StoreData) : Type 0 where
  pub at_id :
      (id : EventId) (s : StoredEvent)
      → d.events_by_id id ≡ some s
      → s.request.sender_counter ≤ highest_of d (sender_key s.request)

prune_expired-IsCounted :
    (now : OffsetDateTime) (d : StoreData) → IsCounted d → IsCounted (prune_expired now d)
unfolding prune_expired
prune_expired-IsCounted now d v = record { at_id = λ id s h. ground (arith, v.at_id id s) }

admit-IsCounted :
    (request : SubmitEvent) (max : ServerTtl) (at : OffsetDateTime) (d : StoreData)
    → replayed request (d.highest_counter_by_sender (sender_key request)) ≡ none
    → IsCounted d
    → IsCounted (admit request max at d).1
unfolding admit insert
admit-IsCounted request max at d fresh v = record {
  at_id = λ id s h. ground (
    arith,
    v.at_id id s,
    (pair_eq {A = Uuid} {B = Uuid}).beq_iff (sender_key request) (sender_key s.request),
  );
}

pub step-IsCounted : (c : Call) (d : StoreData) → IsCounted d → IsCounted (step c d)
unfolding list_active
step-IsCounted (accepts request max at) d v =
    accept_cases IsCounted request max at d (prune_expired-IsCounted at d v)
      (λ e h. admit-IsCounted request max at _ h (prune_expired-IsCounted at d v))
step-IsCounted (lists channel after now) d v = prune_expired-IsCounted now d v

pub run-IsCounted : (cs : List Call) (d : StoreData) → IsCounted d → IsCounted (run cs d)
unfolding run
run-IsCounted [] d v = v
run-IsCounted (c ∷ cs) d v = run-IsCounted cs (step c d) (step-IsCounted c d v)

pub default-IsCounted : IsCounted default
default-IsCounted = record { at_id = λ id s h. absurd (ground arith) }

-- A refusal only prunes.
pub accept-refused :
    (request : SubmitEvent) (max : ServerTtl) (at : OffsetDateTime) (d : StoreData) (e : StoreError)
    → (accept request max at d).0 ≡ err e
    → (accept request max at d).1 ≡ prune_expired at d
unfolding accept
accept-refused request max at d e h = by_found _ _ h
  where
    by_found :
        (found : Option StoredEvent) (counter : Option ℕ)
        → (settle request max at (prune_expired at d) found counter).0 ≡ err e
        → (settle request max at (prune_expired at d) found counter).1 ≡ prune_expired at d
    by_found (some s) counter k = refl
    by_found none (some n) k = refl
    by_found none none k = absurd (ground arith)

admit-stored :
    (request : SubmitEvent) (max : ServerTtl) (at : OffsetDateTime) (d : StoreData)
    → (admit request max at d).1.events_by_id request.event_id
      ≡ some (record { request = request; receipt = (admit request max at d).0 })
unfolding admit insert
admit-stored request max at d = ground (arith, nat_eq.beq_iff request.event_id request.event_id)

-- What `accept` returned a receipt for is stored under its id.
pub accept-stored :
    (request : SubmitEvent) (max : ServerTtl) (at : OffsetDateTime) (d : StoreData)
    (receipt : AcceptedEvent)
    → (accept request max at d).0 ≡ ok receipt
    → (accept request max at d).1.events_by_id request.event_id
      ≡ some (record { request = request; receipt = receipt })
unfolding accept
accept-stored request max at d receipt h = by_found _ _ refl h
  where
    by_found :
        (found : Option StoredEvent) (counter : Option ℕ)
        → (prune_expired at d).events_by_id request.event_id ≡ found
        → (settle request max at (prune_expired at d) found counter).0 ≡ ok receipt
        → (settle request max at (prune_expired at d) found counter).1.events_by_id request.event_id
          ≡ some (record { request = request; receipt = receipt })
    by_found (some s) counter e k = ground (arith, submit_beq_iff s.request request)
    by_found none (some n) e k = absurd (ground arith)
    by_found none none e k = ground (arith, admit-stored request max at (prune_expired at d))

pub accept-counted :
    (request : SubmitEvent) (max : ServerTtl) (at : OffsetDateTime) (d : StoreData)
    (receipt : AcceptedEvent)
    → IsCounted d
    → (accept request max at d).0 ≡ ok receipt
    → request.sender_counter ≤ highest_of (accept request max at d).1 (sender_key request)
accept-counted request max at d receipt v h =
    (step-IsCounted (accepts request max at) d v).at_id request.event_id
      (record { request = request; receipt = receipt }) (accept-stored request max at d receipt h)

behind_is_dropped :
    (request : SubmitEvent) (max : ServerTtl) (at : OffsetDateTime) (d : StoreData) (counter : ℕ)
    → counter ≤ highest_of d (sender_key request)
    → 0 < counter
    → request.sender_counter ≤ counter
    → (accept request max at d).1 ≡ prune_expired at d
unfolding prune_expired
behind_is_dropped request max at d counter h pos le =
    accept_cases (λ d'. d' ≡ prune_expired at d) request max at d refl
      (λ e k. absurd (ground arith))

-- What is left after pruning was there, and has not expired.
prune_expired-stored :
    (now : OffsetDateTime) (d : StoreData) (id : EventId) (s : StoredEvent)
    → (prune_expired now d).events_by_id id ≡ some s
    → (d.events_by_id id ≡ some s) × (now < s.receipt.expires_at)
unfolding prune_expired
prune_expired-stored now d id s h = elim (Option-cases (d.events_by_id id)) [
  | inl e ↦ absurd (ground arith)
  | inr (t, e) ↦ (ground arith, ground arith)
]

-- An answer that is a receipt is that of the submission itself, which is stored and has not expired.
abbrev pub Stored :
    SubmitEvent → OffsetDateTime → StoreData → Result StoreError AcceptedEvent → Type 0
Stored request at d (err e) = Unit
Stored request at d (ok receipt) =
    (d.events_by_id request.event_id ≡ some (record { request = request; receipt = receipt }))
    × (at < receipt.expires_at)

accept-Stored :
    (request : SubmitEvent) (max : ServerTtl) (at : OffsetDateTime) (d : StoreData)
    (r : Result StoreError AcceptedEvent)
    → (accept request max at d).0 ≡ r
    → (accept request max at d).1 ≡ prune_expired at d
    → Stored request at d r
accept-Stored request max at d (err e) h pruned = tt
accept-Stored request max at d (ok receipt) h pruned =
    prune_expired-stored at d request.event_id (record { request = request; receipt = receipt })
      (ap (λ d'. d'.events_by_id request.event_id) (sym pruned)
        ∙ accept-stored request max at d receipt h)

-- After any history, once a submission of a positive counter has been answered with a receipt, no
-- later submission of the same sender and channel with that counter or a smaller one adds anything,
-- whatever calls lie between: it only removes what has expired. It is answered with a receipt only
-- where that very submission is stored with that receipt already, and has not expired.
pub replay_refused :
    (before between : List Call) (first second : SubmitEvent) (max₁ max₂ : ServerTtl)
    (at₁ at₂ : OffsetDateTime) (receipt : AcceptedEvent)
    → 0 < first.sender_counter
    → (accept first max₁ at₁ (run before default)).0 ≡ ok receipt
    → sender_key second ≡ sender_key first
    → second.sender_counter ≤ first.sender_counter
    → ((accept second max₂ at₂ (run between (accept first max₁ at₁ (run before default)).1)).1
        ≡ prune_expired at₂ (run between (accept first max₁ at₁ (run before default)).1))
      × Stored second at₂
          (run between (accept first max₁ at₁ (run before default)).1)
          (accept second max₂ at₂ (run between (accept first max₁ at₁ (run before default)).1)).0
replay_refused before between first second max₁ max₂ at₁ at₂ receipt pos h same le =
    let d = run before default in
    let d' = (accept first max₁ at₁ d).1 in
    let pruned =
      behind_is_dropped second max₂ at₂ (run between d') first.sender_counter
        (rw same (
          omega (
            arith,
            accept-counted first max₁ at₁ d receipt (run-IsCounted before default default-IsCounted)
                h,
            highest_of-run between d' (sender_key first),
          )))
        pos le in
    (pruned, accept-Stored second max₂ at₂ (run between d') _ refl pruned)

abbrev pub time_of : Call → OffsetDateTime
time_of (accepts request max at) = at
time_of (lists channel after now) = now

prune_expired-keeps :
    (now : OffsetDateTime) (d : StoreData) (id : EventId) (s : StoredEvent)
    → now < s.receipt.expires_at
    → d.events_by_id id ≡ some s
    → (prune_expired now d).events_by_id id ≡ some s
unfolding prune_expired
prune_expired-keeps now d id s live h = ground arith

step-keeps :
    (c : Call) (d : StoreData) (id : EventId) (s : StoredEvent)
    → time_of c < s.receipt.expires_at
    → d.events_by_id id ≡ some s
    → (step c d).events_by_id id ≡ some s
unfolding list_active admit insert
step-keeps (accepts request max at) d id s live h =
    accept_cases (λ d'. d'.events_by_id id ≡ some s) request max at d
      (prune_expired-keeps at d id s live h)
      (λ e k.
        ground (arith, prune_expired-keeps at d id s live h, nat_eq.beq_iff request.event_id id))
step-keeps (lists channel after now) d id s live h = prune_expired-keeps now d id s live h

run-keeps :
    (cs : List Call) (d : StoreData) (id : EventId) (s : StoredEvent)
    → All (λ c. time_of c < s.receipt.expires_at) cs
    → d.events_by_id id ≡ some s
    → (run cs d).events_by_id id ≡ some s
unfolding run
run-keeps [] d id s live h = h
run-keeps (c ∷ cs) d id s live h =
    run-keeps cs (step c d) id s live.1 (step-keeps c d id s live.0 h)

accept-found :
    (request : SubmitEvent) (max : ServerTtl) (at : OffsetDateTime) (d : StoreData)
    (s : StoredEvent)
    → (prune_expired at d).events_by_id request.event_id ≡ some s
    → (accept request max at d).0
      ≡ (if s.request == request then ok s.receipt else err (event_id_conflict request.event_id))
unfolding accept
accept-found request max at d s h = rw h

-- While a receipt has not expired, and whatever calls lie between, submitting the same event again
-- returns that receipt, and submitting another event under its id is a conflict.
pub accept_again :
    (d : StoreData) (between : List Call) (first second : SubmitEvent) (max₁ max₂ : ServerTtl)
    (at₁ at₂ : OffsetDateTime) (receipt : AcceptedEvent)
    → (accept first max₁ at₁ d).0 ≡ ok receipt
    → All (λ c. time_of c < receipt.expires_at) between
    → at₂ < receipt.expires_at
    → second.event_id ≡ first.event_id
    → (accept second max₂ at₂ (run between (accept first max₁ at₁ d).1)).0
      ≡ (if first == second then ok receipt else err (event_id_conflict second.event_id))
accept_again d between first second max₁ max₂ at₁ at₂ receipt h live now same =
    let stored : StoredEvent = record { request = first; receipt = receipt } in
    accept-found second max₂ at₂ _ stored (
      prune_expired-keeps at₂ _ second.event_id stored now (
        rw same (
          run-keeps between (accept first max₁ at₁ d).1 first.event_id stored live
            (accept-stored first max₁ at₁ d receipt h))))
