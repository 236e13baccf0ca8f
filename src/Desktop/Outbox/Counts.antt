-- ===== src/Desktop/Outbox/Counts.antt =====
-- The counts that a pass reports.
use Prim.Native.String.{String}
use singularis.Prelude.{
  ℕ, suc, ◌+◌, ◌≤◌, ◌≡◌, refl, subst, Bool, true, false, List, [], ◌∷◌, Result, ok, err, length,
  Text, Bytes, nat_eq, list_eq, arith, Bool-cases, inl, inr, length-append,
}
use singularis.Protocol.Event.{SubmitJson, SubmitEvent}
use singularis.Vault.Error.{VaultError}
use singularis.Vault.Input.{VaultOutboxItem}
use singularis.Vault.Methods.{UuidText}
use singularis.Desktop.Outbox.{
  ManagedVault, valid_receipt, Relayed, answered, interrupted, Round, Surroundings, Progress, Flow,
  continue, break, is_blocked, on_acknowledged, validate_outbox_item, on_relayed, on_validated,
  flush_item, flush_items, flush_now, pass, on_flow, is_locked, begun, idle, OutboxWorker,
  list_pending, OutboxWorkerStatus, paused_at,
}

-- After so many items: each request is an attempt, and no item is both acknowledged and failed.
abbrev pub Tally : ℕ → Progress → Type 0
Tally n p =
    (p.report.attempted ≡ length p.requests)
    × (p.report.acknowledged ≤ p.report.attempted)
    × (p.report.attempted ≤ n)
    × (p.report.acknowledged + p.report.failed ≤ n)

-- The last item is counted, or is the one whose submission is under way.
abbrev UnderWay : ℕ → Progress → Type 0
UnderWay n p =
    (p.report.attempted ≡ length p.requests)
    × (p.report.acknowledged + 1 ≤ p.report.attempted)
    × (p.report.attempted ≤ n + 1)
    × (p.report.acknowledged + p.report.failed ≤ n)

abbrev progress_of : Flow → Progress
progress_of (continue p) = p
progress_of (break p) = p

on_acknowledged-Tally :
    (n : ℕ) (p : Progress) (device_id : Text) (r : Result VaultError Bool × ManagedVault)
    → UnderWay n p
    → Tally (suc n) (progress_of (on_acknowledged device_id r p))
on_acknowledged-Tally n p device_id (ok true, vault) h =
    (h.0, omega arith, omega arith, omega arith)
on_acknowledged-Tally n p device_id (ok false, vault) h =
    (h.0, omega arith, omega arith, omega arith)
on_acknowledged-Tally n p device_id (err error, vault) h = elim (Bool-cases (is_locked error)) [
  | inl e ↦ rw e (h.0, omega arith, omega arith, omega arith)
  | inr e ↦ rw e (h.0, omega arith, omega arith, omega arith)
]

module _ (uuid : UuidText) (json : SubmitJson) where
  on_relayed-Tally :
      (n : ℕ) (p : Progress) (round : Round) (submission : SubmitEvent) (answer : Relayed)
      → UnderWay n p
      → Tally (suc n) (progress_of (on_relayed uuid json round submission answer p))
  on_relayed-Tally n p round submission interrupted h = (h.0, omega arith, omega arith, omega arith)
  on_relayed-Tally n p round submission (answered (err e)) h =
      (h.0, omega arith, omega arith, omega arith)
  on_relayed-Tally n p round submission (answered (ok receipt)) h =
      elim (Bool-cases (valid_receipt submission receipt)) [
        | inl e ↦ rw e (on_acknowledged-Tally n p _ _ h)
        | inr e ↦ rw e (h.0, omega arith, omega arith, omega arith)
      ]

  on_validated-Tally :
      (n : ℕ) (p : Progress) (round : Round) (r : Result (String × Text) (SubmitEvent × Bytes))
      → Tally n p
      → Tally (suc n) (progress_of (on_validated uuid json round r p))
  on_validated-Tally n p round (err e) h = (h.0, omega arith, omega arith, omega arith)
  on_validated-Tally n p round (ok (submission, payload)) h =
      on_relayed-Tally n _ round submission (round.relay payload) (
        ground (arith, length-append p.requests (payload ∷ [])),
        omega arith,
        omega arith,
        omega arith,
      )

  flush_item-Tally :
      (n : ℕ) (p : Progress) (round : Round) (item : VaultOutboxItem)
      → Tally n p
      → Tally (suc n) (progress_of (flush_item uuid json round item p))
  unfolding flush_item
  flush_item-Tally n p round item h =
      elim (Bool-cases (is_blocked item.device_id p.blocked_devices)) [
        | inl e ↦ rw e (h.0, omega arith, omega arith, omega arith)
        | inr e ↦ elim (Bool-cases round.is_enabled) [
          | inl k ↦
              subst (λ flow. Tally (suc n) (progress_of flow))
                {x = on_validated uuid json round (validate_outbox_item uuid json item) p}
                {y = flush_item uuid json round item p} (ground arith)
                (on_validated-Tally n p round (validate_outbox_item uuid json item) h)
          | inr k ↦
              subst (λ flow. Tally (suc n) (progress_of flow)) {x = break (paused_at p)}
                {y = flush_item uuid json round item p} (ground arith)
                (h.0, h.1, omega arith, omega arith)
        ]
      ]

  Tally-mono : (k n : ℕ) (p : Progress) → k ≤ n → Tally k p → Tally n p
  Tally-mono k n p le h = (h.0, h.1, omega arith, omega arith)

  on_flow-Tally :
      (k n : ℕ) (flow : Flow) (loop : Progress → Progress)
      → k ≤ n
      → Tally k (progress_of flow)
      → ((q : Progress) → Tally k q → Tally n (loop q))
      → Tally n (on_flow flow loop)
  on_flow-Tally k n (break q) loop le h f = Tally-mono k n q le h
  on_flow-Tally k n (continue q) loop le h f = f q h

  flush_items-Tally :
      (rounds : ℕ → Round) (items : List VaultOutboxItem) (n k : ℕ) (p : Progress)
      → Tally k p
      → Tally (k + length items) (flush_items uuid json rounds n items p)
  unfolding flush_items
  flush_items-Tally rounds [] n k p h = Tally-mono k (k + 0) p (omega arith) h
  flush_items-Tally rounds (item ∷ items) n k p h =
      on_flow-Tally (suc k) (k + suc (length items)) (flush_item uuid json (rounds n) item p) _
        (omega arith) (flush_item-Tally k p (rounds n) item h)
        (λ q t.
          Tally-mono (suc k + length items) (k + suc (length items))
            (flush_items uuid json rounds (suc n) items q) (omega arith)
            (flush_items-Tally rounds items (suc n) (suc k) q t))

  -- What an enabled worker reports of a pass over the rows that it listed, whatever happens meanwhile:
  -- it attempted as many submissions as it handed payloads to the relay, acknowledged at most those,
  -- and acknowledged or failed each row at most once; it is idle only if it was found enabled at the
  -- end, nothing failed and nothing is pending.
  pub flush_now-counts :
      (around : Surroundings) (worker : OutboxWorker) (vault : ManagedVault)
      (items : List VaultOutboxItem) (report : OutboxWorkerStatus)
      → worker.enabled ≡ true
      → list_pending around.first_faults vault ≡ ok items
      → (flush_now uuid json around worker vault).0 ≡ report
      → (report.attempted ≡ length (flush_now uuid json around worker vault).3)
        × (report.acknowledged ≤ report.attempted)
        × (report.acknowledged + report.failed ≤ length items)
        × (report.state ≡ idle
            → (around.enabled_at_end ≡ true) × (report.failed ≡ 0) × (report.pending ≡ 0))
  unfolding flush_now pass
  flush_now-counts around worker vault items report on listed told =
      let tally =
        flush_items-Tally around.rounds items 0 0 (begun items vault)
          (refl, omega arith, omega arith, omega arith) in
      let loop = flush_items uuid json around.rounds 0 items (begun items vault) in
      (
        ground (arith, tally.0),
        ground (arith, tally.1),
        ground (arith, tally.3),
        λ e. (ground arith, ground arith, ground arith),
      )
