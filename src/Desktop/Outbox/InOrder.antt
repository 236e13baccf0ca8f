-- ===== src/Desktop/Outbox/InOrder.antt =====
-- Which rows leave the outbox during a pass, and in which order.
use singularis.Prelude.{
  ℕ, zero, suc, ◌≡◌, ◌≢◌, inl, inr, refl, sym, ap, subst, ◌∙◌, true, false, some, List, [], ◌∷◌,
  ◌++◌, Result, ok, err, take, retain, Text, ◌==◌, nat_eq, list_eq, arith, Bool-cases, Result-cases,
  All, All-append, Pairwise-retain,
}
use singularis.Protocol.Event.{SubmitJson}
use singularis.Vault.Error.{VaultError}
use singularis.Vault.Input.{validate_mls_outbox_items, VaultOutboxItem}
use singularis.Vault.Database.{Database, select_outbox}
use singularis.Vault.Rows.{DistinctItems, text_iff}
use singularis.Vault.Methods.{UuidText}
use singularis.Vault.Methods.Outbox.{list_all_mls_outbox, outbox_limit}
use singularis.Desktop.Outbox.{
  ManagedVault, guarded, list_pending, Round, Surroundings, Progress, Flow, continue, break,
  is_blocked, flush_item, flush_items, pass, flush_now, on_listed, OutboxWorker, begun, on_flow,
}
use singularis.Desktop.Outbox.Outcome.{
  rows_of, without, rows_of_others, rows_of_first, Confirmed, Outcome, Waits, Leaves,
  flush_item-Outcome,
}

append_snoc :
    (front : List VaultOutboxItem) (item : VaultOutboxItem) (rest : List VaultOutboxItem)
    → front ++ item ∷ rest ≡ (front ++ item ∷ []) ++ rest
append_snoc [] item rest = refl
append_snoc (n ∷ front) item rest = ap (◌∷◌ n) (append_snoc front item rest)

take_split :
    (n : ℕ) (l : List VaultOutboxItem) → (extra : List VaultOutboxItem) × (l ≡ take n l ++ extra)
take_split zero l = (l, refl)
take_split (suc n) [] = ([], refl)
take_split (suc n) (item ∷ l) = let (extra, e) = take_split n l in (extra, ap (◌∷◌ item) e)

module _ (uuid : UuidText) (json : SubmitJson) (rounds : ℕ → Round)
    (before : List VaultOutboxItem) where
  -- Some round of the pass confirmed the item.
  abbrev pub IsDelivered : VaultOutboxItem → Type 0
  IsDelivered item = (n : ℕ) × Confirmed uuid json (rounds n) item

  -- Of each device, delivered rows from the front are gone.
  abbrev pub Advanced : Database → Type 0
  Advanced db =
      (d : Text)
      → (gone : List VaultOutboxItem) × (rows_of d before ≡ gone ++ rows_of d db.mls_outbox)
        × All IsDelivered gone

  -- A device that is not blocked has exactly the rows that the loop has still to come to.
  abbrev OnTrack : List VaultOutboxItem → Progress → Type 0
  OnTrack rest p =
      (db : Database) × (p.vault ≡ guarded (some db))
      × DistinctItems db.mls_outbox
      × Advanced db
      × ((d : Text)
          → is_blocked d p.blocked_devices ≡ false
          → rows_of d db.mls_outbox ≡ rows_of d rest)

  module _ (n : ℕ) (item : VaultOutboxItem) (rest : List VaultOutboxItem) (p q : Progress)
      (db : Database) where
    Waits-OnTrack :
        DistinctItems db.mls_outbox
        → Advanced db
        → ((d : Text)
            → is_blocked d p.blocked_devices ≡ false
            → rows_of d db.mls_outbox ≡ rows_of d (item ∷ rest))
        → Waits uuid json item db p q
        → OnTrack rest q
    unfolding retain
    Waits-OnTrack distinct advanced rows (v, blocked, fewer) = (
      db,
      v,
      distinct,
      advanced,
      λ d k. elim (Bool-cases (item.device_id == d)) [
        | inl e ↦ absurd (ground (arith, (text_iff item.device_id d).0 e))
        | inr e ↦ ground (arith, rows d (fewer d k))
      ],
    )

    Leaves-Advanced :
        DistinctItems db.mls_outbox
        → Advanced db
        → rows_of item.device_id db.mls_outbox ≡ item ∷ rows_of item.device_id rest
        → Confirmed uuid json (rounds n) item
        → Advanced (without item.device_id item.event_id db)
    Leaves-Advanced distinct advanced first confirmed d = elim (Bool-cases (item.device_id == d)) [
      | inl e ↦ subst AdvancedOf ((text_iff item.device_id d).0 e) of_device
      | inr e ↦ of_other (λ k. ground (arith, (text_iff item.device_id d).1 k))
    ]
      where
        AdvancedOf : Text → Type 0
        AdvancedOf d =
            (gone : List VaultOutboxItem) × (rows_of d before
              ≡ gone ++ rows_of d (without item.device_id item.event_id db).mls_outbox)
            × All IsDelivered gone

        of_device : AdvancedOf item.device_id
        of_device =
            let (gone, e, all) = advanced item.device_id in
            (
              gone ++ item ∷ [],
              e
                  ∙ ap (λ l. gone ++ l) first
                  ∙ append_snoc gone item (rows_of item.device_id rest)
                  ∙ ap (λ l. (gone ++ item ∷ []) ++ l)
                      (sym (
                        rows_of_first item (rows_of item.device_id rest) db.mls_outbox distinct
                          first)),
              All-append IsDelivered gone (item ∷ []) all ((n, confirmed), tt),
            )

        of_other : item.device_id ≢ d → AdvancedOf d
        of_other k =
            let (gone, e, all) = advanced d in
            (
              gone,
              e
                  ∙ ap (λ l. gone ++ l)
                      (sym (rows_of_others item.device_id item.event_id d db.mls_outbox k)),
              all,
            )

    Leaves-OnTrack :
        DistinctItems db.mls_outbox
        → Advanced db
        → ((d : Text)
            → is_blocked d p.blocked_devices ≡ false
            → rows_of d db.mls_outbox ≡ rows_of d (item ∷ rest))
        → is_blocked item.device_id p.blocked_devices ≡ false
        → Leaves uuid json (rounds n) item db p q
        → OnTrack rest q
    unfolding retain
    Leaves-OnTrack distinct advanced rows free (v, same, confirmed) = (
      without item.device_id item.event_id db,
      v,
      Pairwise-retain _ _ db.mls_outbox distinct,
      Leaves-Advanced distinct advanced first confirmed,
      λ d k. elim (Bool-cases (item.device_id == d)) [
        | inl e ↦
            subst
              (λ d. rows_of d (without item.device_id item.event_id db).mls_outbox ≡ rows_of d rest)
              ((text_iff item.device_id d).0 e)
              (rows_of_first item (rows_of item.device_id rest) db.mls_outbox distinct first)
        | inr e ↦
            rows_of_others item.device_id item.event_id d db.mls_outbox
              (λ k. ground (arith, (text_iff item.device_id d).1 k))
            ∙ rows d (ground (arith, same))
            ∙ rw e
      ],
    )
      where
        first : rows_of item.device_id db.mls_outbox ≡ item ∷ rows_of item.device_id rest
        first = rows item.device_id free ∙ rw ((text_iff item.device_id item.device_id).1 refl)

  -- What the loop leaves behind.
  abbrev Delivered : Progress → Type 0
  Delivered p = (db : Database) × (p.vault ≡ guarded (some db)) × Advanced db

  module _ (n : ℕ) (item : VaultOutboxItem) (rest : List VaultOutboxItem) (p : Progress) where
    abbrev FlowOnTrack : Flow → Type 0
    FlowOnTrack (break q) = Delivered q
    FlowOnTrack (continue q) = OnTrack rest q

    flow-OnTrack :
        (track : OnTrack (item ∷ rest) p) (flow : Flow)
        → is_blocked item.device_id p.blocked_devices ≡ false
        → Outcome uuid json (rounds n) item track.0 p flow
        → FlowOnTrack flow
    flow-OnTrack (db, v, distinct, advanced, rows) (break q) free h = (db, h, advanced)
    flow-OnTrack (db, v, distinct, advanced, rows) (continue q) free (inl h) =
        Waits-OnTrack n item rest p q db distinct advanced rows h
    flow-OnTrack (db, v, distinct, advanced, rows) (continue q) free (inr h) =
        Leaves-OnTrack n item rest p q db distinct advanced rows free h

    flush_item-OnTrack :
        ((v : ManagedVault) → (rounds n).others v ≡ v)
        → OnTrack (item ∷ rest) p
        → FlowOnTrack (flush_item uuid json (rounds n) item p)
    unfolding flush_item
    flush_item-OnTrack quiet track =
        elim (Bool-cases (is_blocked item.device_id p.blocked_devices)) [
          | inl k ↦ subst FlowOnTrack {x = continue p} (ground arith) (waiting k)
          | inr k ↦
              flow-OnTrack track (flush_item uuid json (rounds n) item p) k
                (flush_item-Outcome uuid json (rounds n) item track.0 p track.1 quiet)
        ]
      where
        waiting : is_blocked item.device_id p.blocked_devices ≡ true → OnTrack rest p
        waiting k =
            Waits-OnTrack n item rest p p track.0 track.2 track.3 track.4 (track.1, k, λ d h. h)

  on_flow-Delivered :
      (n : ℕ) (item : VaultOutboxItem) (rest : List VaultOutboxItem) (p : Progress)
      (loop : Progress → Progress) (flow : Flow)
      → FlowOnTrack n item rest p flow
      → ((q : Progress) → OnTrack rest q → Delivered (loop q))
      → Delivered (on_flow flow loop)
  on_flow-Delivered n item rest p loop (break q) h k = h
  on_flow-Delivered n item rest p loop (continue q) h k = k q h

  pub flush_items-Delivered :
      ((n : ℕ) (v : ManagedVault) → (rounds n).others v ≡ v)
      → (items : List VaultOutboxItem) (n : ℕ) (extra : List VaultOutboxItem) (p : Progress)
      → OnTrack (items ++ extra) p
      → Delivered (flush_items uuid json rounds n items p)
  unfolding flush_items
  flush_items-Delivered quiet [] n extra p (db, v, distinct, advanced, rows) = (db, v, advanced)
  flush_items-Delivered quiet (item ∷ items) n extra p track =
      on_flow-Delivered n item (items ++ extra) p _ (flush_item uuid json (rounds n) item p)
        (flush_item-OnTrack n item (items ++ extra) p (quiet n) track)
        (λ q h. flush_items-Delivered quiet items (suc n) extra q h)

module _ (uuid : UuidText) (json : SubmitJson) (around : Surroundings) (db : Database) where
  list_pending-eq :
      (items : List VaultOutboxItem)
      → list_pending around.first_faults (guarded (some db)) ≡ ok items
      → items ≡ take outbox_limit db.mls_outbox
  unfolding list_pending list_all_mls_outbox
  list_pending-eq items h = elim (Bool-cases (around.first_faults select_outbox)) [
    | inl e ↦ absurd (ground arith)
    | inr e ↦ elim (Result-cases (validate_mls_outbox_items (take outbox_limit db.mls_outbox))) [
      | inl (u, k) ↦ ground arith
      | inr (f, k) ↦ absurd (ground arith)
    ]
  ]

  -- Any read of the outbox, and what follows it.
  on_listed-Delivered :
      ((n : ℕ) (v : ManagedVault) → (around.rounds n).others v ≡ v)
      → ((v : ManagedVault) → around.last_others v ≡ v)
      → DistinctItems db.mls_outbox
      → (r : Result VaultError (List VaultOutboxItem))
      → list_pending around.first_faults (guarded (some db)) ≡ r
      → (after : Database) × ((on_listed uuid json around (guarded (some db)) r).vault
          ≡ guarded (some after))
        × Advanced uuid json around.rounds db.mls_outbox after
  on_listed-Delivered quiet last distinct (err error) h = (db, refl, λ d. ([], refl, tt))
  on_listed-Delivered quiet last distinct (ok items) h =
      let (extra, split) = take_split outbox_limit db.mls_outbox in
      let (after, v, advanced) =
        flush_items-Delivered uuid json around.rounds db.mls_outbox quiet items 0 extra
          (begun items (guarded (some db)))
          (
            db,
            refl,
            distinct,
            λ d. ([], refl, tt),
            λ d k. ap (rows_of d) (split ∙ ap (λ l. l ++ extra) (sym (list_pending-eq items h))),
          ) in
      (after, last _ ∙ v, advanced)

  -- While no other task changes the vault during a pass, and the event ids of the outbox are distinct,
  -- each device's rows leave the outbox in their order, from the front, and only those leave that the
  -- relay answered with a valid receipt; a pass that stops early, an answer that is refused and a
  -- statement that fails leave the other rows where they are.
  pub flush_now-in_order :
      (worker : OutboxWorker)
      → ((n : ℕ) (v : ManagedVault) → (around.rounds n).others v ≡ v)
      → ((v : ManagedVault) → around.last_others v ≡ v)
      → DistinctItems db.mls_outbox
      → (after : Database) × ((flush_now uuid json around worker (guarded (some db))).2
          ≡ guarded (some after))
        × Advanced uuid json around.rounds db.mls_outbox after
  unfolding flush_now pass
  flush_now-in_order worker quiet last distinct = elim (Bool-cases worker.enabled) [
    | inl e ↦
        let (after, v, advanced) =
          on_listed-Delivered quiet last distinct
            (list_pending around.first_faults (guarded (some db))) refl in
        (after, ground (arith, v), advanced)
    | inr e ↦ (db, ground arith, λ d. ([], refl, tt))
  ]
