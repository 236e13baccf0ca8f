-- ===== src/Desktop/Outbox.antt =====
-- apps/desktop/src-tauri/src/outbox.rs: the worker that sends the outbox to the relay. What other
-- tasks, the relay and the database engine do during a pass is an argument. A mutex that is poisoned
-- says so.

pub mod Counts
pub mod Http
pub mod Outcome
pub mod InOrder
use Prim.Native.String.{String}
use singularis.Prelude.{
  ℕ, zero, suc, ◌+◌, ◌-◌, Bool, true, false, not, ◌&&◌, ◌||◌, Option, none, some, List, [], ◌∷◌,
  ◌++◌, Result, ok, err, ◌>>=◌, ◌>>◌, fail_if, map_err, if◌then◌else◌, ltb, eqb, length, any, Text,
  Bytes, ◌==◌, nat_eq, list_eq, Option-cases, ok_or,
}
use singularis.Protocol.Event.{SubmitJson, SubmitEvent, AcceptedEvent}
use singularis.Vault.Error.{VaultError, corrupt_state, locked}
use singularis.Vault.Input.{VaultOutboxItem}
use singularis.Vault.Database.{Faults, Connection}
use singularis.Vault.Methods.{UuidText}
use singularis.Vault.Methods.Outbox.{list_all_mls_outbox, acknowledge_mls_outbox}

pub data OutboxWorkerState : Type 0 where
  paused idle sending deferred : OutboxWorkerState

pub record OutboxWorkerStatus : Type 0 where
  pub state : OutboxWorkerState
  pub pending : ℕ
  pub attempted : ℕ
  pub acknowledged : ℕ
  pub failed : ℕ
  pub last_error : Option String

-- `OutboxWorkerStatus::paused` and `OutboxWorkerStatus::sending`.
abbrev pub fresh_status : OutboxWorkerState → ℕ → OutboxWorkerStatus
fresh_status state pending = record {
  state = state;
  pending = pending;
  attempted = 0;
  acknowledged = 0;
  failed = 0;
  last_error = none;
}

abbrev pub deferred_status : ℕ → ℕ → ℕ → ℕ → String → OutboxWorkerStatus
deferred_status pending attempted acknowledged failed error = record {
  state = deferred;
  pending = pending;
  attempted = attempted;
  acknowledged = acknowledged;
  failed = failed;
  last_error = some error;
}

pub data RelaySubmitError : Type 0 where
  unreachable rejected invalid_response : RelaySubmitError

abbrev pub relay_code : RelaySubmitError → String
relay_code unreachable = "relay_unreachable"
relay_code rejected = "relay_rejected"
relay_code invalid_response = "invalid_relay_response"

-- `Arc<Mutex<Vault>>`
pub data ManagedVault : Type 0 where
  poisoned : ManagedVault
  guarded : Connection → ManagedVault

unfoldable pub list_pending : Faults → ManagedVault → Result VaultError (List VaultOutboxItem)
list_pending faults poisoned = err corrupt_state
list_pending faults (guarded c) = list_all_mls_outbox faults c

abbrev pub guard_result :
    {A : Type 0} → Result VaultError A × Connection → Result VaultError A × ManagedVault
guard_result (r, c) = (r, guarded c)

unfoldable pub acknowledge :
    Faults → ManagedVault → Text → Text → Result VaultError Bool × ManagedVault
acknowledge faults poisoned device_id event_id = (err corrupt_state, poisoned)
acknowledge faults (guarded c) device_id event_id =
    guard_result (acknowledge_mls_outbox faults device_id event_id c)

abbrev pub valid_receipt : SubmitEvent → AcceptedEvent → Bool
valid_receipt submission receipt =
    receipt.event_id == submission.event_id
    && receipt.channel_id == submission.channel_id
    && ltb 0 receipt.sequence
    && ltb receipt.accepted_at receipt.expires_at

-- How the `select!` between the relay's answer and the change of `enabled` ends.
pub data Relayed : Type 0 where
  answered : Result RelaySubmitError AcceptedEvent → Relayed
  interrupted : Relayed

-- What happens while one item is handled: whether the worker is found enabled, what comes of the
-- submission, what others do to the vault before the acknowledgement, and which statements fail.
pub record Round : Type 0 where
  pub is_enabled : Bool
  pub relay : Bytes → Relayed
  pub others : ManagedVault → ManagedVault
  pub faults : Faults

-- What happens during a pass: its rounds, and what its reads of the outbox and of the flag find.
pub record Surroundings : Type 0 where
  pub first_faults : Faults
  pub rounds : ℕ → Round
  pub last_others : ManagedVault → ManagedVault
  pub last_faults : Faults
  pub enabled_at_end : Bool

-- The variables of the loop, the vault, and the payloads that were handed to the relay.
pub record Progress : Type 0 where
  pub report : OutboxWorkerStatus
  pub blocked_devices : List Text
  pub vault : ManagedVault
  pub requests : List Bytes

pub data Flow : Type 0 where
  continue break : Progress → Flow

abbrev pub get_or_insert : Option String → String → Option String
get_or_insert none error = some error
get_or_insert (some first) error = some first

abbrev pub is_blocked : Text → List Text → Bool
is_blocked device_id blocked_devices = any (λ d. d == device_id) blocked_devices

-- A failure: it is counted, and the device's later items have to wait.
abbrev pub fail : String → Text → Progress → Progress
fail error device_id p = record p {
  report = record p.report {
    failed = p.report.failed + 1;
    last_error = get_or_insert p.report.last_error error;
  };
  blocked_devices = device_id ∷ p.blocked_devices;
}

abbrev pub paused_at : Progress → Progress
paused_at p = record p { report = record p.report { state = paused } }

-- The `VaultError::Locked` arms.
abbrev pub is_locked : VaultError → Bool
is_locked locked = true
is_locked _ = false

abbrev pub on_acknowledged : Text → Result VaultError Bool × ManagedVault → Progress → Flow
on_acknowledged device_id (ok true, vault) p = continue (record p {
  report = record p.report { acknowledged = p.report.acknowledged + 1 };
  vault = vault;
})
on_acknowledged device_id (ok false, vault) p = continue (record p { vault = vault })
on_acknowledged device_id (err error, vault) p =
    if is_locked error
    then break (paused_at (record p { vault = vault }))
    else continue (fail "vault_acknowledgement_failed" device_id (record p { vault = vault }))

abbrev pub on_flow : Flow → (Progress → Progress) → Progress
on_flow (break p) rest = p
on_flow (continue p) rest = rest p

abbrev pub pending_of : OutboxWorkerStatus → Result VaultError (List VaultOutboxItem) → ℕ
pending_of report (ok items) = length items
pending_of report (err error) = report.pending - report.acknowledged

abbrev pub final_state : Bool → ℕ → ℕ → OutboxWorkerState
final_state enabled failed pending =
    if not enabled then paused else if ltb 0 failed || ltb 0 pending then deferred else idle

-- The worker; `status` is nothing when its mutex is poisoned, and `kick` is the permit that `Notify`
-- keeps.
pub record OutboxWorker : Type 0 where
  pub enabled : Bool
  pub enabled_tx : Bool
  pub kick : Bool
  pub status_cell : Option OutboxWorkerStatus

abbrev pub new : OutboxWorker
new = record {
  enabled = false;
  enabled_tx = false;
  kick = false;
  status_cell = some (fresh_status paused 0);
}

abbrev pub status_of : Option OutboxWorkerStatus → OutboxWorkerStatus
status_of none = deferred_status 0 0 0 1 "worker_state_unavailable"
status_of (some status) = status

abbrev pub status : OutboxWorker → OutboxWorkerStatus
status worker = status_of worker.status_cell

abbrev pub replace : {A : Type 0} → A → Option A → Option A
replace a none = none
replace a (some old) = some a

abbrev pub set_status : OutboxWorkerStatus → OutboxWorker → OutboxWorker
set_status status worker = record worker { status_cell = replace status worker.status_cell }

unfoldable pub resume : OutboxWorker → OutboxWorker
resume worker = record worker {
  enabled = true;
  enabled_tx = if not worker.enabled then true else worker.enabled_tx;
  kick = true;
}

unfoldable pub notify_pending : OutboxWorker → OutboxWorker
notify_pending worker = record worker { kick = true }

unfoldable pub pause : OutboxWorker → OutboxWorker
pause worker = set_status (fresh_status paused (status worker).pending) (record worker {
  enabled = false;
  enabled_tx = if worker.enabled then false else worker.enabled_tx;
})

abbrev pub begun : List VaultOutboxItem → ManagedVault → Progress
begun items vault = record {
  report = fresh_status sending (length items);
  blocked_devices = [];
  vault = vault;
  requests = [];
}

-- The part of `flush_now` behind the loop.
abbrev pub finish : Surroundings → Progress → Progress
finish around p =
    let vault = around.last_others p.vault in
    let pending = pending_of p.report (list_pending around.last_faults vault) in
    record p {
      report = record p.report {
        pending = pending;
        state = final_state around.enabled_at_end p.report.failed pending;
      };
      vault = vault;
    }

module _ (uuid : UuidText) (json : SubmitJson) where
  unfoldable pub validate_outbox_item :
      VaultOutboxItem → Result (String × Text) (SubmitEvent × Bytes)
  validate_outbox_item item = do
    submission ← ok_or (json.from_slice item.payload) ("invalid_outbox_entry", item.device_id)
    canonical ← ok_or (json.to_vec submission) ("invalid_outbox_entry", item.device_id)
    fail_if
        (not (canonical == item.payload)
          || not (uuid.to_string submission.event_id == item.event_id)
          || not (uuid.to_string submission.sender_device_id == item.device_id))
        ("invalid_outbox_entry", item.device_id)
    ok (submission, canonical)

  abbrev pub on_relayed : Round → SubmitEvent → Relayed → Progress → Flow
  on_relayed round submission interrupted p = break (paused_at p)
  on_relayed round submission (answered (err error)) p =
      continue (fail (relay_code error) (uuid.to_string submission.sender_device_id) p)
  on_relayed round submission (answered (ok receipt)) p =
      if valid_receipt submission receipt
      then on_acknowledged (uuid.to_string submission.sender_device_id)
          (acknowledge round.faults (round.others p.vault)
            (uuid.to_string submission.sender_device_id) (uuid.to_string receipt.event_id))
          p
      else continue (fail "invalid_relay_receipt" (uuid.to_string submission.sender_device_id) p)

  abbrev pub on_validated : Round → Result (String × Text) (SubmitEvent × Bytes) → Progress → Flow
  on_validated round (err (error, device_id)) p = continue (fail error device_id p)
  on_validated round (ok (submission, payload)) p =
      on_relayed round submission (round.relay payload) (record p {
        report = record p.report { attempted = p.report.attempted + 1 };
        requests = p.requests ++ payload ∷ [];
      })

  -- The body of the loop.
  unfoldable pub flush_item : Round → VaultOutboxItem → Progress → Flow
  flush_item round item p =
      if is_blocked item.device_id p.blocked_devices
      then continue p
      else if not round.is_enabled
      then break (paused_at p)
      else on_validated round (validate_outbox_item item) p

  unfoldable pub flush_items : (ℕ → Round) → ℕ → List VaultOutboxItem → Progress → Progress
  flush_items rounds n [] p = p
  flush_items rounds n (item ∷ rest) p =
      on_flow (flush_item (rounds n) item p) (λ q. flush_items rounds (suc n) rest q)

  abbrev pub on_listed :
      Surroundings → ManagedVault → Result VaultError (List VaultOutboxItem) → Progress
  on_listed around vault (ok items) =
      finish around (flush_items around.rounds 0 items (begun items vault))
  on_listed around vault (err error) = record (begun [] vault) {
    report =
        if is_locked error
        then fresh_status paused 0
        else deferred_status 0 0 0 1 "vault_read_failed";
  }

  -- A pass of an enabled worker.
  unfoldable pub pass : Surroundings → ManagedVault → Progress
  pass around vault = on_listed around vault (list_pending around.first_faults vault)

  -- Returns the status, the worker, the vault and the payloads that were handed to the relay.
  unfoldable pub flush_now :
      Surroundings
      → OutboxWorker
      → ManagedVault
      → OutboxWorkerStatus × OutboxWorker × ManagedVault × List Bytes
  flush_now around worker vault =
      if not worker.enabled
      then (
        fresh_status paused (status worker).pending,
        set_status (fresh_status paused (status worker).pending) worker,
        vault,
        [],
      )
      else let p = pass around vault in (p.report, set_status p.report worker, p.vault, p.requests)
