-- ===== src/Vault/Methods/Identity.antt =====
-- The local device id is drawn once.
use singularis.Prelude.{
  ℕ, ◌<◌, ◌^◌, ◌≡◌, refl, sym, ap, subst, ◌∙◌, none, some, List, [], ◌∷◌, ok, err, Text, arith, All,
  Option-cases, inl, inr, if◌then◌else◌,
}
use singularis.Vault.Error.{database}
use singularis.Vault.Database.{Database, Faults, Connection, select_device}
use singularis.Vault.Methods.{UuidText, local_device_id}
use singularis.Vault.Methods.Soundness.{Call, acknowledges, run}
use singularis.Vault.Methods.Keeps.{Allows, At, run-At}

all_allowed : (calls : List Call) → All (Allows (λ device_id event_id. Unit)) calls
all_allowed [] = tt
all_allowed (acknowledges faults device_id event_id ∷ calls) = (tt, all_allowed calls)
all_allowed (_ ∷ calls) = (tt, all_allowed calls)

-- The vault has the text of this device id.
abbrev Identified : UuidText → ℕ → Database → Type 0
Identified uuid device db =
    (stored : Text) × (db.local_device ≡ some stored) × (uuid.parse_str stored ≡ some device)

local_device_id-Identified :
    (uuid : UuidText) (faults : Faults) (drawn : ℕ) (c : Connection) (device : ℕ)
    → drawn < 2 ^ 128
    → (local_device_id uuid faults drawn c).0 ≡ ok device
    → At (Identified uuid device) (local_device_id uuid faults drawn c).1
unfolding local_device_id
local_device_id-Identified uuid faults drawn none device small h = absurd (ground arith)
local_device_id-Identified uuid faults drawn (some db) device small h =
    elim (Option-cases db.local_device) [
      | inl e ↦
          let written : (local_device_id uuid faults drawn (some db)).1
              ≡ some (record db { local_device = some (uuid.to_string drawn) }) =
            ground arith in
          let same : drawn ≡ device = ground arith in
          subst (At (Identified uuid device)) (sym written)
            (uuid.to_string drawn, refl, uuid.parse_str-to_string drawn small ∙ ap some same)
      | inr (stored, e) ↦ elim (Option-cases (uuid.parse_str stored)) [
        | inl k ↦ absurd (ground arith)
        | inr (u, k) ↦
            let left : (local_device_id uuid faults drawn (some db)).1 ≡ some db = ground arith in
            let same : u ≡ device = ground arith in
            subst (At (Identified uuid device)) (sym left) (stored, e, k ∙ ap some same)
      ]
    ]

-- The device id does not change once it was read: after any calls on the open vault, a later one
-- returns it, whatever number it draws, and leaves the vault alone; if its query fails, that is its
-- error.
pub local_device_id_stable :
    (uuid : UuidText) (faults later_faults : Faults) (drawn later : ℕ) (c : Connection) (device : ℕ)
    (calls : List Call)
    → drawn < 2 ^ 128
    → (local_device_id uuid faults drawn c).0 ≡ ok device
    → local_device_id uuid later_faults later (run calls (local_device_id uuid faults drawn c).1)
      ≡ (
        if later_faults select_device then err database else ok device,
        run calls (local_device_id uuid faults drawn c).1,
      )
unfolding local_device_id
local_device_id_stable uuid faults later_faults drawn later c device calls small h =
    again (run calls (local_device_id uuid faults drawn c).1) (
      run-At (Identified uuid device) (λ device_id event_id. Unit) (λ db rows i. i)
        (λ db device_id snapshot i. i) (λ db item fresh i. i) (λ db device_id event_id allowed i. i)
        (λ db text absent i. absurd (ground (arith, i.1))) calls
        (local_device_id uuid faults drawn c).1 (all_allowed calls)
        (local_device_id-Identified uuid faults drawn c device small h))
  where
    again :
        (c : Connection)
        → At (Identified uuid device) c
        → local_device_id uuid later_faults later c
          ≡ (if later_faults select_device then err database else ok device, c)
    again none impossible = absurd impossible
    again (some db) (stored, e, k) = ground (arith, e, k)
