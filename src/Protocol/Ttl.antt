-- ===== src/Protocol/Ttl.antt =====
-- crates/singularis-protocol/src/ttl.rs
use singularis.Prelude.{
  ℕ, ◌*◌, ◌^◌, ◌≤◌, ◌≡◌, ◌↔◌, true, not, ◌&&◌, Option, none, some, Result, ok, err, ◌>>=◌, ◌>>◌,
  ok_or, fail_if, arith, ltb, leb, if◌then◌else◌, Eq, eqb,
}

abbrev pub min_server_ttl_seconds : ℕ
min_server_ttl_seconds = 5 * 60

abbrev pub max_server_ttl_seconds : ℕ
max_server_ttl_seconds = 7 * 24 * 60 * 60

pub record ServerTtl : Type 0 where
  pub seconds : ℕ

pub record TtlError : Type 0 where
  pub received : ℕ

abbrev pub min_ttl : ServerTtl
min_ttl = record { seconds = min_server_ttl_seconds }

abbrev pub max_ttl : ServerTtl
max_ttl = record { seconds = max_server_ttl_seconds }

abbrev pub default_ttl : ServerTtl
default_ttl = max_ttl

-- `u32::try_from` on a `u64`.
abbrev pub to_u32 : ℕ → Option ℕ
to_u32 n = if ltb n (2 ^ 32) then some n else none

unfoldable pub try_from : ℕ → Result TtlError ServerTtl
try_from seconds = do
  s ← ok_or (to_u32 seconds) (record { received = seconds })
  fail_if (not (leb min_server_ttl_seconds s && leb s max_server_ttl_seconds))
      (record { received = s })
  ok (record { seconds = s })

-- `Ord::min`, derived from the one field.
unfoldable pub min_of : ServerTtl → ServerTtl → ServerTtl
min_of a b = if leb a.seconds b.seconds then a else b

abbrev pub InPolicy : ServerTtl → Type 0
InPolicy t = (min_server_ttl_seconds ≤ t.seconds) × (t.seconds ≤ max_server_ttl_seconds)

-- A lifetime is accepted exactly when it lies in the policy's range, unchanged, and a refusal
-- reports the number that was received, also where that number does not fit 32 bits.
pub try_from-eq :
    (n : ℕ)
    → ((t : ServerTtl) → (try_from n ≡ ok t) ↔ ((t.seconds ≡ n) × InPolicy t))
      × ((e : TtlError)
          → (try_from n ≡ err e)
            ↔ ((e.received ≡ n) × ¬ ((min_server_ttl_seconds ≤ n) × (n ≤ max_server_ttl_seconds))))
unfolding try_from
try_from-eq n =
    (λ t. (λ h. ground arith, λ h. ground arith), λ e. (λ h. ground arith, λ h. ground arith))

pub min_of-InPolicy : (a b : ServerTtl) → InPolicy a → InPolicy b → InPolicy (min_of a b)
unfolding min_of
min_of-InPolicy a b ha hb = ground arith

pub min_of_le :
    (a b : ServerTtl) → ((min_of a b).seconds ≤ a.seconds) × ((min_of a b).seconds ≤ b.seconds)
unfolding min_of
min_of_le a b = ground arith

pub ttl_beq_iff : (a b : ServerTtl) → (eqb a.seconds b.seconds ≡ true) ↔ (a ≡ b)
ttl_beq_iff a b = ground arith

instance abbrev pub ttl_eq : Eq ServerTtl
ttl_eq = record { beq = λ a b. eqb a.seconds b.seconds; beq_iff = ttl_beq_iff }
