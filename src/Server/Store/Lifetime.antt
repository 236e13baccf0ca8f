-- ===== src/Server/Store/Lifetime.antt =====
-- The instance's policy on lifetimes: no listing shows an event past it.
use singularis.Prelude.{
  ℕ, ◌+◌, ◌≤◌, ◌≡◌, Option, none, some, List, [], ◌∷◌, arith, nat_eq, All, All-append, All-retain,
  All-map,
}
use singularis.Protocol.Ttl.{
  ServerTtl, InPolicy, min_of_le, min_of-InPolicy, min_server_ttl_seconds,
}
use singularis.Protocol.Event.{Uuid, OffsetDateTime, SubmitEvent}
use singularis.Server.Store.{
  StoredEvent, is_live, nanos, delivered, default, list_active, Call, accepts, lists, run,
}
use singularis.Server.Store.Live.{of_channel}
use singularis.Server.Store.Relay.{
  Relay, new_relay, expire, decide, submit, fetch, relay_step, relay_run, Refines-run,
  Refines-default, Refines-list_active,
}

-- Submissions carry a lifetime that the wire format allows, under one instance policy.
abbrev pub Obeys : ServerTtl → Call → Type 0
Obeys policy (accepts request max at) = (max ≡ policy) × InPolicy request.ttl_seconds
Obeys policy (lists channel after now) = Unit

abbrev Bounded : ServerTtl → StoredEvent → Type 0
Bounded policy s =
    (s.receipt.accepted_at + nanos min_server_ttl_seconds ≤ s.receipt.expires_at)
    × (s.receipt.expires_at ≤ s.receipt.accepted_at + nanos policy.seconds)

module _ (policy : ServerTtl) (valid : InPolicy policy) where
  decide-Bounded :
      (request : SubmitEvent) (at : OffsetDateTime) (r : Relay) (found : Option StoredEvent)
      (counter : Option ℕ)
      → InPolicy request.ttl_seconds
      → All (Bounded policy) r.live
      → All (Bounded policy) (decide request policy at r found counter).1.live
  decide-Bounded request at r (some s) counter h b = b
  decide-Bounded request at r none (some n) h b = b
  decide-Bounded request at r none none h b = All-append (Bounded policy) r.live _ b (
    omega (
      arith,
      min_of_le request.ttl_seconds policy,
      min_of-InPolicy request.ttl_seconds policy h valid,
    ),
    tt,
  )

  relay_step-Bounded :
      (c : Call) (r : Relay)
      → Obeys policy c
      → All (Bounded policy) r.live
      → All (Bounded policy) (relay_step c r).live
  unfolding submit fetch
  relay_step-Bounded (accepts request max at) r h b = rw (h.0) (
      decide-Bounded request at (expire at r) _ _ h.1
        (All-retain (Bounded policy) (is_live at) r.live b))
  relay_step-Bounded (lists channel after now) r h b =
      All-retain (Bounded policy) (is_live now) r.live b

  relay_run-Bounded :
      (cs : List Call) (r : Relay)
      → All (Obeys policy) cs
      → All (Bounded policy) r.live
      → All (Bounded policy) (relay_run cs r).live
  unfolding relay_run
  relay_run-Bounded [] r h b = b
  relay_run-Bounded (c ∷ cs) r h b =
      relay_run-Bounded cs (relay_step c r) h.1 (relay_step-Bounded c r h.0 b)

  fetch-Bounded :
      (channel : Uuid) (after : ℕ) (now : OffsetDateTime) (r : Relay)
      → All (Bounded policy) r.live
      → All
          (λ d.
            (d.receipt.accepted_at + nanos min_server_ttl_seconds ≤ d.receipt.expires_at)
            × (d.receipt.expires_at ≤ d.receipt.accepted_at + nanos policy.seconds))
          (fetch channel after now r).0
  unfolding fetch of_channel
  fetch-Bounded channel after now r b = All-map delivered _ _ (
      All-retain (Bounded policy) _ _
        (All-retain (Bounded policy) _ _ (All-retain (Bounded policy) (is_live now) r.live b)))

-- If every submission so far carried a lifetime of the wire format and the instance's policy did not
-- change, each listed event lives at least the five minutes of the wire format, and at most as long
-- as the instance's policy allows.
pub list_active-lifetime :
    (policy : ServerTtl) (cs : List Call) (channel : Uuid) (after : ℕ) (now : OffsetDateTime)
    → InPolicy policy
    → All (Obeys policy) cs
    → All
        (λ d.
          (d.receipt.accepted_at + nanos min_server_ttl_seconds ≤ d.receipt.expires_at)
          × (d.receipt.expires_at ≤ d.receipt.accepted_at + nanos policy.seconds))
        (list_active channel after now (run cs default)).0
list_active-lifetime policy cs channel after now valid h =
    rw
      ((Refines-list_active channel after now _ _
        (Refines-run cs default new_relay Refines-default)).0)
      (fetch-Bounded policy valid channel after now _
        (relay_run-Bounded policy valid cs new_relay h tt))
