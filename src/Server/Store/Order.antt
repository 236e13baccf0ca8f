-- ===== src/Server/Store/Order.antt =====
-- Sequence numbers: what a channel's readers may rely on.
use singularis.Prelude.{
  ℕ, suc, ◌+◌, ◌≤◌, ◌<◌, ◌^◌, ◌≡◌, refl, Bool, true, Option, none, some, List, [], ◌∷◌, arith, ◌==◌,
  nat_eq, retain, insert, ltb, length, All, Pairwise, All-append, All-mono, All-retain,
  All-retain_self, All-retain_and, Pairwise-retain, Pairwise-snoc, All-map, Pairwise-map,
  Pairwise-mono, subst, ltb→lt, sym, ◌∙◌,
}
use singularis.Protocol.Ttl.{ServerTtl}
use singularis.Protocol.Event.{Uuid, OffsetDateTime, SubmitEvent, DeliveredEvent}
use singularis.Server.Store.{
  StoredEvent, is_live, delivered, default, list_active, Call, accepts, lists, run,
}
use singularis.Server.Store.Live.{of_channel}
use singularis.Server.Store.Relay.{
  Relay, new_relay, expire, append, decide, submit, fetch, relay_step, relay_run, Refines-run,
  Refines-default, Refines-list_active,
}

-- The last number given out in a channel, 0 if none was.
abbrev pub last : Option ℕ → ℕ
last none = 0
last (some n) = n

-- In one channel, the earlier event has the smaller number.
abbrev pub Before : StoredEvent → StoredEvent → Type 0
Before s t = s.request.channel_id ≡ t.request.channel_id → s.receipt.sequence < t.receipt.sequence

abbrev pub Numbered : Relay → StoredEvent → Type 0
Numbered r s =
    (s.receipt.channel_id ≡ s.request.channel_id)
    × (s.receipt.sequence ≤ last (r.sequences s.request.channel_id))

pub record IsOrdered (n : ℕ) (r : Relay) : Type 0 where
  pub bounded : (c : Uuid) → last (r.sequences c) ≤ n
  pub numbered : All (Numbered r) r.live
  pub ordered : Pairwise Before r.live

expire-IsOrdered :
    (now : OffsetDateTime) (n : ℕ) (r : Relay) → IsOrdered n r → IsOrdered n (expire now r)
expire-IsOrdered now n r o = record {
  bounded = o.bounded;
  numbered = All-retain (Numbered r) (is_live now) r.live o.numbered;
  ordered = Pairwise-retain Before (is_live now) r.live o.ordered;
}

append-IsOrdered :
    (request : SubmitEvent) (max : ServerTtl) (at : OffsetDateTime) (n : ℕ) (r : Relay)
    → suc n < 2 ^ 64
    → IsOrdered n r
    → IsOrdered (suc n) (append request max at r).1
unfolding insert
append-IsOrdered request max at n r small o = record {
  bounded = λ c. ground (arith, o.bounded c, o.bounded request.channel_id);
  numbered =
      All-append (Numbered (append request max at r).1) r.live _
        (All-mono (Numbered r) (Numbered (append request max at r).1)
          (λ s h. (
            h.0,
            ground (
              arith,
              o.bounded request.channel_id,
              nat_eq.beq_iff request.channel_id s.request.channel_id,
            ),
          ))
          r.live o.numbered)
        ((refl, ground (arith, nat_eq.beq_iff request.channel_id request.channel_id)), tt);
  ordered =
      Pairwise-snoc Before r.live _
        (All-mono (Numbered r) _ (λ s h e. ground (arith, o.bounded request.channel_id)) r.live
          o.numbered)
        o.ordered;
}

IsOrdered-suc : (n : ℕ) (r : Relay) → IsOrdered n r → IsOrdered (suc n) r
IsOrdered-suc n r o = record {
  bounded = λ c. omega (arith, o.bounded c);
  numbered = o.numbered;
  ordered = o.ordered;
}

decide-IsOrdered :
    (request : SubmitEvent) (max : ServerTtl) (at : OffsetDateTime) (n : ℕ) (r : Relay)
    (found : Option StoredEvent) (counter : Option ℕ)
    → suc n < 2 ^ 64
    → IsOrdered n r
    → IsOrdered (suc n) (decide request max at r found counter).1
decide-IsOrdered request max at n r (some stored) counter small o = IsOrdered-suc n r o
decide-IsOrdered request max at n r none (some highest) small o = IsOrdered-suc n r o
decide-IsOrdered request max at n r none none small o = append-IsOrdered request max at n r small o

relay_step-IsOrdered :
    (c : Call) (n : ℕ) (r : Relay)
    → suc n < 2 ^ 64
    → IsOrdered n r
    → IsOrdered (suc n) (relay_step c r)
unfolding submit fetch
relay_step-IsOrdered (accepts request max at) n r small o =
    decide-IsOrdered request max at n (expire at r) _ _ small (expire-IsOrdered at n r o)
relay_step-IsOrdered (lists channel after now) n r small o =
    IsOrdered-suc n (expire now r) (expire-IsOrdered now n r o)

shift : (n : ℕ) (cs : List Call) → suc n + length cs ≡ n + suc (length cs)
shift n cs = omega arith

relay_run-IsOrdered :
    (cs : List Call) (n : ℕ) (r : Relay)
    → n + length cs < 2 ^ 64
    → IsOrdered n r
    → IsOrdered (n + length cs) (relay_run cs r)
unfolding relay_run
relay_run-IsOrdered [] n r small o = record {
  bounded = λ c. omega (arith, o.bounded c);
  numbered = o.numbered;
  ordered = o.ordered;
}
relay_run-IsOrdered (c ∷ cs) n r small o =
    subst (λ k. IsOrdered k (relay_run cs (relay_step c r))) (shift n cs)
      (relay_run-IsOrdered cs (suc n) (relay_step c r) (omega arith)
        (relay_step-IsOrdered c n r (omega arith) o))

abbrev Listed : Uuid → ℕ → OffsetDateTime → DeliveredEvent → Type 0
Listed channel after now d =
    (d.receipt.channel_id ≡ channel) × (after < d.receipt.sequence) × (now < d.receipt.expires_at)

fetch-ordered :
    (channel : Uuid) (after : ℕ) (now : OffsetDateTime) (n : ℕ) (r : Relay)
    → IsOrdered n r
    → Pairwise (λ a b. a.receipt.sequence < b.receipt.sequence) (fetch channel after now r).0
      × All (Listed channel after now) (fetch channel after now r).0
unfolding fetch of_channel
fetch-ordered channel after now n r o = (
  Pairwise-map delivered _ found (
      Pairwise-mono (λ s. s.request.channel_id ≡ channel) Before _ (λ a b ha hb h. h (ha ∙ sym hb))
        found (All-retain _ newer _ in_channel)
        (Pairwise-retain Before newer _
          (Pairwise-retain Before here (expire now r).live o'.ordered))),
  All-map delivered (Listed channel after now) found (
      All-mono _ (λ s. Listed channel after now (delivered s))
        (λ s h. (
          h.0.0.0.0 ∙ (nat_eq.beq_iff s.request.channel_id channel).0 h.0.1,
          ltb→lt _ _ h.1,
          ltb→lt _ _ h.0.0.1,
        ))
        found
        (All-retain_and _ newer _
          (All-retain_and _ here _ (All-retain_and (Numbered r) (is_live now) r.live o.numbered)))),
)
  where
    newer : StoredEvent → Bool
    newer s = ltb after s.receipt.sequence

    here : StoredEvent → Bool
    here s = s.request.channel_id == channel

    o' : IsOrdered n (expire now r)
    o' = expire-IsOrdered now n r o

    found : List StoredEvent
    found = retain newer (retain here (expire now r).live)

    in_channel : All (λ s. s.request.channel_id ≡ channel) (retain here (expire now r).live)
    in_channel =
        All-mono (λ s. here s ≡ true) _ (λ s. (nat_eq.beq_iff s.request.channel_id channel).0)
          (retain here (expire now r).live) (All-retain_self here (expire now r).live)

new_relay-IsOrdered : IsOrdered 0 new_relay
new_relay-IsOrdered = record { bounded = λ c. omega arith; numbered = tt; ordered = tt }

-- After fewer than 2^64 calls on a new store, a listing of a channel holds events of that channel
-- alone, each numbered past the cursor and not yet expired, in strictly rising sequence order.
pub list_active-ordered :
    (cs : List Call) (channel : Uuid) (after : ℕ) (now : OffsetDateTime)
    → length cs < 2 ^ 64
    → Pairwise
        (λ a b. a.receipt.sequence < b.receipt.sequence)
        (list_active channel after now (run cs default)).0
      × All
          (λ d.
            (d.receipt.channel_id ≡ channel)
            × (after < d.receipt.sequence)
            × (now < d.receipt.expires_at))
          (list_active channel after now (run cs default)).0
list_active-ordered cs channel after now small =
    rw
      ((Refines-list_active channel after now _ _
        (Refines-run cs default new_relay Refines-default)).0)
      (fetch-ordered channel after now _ _
        (relay_run-IsOrdered cs 0 new_relay (omega arith) new_relay-IsOrdered))
