-- ===== src/Tests/Http.antt =====
-- The relay's address and its responses at concrete inputs.
use singularis.Prelude.{
  ℕ, ◌≡◌, ◌≤◌, ◌<◌, ◌⊎◌, refl, true, false, Option, none, some, [], ◌∷◌, ok, Text, Bytes, text,
  is_empty, length, list_eq, nat_eq,
}
use singularis.Protocol.Event.{AcceptedEvent}
use singularis.Desktop.Outbox.Http.{
  Urls, relay_submit_url, is_loopback_host, relay_submit_url-safe, Response, submit, submit-parts,
  whole, max_receipt_bytes, read_chunks,
}

record Address : Type 0 where
  scheme_part : Text
  host_part : Text
  path_part : Text

abbrev local_address : Text → Address
local_address path = record {
  scheme_part = text "http";
  host_part = text "LocalHost";
  path_part = path;
}

-- Addresses for the tests: every text is that of one local server.
abbrev local_urls : Urls Address
local_urls = record {
  parse = λ s. some (local_address (text "/"));
  cannot_be_a_base = λ u. false;
  username = λ u. [];
  password = λ u. none;
  query = λ u. none;
  fragment = λ u. none;
  path = λ u. u.path_part;
  scheme = λ u. u.scheme_part;
  host_str = λ u. some u.host_part;
  set_path = λ p u. record u { path_part = p };
  is_loopback_ip = λ s. false;
  path-set_path = λ p u plain h. refl;
  scheme-set_path = λ p u. refl;
  host_str-set_path = λ p u. refl;
  username-set_path = λ p u. refl;
  password-set_path = λ p u. refl;
  query-set_path = λ p u. refl;
}

local_relay :
    relay_submit_url local_urls (text "http://LocalHost/") ≡ ok (local_address (text "/v1/events"))
unfolding relay_submit_url
local_relay = refl

relay_submit_url-safe_example :
    (text "/v1/events" ≡ text "/v1/events")
    × ((text "http" ≡ text "https")
        ⊎ ((text "http" ≡ text "http")
            × (is_loopback_host local_urls (local_address (text "/v1/events")) ≡ true)))
    × (is_empty {A = ℕ} [] ≡ true)
    × (◌≡◌ {A = Option Text} none none)
    × (◌≡◌ {A = Option Text} none none)
relay_submit_url-safe_example =
    relay_submit_url-safe local_urls (text "http://LocalHost/") (local_address (text "/v1/events"))
      local_relay

abbrev first_receipt : AcceptedEvent
first_receipt = record {
  event_id = 1;
  channel_id = 7;
  sequence = 1;
  accepted_at = 5;
  expires_at = 9;
}

abbrev two_chunks : Response
two_chunks = record {
  status = 202;
  content_length = none;
  chunks = some (b'{' ∷ []) ∷ some (b'}' ∷ []) ∷ [];
}

reads_two_chunks : submit (λ body. some first_receipt) (some two_chunks) ≡ ok first_receipt
unfolding submit read_chunks
reads_two_chunks = refl

submit-parts_example :
    (two_chunks.status ≡ 202)
    × (body : Bytes) × (whole two_chunks.chunks ≡ some body)
    × (0 < length body)
    × (length body ≤ max_receipt_bytes)
    × (◌≡◌ {A = Option AcceptedEvent} (some first_receipt) (some first_receipt))
submit-parts_example =
    submit-parts (λ body. some first_receipt) two_chunks first_receipt reads_two_chunks
