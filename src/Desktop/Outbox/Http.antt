-- ===== src/Desktop/Outbox/Http.antt =====
-- apps/desktop/src-tauri/src/outbox.rs: where submissions are sent, and how the relay's response is
-- read. The url crate, serde_json and what the connection delivers are parameters.
use singularis.Prelude.{
  ok_or-ok, ok_value, fail_if-ok, ℕ, ◌+◌, ◌*◌, ◌≤◌, ◌<◌, ◌≡◌, ◌⊎◌, inl, inr, refl, sym, ap, subst,
  ◌∙◌, Bool, true, false, not, ◌&&◌, ◌||◌, Option, none, some, List, [], ◌∷◌, ◌++◌, Result, ok, err,
  ◌>>=◌, ◌>>◌, >>=-eq-ok, fail_if, ok_or, if◌then◌else◌, ltb, leb, eqb, length, length-append,
  is_empty, all, Text, Bytes, text, ◌==◌, nat_eq, list_eq, map, arith, Bool-cases, and_then,
}
use singularis.Protocol.Event.{AcceptedEvent}
use singularis.Desktop.Outbox.{RelaySubmitError, unreachable, rejected, invalid_response}

abbrev pub max_receipt_bytes : ℕ
max_receipt_bytes = 64 * 1024

pub data OutboxWorkerConfigError : Type 0 where
  invalid_url insecure_url http_client : OutboxWorkerConfigError

-- A path that the url crate takes as it is: behind the slash that starts it, letters, digits and slashes
-- only, and no second slash at once, so that nothing is prepended, encoded or resolved.
abbrev pub is_plain_char : ℕ → Bool
is_plain_char c =
    leb b'a' c && leb c b'z' || leb b'A' c && leb c b'Z' || leb b'0' c && leb c b'9' || eqb c b'/'

abbrev pub is_plain_path : Text → Bool
is_plain_path (slash ∷ first ∷ rest) =
    eqb slash b'/' && not (eqb first b'/') && is_plain_char first && all is_plain_char rest
is_plain_path _ = false

-- What the source uses of the url crate and of `std::net::IpAddr`; setting the path of a base URL to a
-- plain one yields that path, and setting a path leaves the other parts alone.
pub record Urls (Url : Type 0) : Type 0 where
  pub parse : Text → Option Url
  pub cannot_be_a_base : Url → Bool
  pub username : Url → Text
  pub password : Url → Option Text
  pub query : Url → Option Text
  pub fragment : Url → Option Text
  pub path : Url → Text
  pub scheme : Url → Text
  pub host_str : Url → Option Text
  pub set_path : Text → Url → Url
  pub is_loopback_ip : Text → Bool
  pub path-set_path :
      (p : Text) (url : Url)
      → is_plain_path p ≡ true
      → cannot_be_a_base url ≡ false
      → path (set_path p url) ≡ p
  pub scheme-set_path : (p : Text) (url : Url) → scheme (set_path p url) ≡ scheme url
  pub host_str-set_path : (p : Text) (url : Url) → host_str (set_path p url) ≡ host_str url
  pub username-set_path : (p : Text) (url : Url) → username (set_path p url) ≡ username url
  pub password-set_path : (p : Text) (url : Url) → password (set_path p url) ≡ password url
  pub query-set_path : (p : Text) (url : Url) → query (set_path p url) ≡ query url

abbrev pub to_ascii_lowercase : ℕ → ℕ
to_ascii_lowercase c = if leb b'A' c && leb c b'Z' then c + 32 else c

abbrev pub is_some : {A : Type 0} → Option A → Bool
is_some none = false
is_some (some a) = true

not_some : {A : Type 0} (o : Option A) → is_some o ≡ false → o ≡ none
not_some none h = refl
not_some (some a) h = absurd (ground arith)

events_path : is_plain_path (text "/v1/events") ≡ true
unfolding all
events_path = refl

module _ {Url : Type 0} (urls : Urls Url) where
  abbrev pub is_loopback_name : Option Text → Bool
  is_loopback_name none = false
  is_loopback_name (some host) =
      map to_ascii_lowercase host == text "localhost" || urls.is_loopback_ip host

  abbrev pub is_loopback_host : Url → Bool
  is_loopback_host url = is_loopback_name (urls.host_str url)

  abbrev pub is_refused : Url → Bool
  is_refused url =
      urls.cannot_be_a_base url
      || not (is_empty (urls.username url))
      || is_some (urls.password url)
      || is_some (urls.query url)
      || is_some (urls.fragment url)
      || not (urls.path url == [] || urls.path url == text "/")

  abbrev pub check_scheme : Url → Result OutboxWorkerConfigError Unit
  check_scheme url =
      if urls.scheme url == text "https"
      then ok tt
      else if urls.scheme url == text "http"
      then (if is_loopback_host url then ok tt else err insecure_url)
      else err invalid_url

  unfoldable pub relay_submit_url : Text → Result OutboxWorkerConfigError Url
  relay_submit_url base_url = do
    url ← ok_or (urls.parse base_url) invalid_url
    fail_if (is_refused url) invalid_url
    check_scheme url
    ok (urls.set_path (text "/v1/events") url)

  abbrev SafeScheme : Url → Type 0
  SafeScheme url =
      (urls.scheme url ≡ text "https")
      ⊎ ((urls.scheme url ≡ text "http") × (is_loopback_host url ≡ true))

  check_scheme-SafeScheme : (url : Url) {u : Unit} → check_scheme url ≡ ok u → SafeScheme url
  check_scheme-SafeScheme url h = elim (Bool-cases (urls.scheme url == text "https")) [
    | inl e ↦ inl (((list_eq {A = ℕ}).beq_iff (urls.scheme url) (text "https")).0 e)
    | inr e ↦ elim (Bool-cases (urls.scheme url == text "http")) [
      | inl k ↦ inr (((list_eq {A = ℕ}).beq_iff (urls.scheme url) (text "http")).0 k, loopback e k)
      | inr k ↦ absurd (ground arith)
    ]
  ]
    where
      loopback :
          (urls.scheme url == text "https") ≡ false
          → (urls.scheme url == text "http") ≡ true
          → is_loopback_host url ≡ true
      loopback e k = elim (Bool-cases (is_loopback_host url)) [
        | inl l ↦ l
        | inr l ↦ absurd (ground arith)
      ]

  -- An address that is accepted is the events route of an `https` server, or of an `http` one on the
  -- loopback, with no credentials and no query.
  pub relay_submit_url-safe :
      (base_url : Text) (url : Url)
      → relay_submit_url base_url ≡ ok url
      → (urls.path url ≡ text "/v1/events")
        × ((urls.scheme url ≡ text "https")
            ⊎ ((urls.scheme url ≡ text "http") × (is_loopback_host url ≡ true)))
        × (is_empty (urls.username url) ≡ true)
        × (urls.password url ≡ none)
        × (urls.query url ≡ none)
  unfolding relay_submit_url
  relay_submit_url-safe base_url url h =
      let (parsed, h₀, k₀) = >>=-eq-ok (ok_or (urls.parse base_url) invalid_url) _ h in
      let (_, h₁, k₁) = >>=-eq-ok (fail_if (is_refused parsed) invalid_url) _ k₀ in
      let (_, h₂, k₂) = >>=-eq-ok (check_scheme parsed) _ k₁ in
      let set = ap (ok_value parsed) k₂ in
      subst IsSafe set (safe_path parsed (fail_if-ok invalid_url (is_refused parsed) h₁) h₂)
    where
      IsSafe : Url → Type 0
      IsSafe url =
          (urls.path url ≡ text "/v1/events")
          × ((urls.scheme url ≡ text "https")
              ⊎ ((urls.scheme url ≡ text "http") × (is_loopback_host url ≡ true)))
          × (is_empty (urls.username url) ≡ true)
          × (urls.password url ≡ none)
          × (urls.query url ≡ none)

      safe_path :
          (parsed : Url)
          → is_refused parsed ≡ false
          → {u : Unit} → check_scheme parsed ≡ ok u
          → IsSafe (urls.set_path (text "/v1/events") parsed)
      safe_path parsed accepted h = (
        urls.path-set_path (text "/v1/events") parsed events_path (ground arith),
        rw
            (
              urls.scheme-set_path (text "/v1/events") parsed,
              urls.host_str-set_path (text "/v1/events") parsed,
            )
            (check_scheme-SafeScheme parsed h),
        ap is_empty (urls.username-set_path (text "/v1/events") parsed) ∙ ground arith,
        urls.password-set_path (text "/v1/events") parsed
            ∙ not_some (urls.password parsed) (ground arith),
        urls.query-set_path (text "/v1/events") parsed
            ∙ not_some (urls.query parsed) (ground arith),
      )

-- The response, as far as it is read: a chunk that is nothing failed to arrive.
pub record Response : Type 0 where
  pub status : ℕ
  pub content_length : Option ℕ
  pub chunks : List (Option Bytes)

abbrev pub is_too_long : Option ℕ → Bool
is_too_long none = false
is_too_long (some length) = ltb max_receipt_bytes length

-- The `while let` loop; `checked_add` fails only beyond the limit.
unfoldable pub read_chunks : List (Option Bytes) → Bytes → Result RelaySubmitError Bytes
read_chunks [] body = ok body
read_chunks (none ∷ rest) body = err invalid_response
read_chunks (some chunk ∷ rest) body =
    if ltb max_receipt_bytes (length body + length chunk)
    then err invalid_response
    else read_chunks rest (body ++ chunk)

module _ (from_slice : Bytes → Option AcceptedEvent) where
  -- `submit`, by what sending the request yields.
  unfoldable pub submit : Option Response → Result RelaySubmitError AcceptedEvent
  submit sent = do
    response ← ok_or sent unreachable
    fail_if (not (eqb response.status 202)) rejected
    fail_if (is_too_long response.content_length) invalid_response
    body ← read_chunks response.chunks []
    fail_if (is_empty body) invalid_response
    ok_or (from_slice body) invalid_response

-- The whole body, if every chunk arrives.
abbrev pub whole : List (Option Bytes) → Option Bytes
whole [] = some []
whole (none ∷ rest) = none
whole (some chunk ∷ rest) = and_then (whole rest) (λ body. some (chunk ++ body))

-- The body, bounded.
abbrev pub IsBody : List (Option Bytes) → Bytes → Bytes → Type 0
IsBody chunks before body =
    (rest : Bytes) × (whole chunks ≡ some rest)
    × (body ≡ before ++ rest)
    × (length body ≤ max_receipt_bytes)

append_assoc : (a b c : Bytes) → (a ++ b) ++ c ≡ a ++ (b ++ c)
append_assoc [] b c = refl
append_assoc (x ∷ a) b c = ap (◌∷◌ x) (append_assoc a b c)

append_nil : (a : Bytes) → a ++ [] ≡ a
append_nil [] = refl
append_nil (x ∷ a) = ap (◌∷◌ x) (append_nil a)

read_chunks-IsBody :
    (chunks : List (Option Bytes)) (before body : Bytes)
    → length before ≤ max_receipt_bytes
    → read_chunks chunks before ≡ ok body
    → IsBody chunks before body
unfolding read_chunks
read_chunks-IsBody [] before body le h = ([], refl, ground (arith, append_nil before), ground arith)
read_chunks-IsBody (none ∷ rest) before body le h = absurd (ground arith)
read_chunks-IsBody (some chunk ∷ rest) before body le h =
    elim (Bool-cases (ltb max_receipt_bytes (length before + length chunk))) [
      | inl e ↦ absurd (ground arith)
      | inr e ↦
          let (tail, k, same, small) =
            read_chunks-IsBody rest (before ++ chunk) body
              (ground (arith, length-append before chunk)) (ground arith) in
          (chunk ++ tail, rw k refl, same ∙ append_assoc before chunk tail, small)
    ]

not_empty :
    {E : Type 0} (e : E) (b : Bytes) {u : Unit} → fail_if (is_empty b) e ≡ ok u → 0 < length b
not_empty e [] h = absurd (ground arith)
not_empty e (c ∷ b) h = omega arith

-- A submission succeeds only on a response with status 202 whose body arrives whole, is not empty, is
-- within the limit, and reads as the receipt that is returned.
pub submit-parts :
    (from_slice : Bytes → Option AcceptedEvent) (response : Response) (receipt : AcceptedEvent)
    → submit from_slice (some response) ≡ ok receipt
    → (response.status ≡ 202)
      × (body : Bytes) × (whole response.chunks ≡ some body)
      × (0 < length body)
      × (length body ≤ max_receipt_bytes)
      × (from_slice body ≡ some receipt)
unfolding submit
submit-parts from_slice response receipt h =
    let (_, h₁, k₁) = >>=-eq-ok (fail_if (not (eqb response.status 202)) rejected) _ h in
    let (_, h₂, k₂) =
      >>=-eq-ok (fail_if (is_too_long response.content_length) invalid_response) _ k₁ in
    let (body, h₃, k₃) = >>=-eq-ok (read_chunks response.chunks []) _ k₂ in
    let (_, h₄, k₄) = >>=-eq-ok (fail_if (is_empty body) invalid_response) _ k₃ in
    let (rest, arrived, same, small) =
      read_chunks-IsBody response.chunks [] body (omega arith) h₃ in
    (
      ground arith,
      body,
      arrived ∙ ap some (sym same),
      not_empty invalid_response body h₄,
      small,
      ok_or-ok invalid_response (from_slice body) k₄,
    )
