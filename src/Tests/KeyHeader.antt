-- ===== src/Tests/KeyHeader.antt =====
-- The key header at concrete inputs, with a cipher that seals by a tag in front.
use singularis.Prelude.{
  zero, suc, ℕ, ◌+◌, ◌≡◌, refl, Bool, true, false, Option, none, some, [], ◌∷◌, ◌++◌, Result, ok,
  err, length, All, Bytes, text, len, arith, eqb, ltb, if◌then◌else◌, ◌&&◌, Bool-cases, inl, inr,
  ap, subst,
}
use singularis.Protocol.Message.{IsByte}
use singularis.Vault.Error.{VaultError, weak_passphrase}
use singularis.Vault.KeyHeader.{
  Ciphers, HeaderJson, Draws, KdfHeader, KeyHeader, create, unlock, open_header, header_of,
  validate_header, decode_array, derive_wrapping_key, validate_new_passphrase, in_range,
  default_memory_kib, max_memory_kib, default_iterations, max_iterations, default_lanes, max_lanes,
}
use singularis.Vault.KeyHeader.Unlock.{unlock-create, Fills}
use singularis.Vault.KeyHeader.Binding.{unlock-InBounds, InBounds}
use singularis.Vault.KeyHeader.Tampering.{unlock-Binds, Binds}
use singularis.Tests.Codec.{url_safe}
use singularis.Tests.Wire.{Wire, number, bytes, pair, via, print, parse, parse-print}

abbrev sixteen : Bytes
sixteen = 7 ∷ 7 ∷ 7 ∷ 7 ∷ 7 ∷ 7 ∷ 7 ∷ 7 ∷ 7 ∷ 7 ∷ 7 ∷ 7 ∷ 7 ∷ 7 ∷ 7 ∷ 7 ∷ []

abbrev pub are_bytes : Bytes → Bool
are_bytes [] = true
are_bytes (b ∷ bs) = ltb b 256 && are_bytes bs

abbrev is_marked : Bytes → Bool
is_marked [] = false
is_marked (b ∷ bs) = eqb b 7

abbrev drop : ℕ → Bytes → Bytes
drop zero bs = bs
drop (suc n) [] = []
drop (suc n) (b ∷ bs) = drop n bs

abbrev seal : Bytes → Bytes → Bytes → Bytes → Option Bytes
seal k n a m = if are_bytes m then some (sixteen ++ m) else none

abbrev unseal : Bytes → Bytes → Bytes → Bytes → Option Bytes
unseal k n a c = if is_marked c then some (drop 16 c) else none

seal-eq : (k n a m c : Bytes) → seal k n a m ≡ some c → (are_bytes m ≡ true) × (c ≡ sixteen ++ m)
seal-eq k n a m c h = elim (Bool-cases (are_bytes m)) [
  | inl e ↦ (e, ground arith)
  | inr e ↦ absurd (ground arith)
]

pub are_bytes-All : (m : Bytes) → are_bytes m ≡ true → All IsByte m
are_bytes-All [] h = tt
are_bytes-All (b ∷ bs) h = (ground arith, are_bytes-All bs (ground arith))

pub unseal-seal : (k n a m c : Bytes) → seal k n a m ≡ some c → unseal k n a c ≡ some m
unseal-seal k n a m c h = rw ((seal-eq k n a m c h).1) refl

pub length-seal : (k n a m c : Bytes) → seal k n a m ≡ some c → length c ≡ length m + 16
length-seal k n a m c h = rw ((seal-eq k n a m c h).1) (omega arith)

pub seal_bytes : (k n a m c : Bytes) → seal k n a m ≡ some c → All IsByte c
seal_bytes k n a m c h =
    rw ((seal-eq k n a m c h).1) (are_bytes-All (sixteen ++ m) (seal-eq k n a m c h).0)

abbrev ok_bytes : Bytes → Option Bytes → Bytes
ok_bytes d none = d
ok_bytes d (some b) = b

abbrev tagging : Ciphers
tagging = record {
  encrypt = seal;
  decrypt = unseal;
  are_params = λ m i l. true;
  hash_password = λ p salt m i l. some (sixteen ++ sixteen);
  decrypt-encrypt = unseal-seal;
  length-encrypt = length-seal;
  encrypt_bytes = seal_bytes;
  length-hash_password = λ p salt m i l k h. ground (arith, ap (ok_bytes []) h);
}

abbrev kdf_form : Wire KdfHeader
kdf_form =
    via (pair bytes (pair number (pair number (pair number (pair number bytes)))))
      (λ k. (k.algorithm, (k.version, (k.memory_kib, (k.iterations, (k.lanes, k.salt))))))
      (λ t. record {
        algorithm = t.0;
        version = t.1.0;
        memory_kib = t.1.1.0;
        iterations = t.1.1.1.0;
        lanes = t.1.1.1.1.0;
        salt = t.1.1.1.1.1;
      })
      (λ k. refl)

abbrev header_form : Wire KeyHeader
header_form =
    via (pair bytes (pair number (pair kdf_form (pair bytes bytes))))
      (λ h. (h.magic, (h.version, (h.kdf, (h.nonce, h.wrapped_key)))))
      (λ t. record {
        magic = t.0;
        version = t.1.0;
        kdf = t.1.1.0;
        nonce = t.1.1.1.0;
        wrapped_key = t.1.1.1.1;
      })
      (λ h. refl)

abbrev headers : HeaderJson
headers = record {
  to_vec_pretty = print header_form;
  from_slice = parse header_form;
  from_slice-to_vec_pretty = parse-print header_form;
}

abbrev zeros : ℕ → Bytes
zeros zero = []
zeros (suc n) = 0 ∷ zeros n

abbrev draws : Draws
draws = record { salt = some (zeros 16); nonce = some (zeros 24); data_key = some (zeros 32) }

abbrev created : Bytes × Bytes → Result VaultError (Bytes × Bytes) → Bytes × Bytes
created d (ok r) = r
created d (err e) = d

abbrev made : Bytes × Bytes
made = created ([], []) (create tagging url_safe headers draws (text "correct horse"))

creates : create tagging url_safe headers draws (text "correct horse") ≡ ok (made.0, zeros 32)
unfolding create validate_new_passphrase derive_wrapping_key url_safe len
creates = refl

zeros-Fills : (n : ℕ) → (length (zeros n) ≡ n) × All IsByte (zeros n)
zeros-Fills zero = (refl, tt)
zeros-Fills (suc n) = let (size, small) = zeros-Fills n in (omega arith, (omega arith, small))

Fills-zeros : (n : ℕ) → Fills n (some (zeros n))
Fills-zeros n b h = subst (λ x. (length x ≡ n) × All IsByte x) (ap (ok_bytes []) h) (zeros-Fills n)

too_short : create tagging url_safe headers draws (text "short") ≡ err weak_passphrase
unfolding create validate_new_passphrase
too_short = refl

unlock-create_example :
    unlock tagging url_safe headers made.0 (text "correct horse") ≡ ok (zeros 32)
unlock-create_example =
    unlock-create tagging url_safe headers draws (text "correct horse") made.0 (zeros 32)
      (Fills-zeros 16) (Fills-zeros 24) (Fills-zeros 32) creates

abbrev made_header : KeyHeader
made_header = header_of url_safe (zeros 16) (zeros 24) (sixteen ++ zeros 32)

-- The header with another number of iterations, which the cipher of the tests does not notice.
abbrev tampered : KeyHeader
tampered = record made_header { kdf = record made_header.kdf { iterations = 4 } }

abbrev written : Option Bytes → Bytes
written none = []
written (some b) = b

abbrev tampered_bytes : Bytes
tampered_bytes = written (print header_form tampered)

reads_made : headers.from_slice made.0 ≡ some made_header
unfolding create validate_new_passphrase derive_wrapping_key url_safe len
reads_made = refl

reads_tampered : headers.from_slice tampered_bytes ≡ some tampered
unfolding url_safe
reads_tampered = refl

opens_tampered :
    unlock tagging url_safe headers tampered_bytes (text "some password") ≡ ok (zeros 32)
unfolding unlock open_header validate_header decode_array derive_wrapping_key url_safe len
opens_tampered = refl

unlock-Binds_example : Binds tagging url_safe headers (zeros 32) tampered made_header
unlock-Binds_example =
    unlock-Binds tagging url_safe headers draws (text "correct horse") made.0 (zeros 32) made_header
      tampered_bytes tampered (text "some password") (zeros 32) creates reads_made reads_tampered
      refl opens_tampered

-- A key derivation that knows parameters up to the bounds only.
abbrev bounded_params : ℕ → ℕ → ℕ → Bool
bounded_params m i l =
    in_range default_memory_kib max_memory_kib m
    && in_range default_iterations max_iterations i
    && in_range default_lanes max_lanes l

abbrev bounded : Ciphers
bounded = record tagging { are_params = bounded_params }

bounded_params-true : (m i l : ℕ) → InBounds m i l → true ≡ bounded_params m i l
bounded_params-true m i l ((a, b), (c, d), (e, f)) = ground arith

unlock-InBounds_example :
    unlock tagging url_safe headers made.0 (text "correct horse")
    ≡ unlock bounded url_safe headers made.0 (text "correct horse")
unlock-InBounds_example =
    unlock-InBounds url_safe headers tagging bounded (λ k n a c. refl) bounded_params-true
      (λ p salt m i l short size within. refl) made.0 (text "correct horse")
