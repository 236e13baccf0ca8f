-- ===== src/Tests/Protocol.antt =====
-- The wire types at concrete inputs.
use singularis.Prelude.{◌≡◌, refl, [], ◌∷◌, text, ok, err}
use singularis.Protocol.Ttl.{try_from}
use singularis.Prelude.{len, ◌↔◌, All, Bytes}
use singularis.Protocol.Message.{
  OpaqueMlsMessage, IsByte, from_bytes, from_encoded, from_encoded_iff, empty, invalid_encoding,
}
use singularis.Tests.Codec.{url_safe}

too_short : try_from 299 ≡ err (record { received = 299 })
unfolding try_from
too_short = refl

beyond_u32 : try_from (5_000_000_000) ≡ err (record { received = 5_000_000_000 })
unfolding try_from
beyond_u32 = refl

abbrev greeting : Bytes
greeting = 72 ∷ 105 ∷ []

abbrev greeting_message : OpaqueMlsMessage
greeting_message = record { encoded = text "SGk" }

encodes : from_bytes url_safe greeting ≡ ok greeting_message
unfolding from_bytes url_safe
encodes = refl

from_encoded_iff_example : (from_encoded url_safe (text "SGk") ≡ ok greeting_message) ↔ (
    (b : Bytes) × All IsByte b
    × (from_bytes url_safe b ≡ ok greeting_message)
    × (greeting_message.encoded ≡ text "SGk"))
from_encoded_iff_example = from_encoded_iff url_safe (text "SGk") greeting_message

-- Trailing bits that no encoder writes, a character outside the alphabet, and nothing at all.
not_canonical : from_encoded url_safe (text "SGl") ≡ err invalid_encoding
unfolding from_encoded url_safe len
not_canonical = refl

not_base64 : from_encoded url_safe (text "not+base64") ≡ err invalid_encoding
unfolding from_encoded url_safe len
not_base64 = refl

nothing : from_encoded url_safe [] ≡ err empty
unfolding from_encoded
nothing = refl
