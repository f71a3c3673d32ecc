-- ===== src/Capsule/Tests.antt =====
-- Varints and datagrams at concrete bytes.
use ztunnel.Common.{ℕ, ◌≡◌, ◌≤◌, refl, List, [], ◌∷◌, some, arith, length, All}
use ztunnel.Common.Outcome.{ok}
use ztunnel.Capsule.{encode_varint, encode_datagram_into, max_datagram_size, new, push}
use ztunnel.Capsule.{Decoder, drain}
use ztunnel.Capsule.Fuel.{drain-enough}
use ztunnel.Capsule.Datagrams.{encode_all, push-encode_all}

two_bytes : encode_varint 300 ≡ ok (65 ∷ 44 ∷ [])
unfolding encode_varint
two_bytes = refl

datagram : encode_datagram_into (7 ∷ 8 ∷ []) ≡ ok (0 ∷ 3 ∷ 0 ∷ 7 ∷ 8 ∷ [])
unfolding encode_datagram_into encode_varint
datagram = refl

abbrev payloads : List (List ℕ)
payloads = (7 ∷ 8 ∷ []) ∷ [] ∷ (1 ∷ []) ∷ []

payloads_small : All (λ p. length p ≤ max_datagram_size) payloads
payloads_small = ground arith

push-encode_all_example :
    (bytes : List ℕ) × (encode_all payloads ≡ ok bytes) × (push bytes new ≡ (new, some payloads))
push-encode_all_example = push-encode_all payloads payloads_small

abbrev partial : Decoder
partial = record { buffer = 0 ∷ 2 ∷ 0 ∷ 7 ∷ 0 ∷ []; skip_remaining = 0; dropped_oversized = 0 }

drain-enough_example : drain 5 partial ≡ drain 50 partial
drain-enough_example = drain-enough 5 50 partial (omega arith) (omega arith)
