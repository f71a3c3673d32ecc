-- ===== src/Socks/Tests.antt =====
-- A client that asks for 10.0.0.1:443.
use ztunnel.Common.{ℕ, ◌≡◌, refl, true, List, [], ◌∷◌, ◌++◌, Option, none, String}
use ztunnel.Common.Outcome.{ok}
use ztunnel.Net.{v4}
use ztunnel.Socks.{negotiate_socks_connection}
use ztunnel.Socks.Reads.{to_v4, written_greeting, written_request, negotiate-written}

abbrev from_utf8 : List ℕ → Option String
from_utf8 bytes = none

abbrev client_address : List ℕ
client_address = 10 ∷ 0 ∷ 0 ∷ 1 ∷ []

negotiate-written_example :
    negotiate_socks_connection from_utf8 none true (
      written_greeting (2 ∷ 0 ∷ [])
      ++ written_request from_utf8 none 0 (to_v4 client_address) 1 187 (9 ∷ []))
    ≡ ok (record { ip = v4 167772161; port = 443 }, 9 ∷ [])
negotiate-written_example =
    negotiate-written from_utf8 none (2 ∷ 0 ∷ []) 0 (to_v4 client_address) 1 187 (9 ∷ []) refl refl
