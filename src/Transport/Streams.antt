-- ===== src/Transport/Streams.antt =====
-- src/transports/quic.rs: the reading loop on the streams that the writing loop opened.
use chamomile.Prelude.{ℕ, Bool, leb, none, some, List, [], ◌∷◌, length, if◌then◌else◌}
use chamomile.Prelude.Bytes.{Bytes}
use chamomile.Keys.Crypto.{Crypto}
use chamomile.Wire.Endpoint.{EndpointMessage, endpoint_to_bytes}
use chamomile.Transport.Quic.{UniStream, refused, opened}

-- `SIZE_LIMIT`, the most that `read_to_end` takes
abbrev pub size_limit : ℕ
size_limit = 67108864

abbrev pub fits : Bytes → Bool
fits bytes = leb (length bytes) size_limit

-- a stream that arrives with these bytes, at a reader that takes no more than the limit
abbrev pub carried : Bytes → UniStream
carried bytes = opened (if fits bytes then some bytes else none)

-- the messages that are short enough to be read
unfoldable pub readable : List EndpointMessage → List EndpointMessage
readable [] = []
readable (m ∷ msgs) =
    let rest = readable msgs in if fits (endpoint_to_bytes m) then m ∷ rest else rest

-- the connection is closed, or breaks off with whatever comes behind
pub data IsEnd : List UniStream → Type 0 where
  closed : IsEnd []
  broken : (streams : List UniStream) → IsEnd (refused ∷ streams)
