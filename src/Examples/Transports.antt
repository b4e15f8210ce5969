-- ===== src/Examples/Transports.antt =====
-- A connection over TCP that carries a handshake and a message, and one that breaks off.
use chamomile.Keys.Keypair.{keypair_to_bytes}
use chamomile.Types.Socket.{socket_addr_to_bytes, ip_octets}
use chamomile.Types.Ids.{id_to_bytes}
use chamomile.Types.Peer.{peer_to_bytes}
use chamomile.Prelude.{◌+◌, ◌<◌, ◌^◌, none, [], ◌∷◌, ◌++◌, map, length, ◌≡◌, ◌≢◌, refl, arith}
use chamomile.Prelude.Bytes.{to_be_bytes, to_le_bytes, from_be_bytes}
use chamomile.Wire.Endpoint.{EndpointMessage, endpoint_to_bytes, remote_to_bytes}
use chamomile.Transport.Stream.{written, is_close, to_session, to_server, hand_over}
use chamomile.Transport.Tcp.{
  arrived, Stream, unread, length_of, left, spinning, out_of_fuel, read_loop, process_stream,
  frames,
}
use chamomile.Transport.Framing.{Carries, Arrives, head_of, bytes_of, process_stream-frames}
use chamomile.Transport.Streams.{readable}
use chamomile.Transport.Ending.{size, read_loop_ends, read_loop_spins}
use chamomile.Examples.{toy, socket_of}
use chamomile.Examples.Coding.{remote, remote-IsRemote, remote_short}

abbrev hello : EndpointMessage
hello = EndpointMessage.handshake remote

abbrev note : EndpointMessage
note = EndpointMessage.core (1 ∷ 2 ∷ 3 ∷ [])

-- the message comes in two pieces, its length together with the handshake
abbrev wire : Stream
wire =
    arrived (head_of hello ++ [])
    ∷ arrived (endpoint_to_bytes hello ++ (head_of note ++ []))
    ∷ arrived (5 ∷ 1 ∷ [])
    ∷ arrived (2 ∷ 3 ∷ [])
    ∷ []

note-Arrives :
    Arrives
      (note ∷ [])
      (arrived (head_of note ++ []) ∷ arrived (5 ∷ 1 ∷ []) ∷ arrived (2 ∷ 3 ∷ []) ∷ [])
unfolding unread endpoint_to_bytes
note-Arrives =
    Arrives.next note []
      (Carries.piece (5 ∷ 1 ∷ []) (2 ∷ 3 ∷ []) (omega arith) (Carries.last (2 ∷ 3 ∷ []) [] []))
      Arrives.nothing

arrives : Arrives (hello ∷ note ∷ []) wire
unfolding unread to_be_bytes to_le_bytes
arrives =
    Arrives.next hello []
      (Carries.last (endpoint_to_bytes hello) (head_of note ++ [])
        (arrived (5 ∷ 1 ∷ []) ∷ arrived (2 ∷ 3 ∷ []) ∷ []))
      note-Arrives

hello_short : length (endpoint_to_bytes hello) < 2 ^ 32
unfolding endpoint_to_bytes to_be_bytes remote_to_bytes peer_to_bytes id_to_bytes
    socket_addr_to_bytes ip_octets keypair_to_bytes
hello_short = omega arith

note_short : length (endpoint_to_bytes note) < 2 ^ 32
unfolding endpoint_to_bytes
note_short = omega arith

process_stream-frames_example :
    (bytes_of wire ≡ frames (hello ∷ note ∷ []))
    × (process_stream toy wire (to_server 40 41) (socket_of 4) 42 none 3 ≡ (
      hand_over (to_server 40 41) (socket_of 4) 42 none remote
          ∷ map to_session (note ∷ EndpointMessage.close ∷ []),
      left,
    ))
process_stream-frames_example =
    process_stream-frames toy remote (note ∷ []) wire (to_server 40 41) (socket_of 4) 42 none 3
      arrives (((remote-IsRemote, remote_short), hello_short), ((tt, note_short), tt)) (omega arith)

-- two bytes of a body of five
abbrev cut : Stream
cut = arrived ((0 ∷ 0 ∷ 0 ∷ 5 ∷ []) ++ 5 ∷ []) ∷ arrived (1 ∷ []) ∷ []

cut-size : size cut < 9
unfolding size
cut-size = omega arith

read_loop_ends_example : (read_loop toy 9 cut).1 ≢ out_of_fuel
read_loop_ends_example = read_loop_ends toy cut 9 cut-size

cut_short : 1 + length (bytes_of (arrived (1 ∷ []) ∷ [])) < length_of (0 ∷ 0 ∷ 0 ∷ 5 ∷ [])
unfolding length_of bytes_of from_be_bytes
cut_short = omega arith

read_loop_spins_example : read_loop toy 9 cut ≡ ([], spinning)
read_loop_spins_example =
    read_loop_spins toy (0 ∷ 0 ∷ 0 ∷ 5 ∷ []) (5 ∷ []) (arrived (1 ∷ []) ∷ []) 8 refl (tt, tt)
      cut_short

-- what of it is read
read_note :
    readable (written (note ∷ EndpointMessage.close ∷ note ∷ []))
    ≡ note ∷ EndpointMessage.close ∷ []
unfolding readable written endpoint_to_bytes is_close
read_note = refl
