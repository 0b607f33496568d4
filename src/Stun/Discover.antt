-- ===== src/Stun/Discover.antt =====
-- `discover_public_address` and `query_stun_server`. Name resolution and the datagram exchange with
-- its timeout are the network's: parameters.
use zao_p2p.Prelude.{◌≡◌, String, Option, none, some, List, [], ◌∷◌, take}
use zao_p2p.Prelude.Bytes.{Bytes}
use zao_p2p.CoreError.{CoreError, Result, ok, err, invalid_state, ok_or, ◌>>=◌}
use native.Mathlib.Omega.{arith}
use zao_p2p.Stun.{SocketAddr, build_binding_request, parse_binding_response}

abbrev pub default_stun_servers : List String
default_stun_servers = "stun.l.google.com:19302" ∷ ("stun1.l.google.com:19302" ∷ [])

-- What the network does for one query: the addresses of a name, and the datagram that comes back
-- within three seconds, or why there is none.
pub record Network : Type 0 where
  pub lookup_host : String → Result (List SocketAddr)
  pub exchange : SocketAddr → Bytes → Result Bytes

first_address : List SocketAddr → Option SocketAddr
first_address [] = none
first_address (a ∷ as') = some a

-- A datagram is cut at the 512 bytes of the buffer.
unfoldable pub query_stun_server : Network → Bytes → String → Result SocketAddr
unfolding first_address
query_stun_server net transaction_id server = do
  addrs ← net.lookup_host server
  server_addr ← ok_or (first_address addrs) (invalid_state "no address resolved")
  datagram ← net.exchange server_addr (build_binding_request transaction_id)
  parse_binding_response (take 512 datagram) transaction_id

-- The loop over the servers, with the transaction id that each query draws.
try_servers : (String → Result SocketAddr) → List String → CoreError → Result SocketAddr
try_servers query [] last_error = err last_error
try_servers query (server ∷ servers) last_error = elim (query server) [
  | ok addr ↦ ok addr
  | err e ↦ try_servers query servers e
]

unfoldable pub discover_public_address : (String → Result SocketAddr) → Result SocketAddr
unfolding try_servers
discover_public_address query =
    try_servers query default_stun_servers (invalid_state "no STUN servers configured")

-- The first server that answers gives the address; if none does, the error is the last server's.
pub discover_public_address_lem :
    (query : String → Result SocketAddr)
    → discover_public_address query ≡ elim (query "stun.l.google.com:19302") [
      | ok addr ↦ ok addr
      | err e ↦ query "stun1.l.google.com:19302"
    ]
unfolding discover_public_address
discover_public_address_lem query = ground arith
