-- ===== src/Transport.antt =====
-- core/src/transport.rs: the QUIC endpoint and its connections. `quinn`, `rustls` and `rcgen` are a
-- record of their types and calls; a call that fails gives nothing. A stream that is opened shows the
-- bytes that the peer sends on it.
use zao_p2p.Prelude.{ℕ, String, Option, none, some, List, [], ◌∷◌}
use zao_p2p.Prelude.Bytes.{Bytes}
use zao_p2p.CoreError.{Result, ok, err, ◌>>=◌, ok_or, invalid_state, crypto}

-- What a verifier of `rustls` answers: the three questions that the source answers itself.
pub record ServerCertVerifier (Certificate Signature : Type 0) : Type 0 where
  pub verify_server_cert : Certificate → List Certificate → String → ℕ → Result (Unit {0})
  pub verify_tls12_signature : Bytes → Certificate → Signature → Result (Unit {0})
  pub verify_tls13_signature : Bytes → Certificate → Signature → Result (Unit {0})

pub record Quinn : Type 1 where
  pub SocketAddr : Type 0
  pub Endpoint : Type 0
  pub Connecting : Type 0
  pub Incoming : Type 0
  pub Connection : Type 0
  pub CertifiedKey : Type 0
  pub Certificate : Type 0
  pub PrivateKey : Type 0
  pub Signature : Type 0
  pub ServerConfig : Type 0
  pub QuicClientConfig : Type 0
  -- `str::parse`, `to_string`, `port`
  pub parse_addr : String → Option SocketAddr
  pub addr_text : SocketAddr → String
  pub port : SocketAddr → ℕ
  -- `rcgen`
  pub generate_simple_self_signed : List String → Option CertifiedKey
  pub cert : CertifiedKey → Certificate
  pub der : Certificate → Bytes
  pub serialize_der : CertifiedKey → Bytes
  -- `rustls` and `quinn`
  pub private_key : Bytes → Option PrivateKey
  pub with_single_cert : List Certificate → PrivateKey → Option ServerConfig
  pub client_config :
      ServerCertVerifier Certificate Signature → List String → Option QuicClientConfig
  pub server : ServerConfig → SocketAddr → Option Endpoint
  pub set_default_client_config : Endpoint → QuicClientConfig → Endpoint
  pub local_addr : Endpoint → Option SocketAddr
  pub connect : Endpoint → SocketAddr → String → Option Connecting
  pub connected : Connecting → Option Connection
  -- `accept` gives nothing once the endpoint is closed.
  pub accept : Endpoint → Option Incoming
  pub accepted : Incoming → Option Connection
  pub open_bi : Connection → Option Bytes
  pub accept_bi : Connection → Option Bytes

module _ (q : Quinn) where
  pub record QuicTransport : Type 0 where
    pub endpoint : q.Endpoint
    pub local_addr : q.SocketAddr

module _ (q : Quinn) where
  -- The configuration, and the certificate.
  unfoldable pub build_self_signed_server_config : Result (q.ServerConfig × Bytes)
  build_self_signed_server_config = do
    cert ← ok_or (q.generate_simple_self_signed ("zaop2p.local" ∷ [])) (crypto "cert gen failed")
    priv_key ← ok_or (q.private_key (q.serialize_der cert)) (crypto "key parse failed")
    server_config ←
        ok_or (q.with_single_cert (q.cert cert ∷ []) priv_key) (crypto "server config failed")
    ok (server_config, q.der (q.cert cert))

  -- Every certificate and every signature is taken.
  unfoldable pub skip_server_verification : ServerCertVerifier q.Certificate q.Signature
  skip_server_verification = record {
    verify_server_cert = λ end_entity intermediates server_name now. ok tt;
    verify_tls12_signature = λ message cert dss. ok tt;
    verify_tls13_signature = λ message cert dss. ok tt;
  }

  unfoldable pub build_insecure_client_config : Result q.QuicClientConfig
  unfolding skip_server_verification
  build_insecure_client_config =
      ok_or (q.client_config skip_server_verification ("zaop2p" ∷ []))
        (crypto "quic client config failed")

  unfoldable pub bind : String → Result (QuicTransport q)
  unfolding build_self_signed_server_config build_insecure_client_config
  bind bind_addr = do
    addr ← ok_or (q.parse_addr bind_addr) (invalid_state "invalid bind addr")
    (server_config, cert_der) ← build_self_signed_server_config
    endpoint ← ok_or (q.server server_config addr) (invalid_state "quic endpoint bind failed")
    config ← build_insecure_client_config
    local_addr ←
        ok_or (q.local_addr (q.set_default_client_config endpoint config))
          (invalid_state "could not read local addr")
    ok (record { endpoint = q.set_default_client_config endpoint config; local_addr = local_addr })

  unfoldable pub connect : QuicTransport q → q.SocketAddr → String → Result q.Connection
  connect t addr peer_device_id = do
    connecting ←
        ok_or (q.connect t.endpoint addr peer_device_id) (invalid_state "quic connect setup failed")
    ok_or (q.connected connecting) (invalid_state "quic connect failed")

  unfoldable pub accept : QuicTransport q → Option (Result q.Connection)
  accept t = elim (q.accept t.endpoint) [
    | none ↦ none
    | some incoming ↦ some (ok_or (q.accepted incoming) (invalid_state "quic accept failed"))
  ]

  unfoldable pub open_stream : q.Connection → Result Bytes
  open_stream conn = ok_or (q.open_bi conn) (invalid_state "failed to open stream")

  unfoldable pub accept_stream : q.Connection → Result Bytes
  accept_stream conn = ok_or (q.accept_bi conn) (invalid_state "failed to accept stream")

  -- What a dial of the manager makes of an address: an error, or the stream that it opens.
  unfoldable pub dialled : QuicTransport q → q.SocketAddr → String → Result Bytes
  unfolding connect open_stream
  dialled t addr expected_device_id = do conn ← connect t addr expected_device_id; open_stream conn

  -- The same of the text of one; `none` is a text that does not parse.
  unfoldable pub dialled_text : QuicTransport q → String → String → Option (Result Bytes)
  unfolding dialled
  dialled_text t addr expected_device_id = elim (q.parse_addr addr) [
    | none ↦ none
    | some socket_addr ↦ some (dialled t socket_addr expected_device_id)
  ]

  -- What the loop of the manager sees of a connection.
  unfoldable pub answered : Result q.Connection → Result (Result Bytes)
  unfolding accept_stream
  answered (err e) = err e
  answered (ok conn) = ok (accept_stream conn)

  -- What starting the session reads of the transport.
  unfoldable pub bound_at : Result (QuicTransport q) → Result (String × ℕ)
  bound_at bound = do t ← bound; ok (q.addr_text t.local_addr, q.port t.local_addr)
