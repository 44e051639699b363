-- ===== src/Lib.antt =====
-- A model of the local network ecosystem: the mediation server that peers sign in to, the tunnels
-- and frames between peers, the topologies of their networks, and the reverse proxy.
--
-- Parts and files (paths from the repository's root):
--   Dict          Python's dict, over any key with an equality test
--   Messages      common/messages.py: control messages, JSON behind a length
--   Protocol      server/protocol.py: the checks of a message's fields; validate_* keep their names
--   Frame         common/frame.py, common/constants.py: the binary frames of the data plane. Bytes are
--                 numbers below 256 in a list; pack_frame, unpack_frame, make_*_frame keep their names.
--   Registry      server/registry.py: ClientRegistry, what the server knows of each client
--   Auth          server/auth.py: AuthSession, a challenge per client, answered by a signature
--   Networks      server/network_manager.py: NetworkManager. It writes to the registry, which is a
--                 field of its state here, so that a theorem can speak of both. Networks/Services has
--                 the services of a network, Networks/Invites its invite codes.
--   Relay         server/relay.py: RelayForwarder, frames queued for clients without a tunnel. A
--                 request for a path reads the registry and the networks.
--   Server        server/main.py: MediationServer, whose state holds those of Networks, Auth and
--                 Relay. Server/Handlers has the commands and their dispatch, Server/Daemon a
--                 connection from its first message to its end and a run of events.
--   Encryption    client/encryption.py: the key agreement and the cipher of a tunnel
--   Punch         client/nat_traversal.py: hole punching, and the classification of a NAT;
--                 Punch/Stun has the STUN messages
--   Tunnel        client/tunnel_manager.py, client/keepalive.py: the tunnels of a client, over
--                 Frame, Encryption and Punch
--   Channel       client/control_channel.py: ControlChannel, its reconnect loop, replies and events
--   Exposure      client/service_exposure.py: ServiceExposureManager, the services a client offers
--   Consumption   client/service_consumer.py: ServiceConsumer, the services a client maps to its ports
--   AdminSession  server/web/auth.py: the sessions of the admin console
--   Topology      client/topology.py: the peers that a client keeps tunnels to
--   Balancer      proxy/load_balancer.py: the choice of an upstream server
--   Health        proxy/health_check.py: the servers that are available
--   Limiter       proxy/security/rate_limiter.py: the requests that are allowed
--   BasicAuth     proxy/security/auth.py: BasicAuth, users and passwords
--   AccessControl proxy/security/access.py: the rules on addresses
--   Pool          proxy/upstream.py: the connections that are kept open
--   Websocket     proxy/websocket.py: frames and their relay; Websocket/Upgrade has the handshake
--   Cache         proxy/cache/storage.py: DiskCache; Cache/Manager and Cache/Index have
--                 proxy/cache/manager.py and proxy/cache/metadata.py
--
-- A method is a function from the state before to the state after and the result. What it writes to
-- a connection or a socket is a list that it returns. ValueError and the
-- frame errors are constructors of a result type. A set is a list without repetition, a dict an
-- association list in insertion order, a deque a list with its left end first. Time is a number of
-- ticks, and `time.time()` an argument `now`; where the source compares a difference of times with a
-- limit, the sum is compared, or the difference stops at 0, which changes no answer.
--
-- A handler of the server runs from its message to its end with no other task between, and what it
-- writes arrives. The two directions and the ping loop of a WebSocket relay run in any order, a
-- frame at a time.
--
-- Parameters, for code of other packages: `Crypto` (the RSA signature of `cryptography`), `Bcrypt`
-- (a password fits the hash made of it), `Primitives` (X25519, HKDF and AES-GCM), `Json` (what is
-- written reads back), `IpAddress`, MD5, SHA-1 and SHA-256, base64, the methods of `str` that know
-- Unicode, and the draws of `random` and `uuid`.
--
-- The eviction loop of Cache runs on fuel, a round for each entry, as each round takes one away;
-- the loop over the attributes of a STUN message has a round for each byte, and each round takes at
-- least four. Every other loop of the modelled code goes through a list or a dict.
--
-- Not modelled: the listener and the sockets of server/main.py and of the client, the asynchronous
-- polling in server/relay.py, the HTTP connections of the proxy, TLS, the TUN device,
-- configuration, logging and the pages of the web consoles.
mod Prelude
pub mod Dict
pub mod Messages
pub mod Protocol
pub mod Frame
pub mod Registry
pub mod Auth
pub mod Networks
pub mod Relay
pub mod Server
pub mod Encryption
pub mod Punch
pub mod Tunnel
pub mod Channel
pub mod Exposure
pub mod Consumption
pub mod Topology
pub mod Balancer
pub mod Health
pub mod Limiter
pub mod Pool
pub mod BasicAuth
pub mod Websocket
pub mod Cache
pub mod AccessControl
pub mod AdminSession
