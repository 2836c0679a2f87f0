-- ===== src/Host/Run/Admission.antt =====
-- Whom a session is served to.
use osprey.Prelude.{
  ℕ, get_elem?, ◌≡◌, refl, Bool, true, Option, none, Bool-cases, Result-cases, inl, inr, List, some,
  Bytes, ok, String, arith,
}
use osprey.Wire.Bodies.{HelloBody}
use osprey.Wire.Envelope.{Serde}
use osprey.Identity.{PinnedPeer}
use osprey.Identity.Algorithm.{Curves}
use osprey.Audit.{AuditLog, PairingContext}
use osprey.Noise.Framing.{Sink, Source}
use osprey.Noise.Session.{Transport, NoiseSession}
use osprey.Noise.Handshake.{Snow}
use osprey.Channel.{accept, accept-allowed}
use osprey.State.Store.{PairedPeer, Fs, Json, read_peers}
use osprey.Host.Registry.{Sockets}
use osprey.Host.Session.{SessionConfig, EnvelopeJson}
use osprey.Host.Session.Dispatch.{MetricsEngine, Texts}
use osprey.Host.Session.Serve.{Served}
use osprey.Host.Session.Unpaired.{Reach}
use osprey.Host.Run.{still_pinned, Visit, serve_registered, serve_accepted, serve_one, enter}

module _ {D L S N Value C T W M Sub : Type 0} (snow : Snow C T) (transport : Transport T)
    (sink : Sink W) (curves : Curves) (json : Json) (fs : Fs D) (log : AuditLog L)
    (sockets : Sockets S N) (sha256 hex : Bytes → Bytes) (serde : Serde Value)
    (envelopes : EnvelopeJson Value) (engine : MetricsEngine M Sub) (texts : Texts)
    (ranges : HelloBody → String) (config : SessionConfig) (context : PairingContext)
    (local_static : Bytes) (during between : Reach D L S N → Reach D L S N)
    (visit : Visit M (Reach D L S N)) (pins : List PinnedPeer) (timeouts : Bool)
    (duplicate : Option S) (source : Source) (w : W) (host : Reach D L S N) where
  -- The peer is one that the connection was accepted against, its handshake authenticated the static of
  -- that pin, and the pin stood in the store once the session was registered.
  abbrev pub Admitted : Type 0
  Admitted =
      (peer : PinnedPeer) × (socket : S) × (duplicate ≡ some socket)
      × (session : NoiseSession T) × (source' : Source) × (w' : W) × (accept snow sink local_static
            pins source w
          ≡ ok (peer, session, source', w'))
      × (session.remote_static ≡ peer.noise_static_pub)
      × ((i : ℕ) × (get_elem? pins i ≡ some peer))
      × (current : List PairedPeer) × (read_peers curves json fs
            (between ((enter sha256 peer socket (during host)).1)).disk
          ≡ ok current)
      × (still_pinned peer current ≡ true)

  -- A connection whose session is served, and ends as it should, belongs to a peer that the host trusted
  -- twice: when the connection was accepted, with the handshake authenticating the static of that
  -- pin, and again in the store on disk after the session had been registered, whatever others did to
  -- the host during the handshake and before that second look.
  pub serve_one-Admitted :
      (host' : Reach D L S N) (served : Served T W M Sub)
      → serve_one snow transport sink curves json fs log sockets sha256 hex serde envelopes engine
          texts ranges config context local_static during between visit pins timeouts duplicate
          source w host
        ≡ some (host', ok served)
      → Admitted
  unfolding serve_one
  serve_one-Admitted host' served h = elim (Bool-cases timeouts) [
    | inr e ↦ absurd (ground (arith, e))
    | inl e ↦ elim (Result-cases (accept snow sink local_static pins source w)) [
      | inr (x, c) ↦ absurd (ground (arith, e, c))
      | inl ((peer, session, source', w'), c) ↦
          by_socket peer session source' w' c duplicate refl (ground (arith, e, c, h))
    ]
  ]
    where
      by_store :
          (peer : PinnedPeer) (session : NoiseSession T) (source' : Source) (w' : W) (id : ℕ)
          (found : Reach D L S N)
          → serve_registered snow transport sink curves json fs log sockets sha256 hex serde
              envelopes engine texts ranges config context local_static visit id peer session
              source' w' found
            ≡ some (host', ok served)
          → (current : List PairedPeer) × (read_peers curves json fs found.disk ≡ ok current)
            × (still_pinned peer current ≡ true)
      by_store peer session source' w' id found g =
          unfold serve_registered in
          elim (Result-cases (read_peers curves json fs found.disk)) [
            | inr (e, r) ↦ absurd (ground (arith, r))
            | inl (current, r) ↦ elim (Bool-cases (still_pinned peer current)) [
              | inl t ↦ (current, r, t)
              | inr f ↦ absurd (ground (arith, r, f))
            ]
          ]

      by_socket :
          (peer : PinnedPeer) (session : NoiseSession T) (source' : Source) (w' : W)
          → accept snow sink local_static pins source w ≡ ok (peer, session, source', w')
          → (handle : Option S) → duplicate ≡ handle
          → serve_accepted snow transport sink curves json fs log sockets sha256 hex serde envelopes
              engine texts ranges config context local_static between visit peer session handle
              source' w'
              (during host)
            ≡ some (host', ok served)
          → Admitted
      by_socket peer session source' w' c none d g = absurd (ground arith)
      by_socket peer session source' w' c (some socket) d g =
          let (static, i, at) =
            accept-allowed snow sink local_static pins source w peer session source' w' c in
          let (current, read, stands) =
            by_store peer session source' w' ((enter sha256 peer socket (during host)).0)
              (between ((enter sha256 peer socket (during host)).1)) g in
          (peer, socket, d, session, source', w', c, static, (i, at), current, read, stands)
