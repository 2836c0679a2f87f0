-- ===== src/Pairing/Flow.antt =====
-- agent/osprey-core/src/pairing/flow.rs: the pairing exchange, from both sides, and its audit. The
-- clock's reading, serde, `snow`, the curves and the hash are parameters.
pub mod Laws
pub mod Audits
use osprey.Prelude.{
  ℕ, ◌≡◌, Bool, true, false, ◌&&◌, not, Option, none, some, List, [], Bytes, bytes_eq, as_bytes,
  String, Result, ok, err, ◌>>=◌, ◌>>◌, map_err, ok_or, refuse_if,
}
use osprey.Errors.{
  Error, handshake, transport_auth, handshake_config, unpinned_peer, truncated_frame,
  pairing_decode, pairing_encode,
}
use osprey.Noise.Framing.{Sink, Source}
use osprey.Noise.Session.{Transport, NoiseSession, send, recv}
use osprey.Noise.Handshake.{
  Snow, Pattern, Role, pairing, initiator, responder, run_initiator, run_responder,
}
use osprey.Noise.Handshake as Handshake
use osprey.Identity.{
  PublicIdentity, PinnedPeer, pin, fingerprint, matches_handshake_static, same_algorithm,
}
use osprey.Identity.Algorithm.{Curves}
use osprey.Audit.{
  PairingFailureReason, expired, replayed, handshake_rejected, psk_mismatch, bad_signature,
  static_mismatch, peer_identity_mismatch, malformed_payload, transport, AuditLog, AuditEvent,
  pairing_succeeded, pairing_failed, unpaired, UnpairInitiator, PairingContext, record_event,
}
use osprey.Pairing.Offer.{PairingOffer, is_expired, consume}

abbrev pub confirm_tag : Bytes
confirm_tag = as_bytes "osprey/pair/confirm/v1"

abbrev pub accept_tag : Bytes
accept_tag = as_bytes "osprey/pair/accept/v1"

pub record PairingOutcome (T : Type 0) : Type 0 where
  pub peer : PinnedPeer
  pub session : NoiseSession T

abbrev pub Failure : Type 0
Failure = PairingFailureReason × Error

abbrev pub Attempt : Type 0 → Type 0
Attempt A = Result Failure A

-- What this device knows of itself: its Noise private key and its public bundle.
pub record Local : Type 0 where
  pub noise_static_secret : Bytes
  pub public : PublicIdentity

-- serde's encoding of `IdentityMessage`.
pub record Codec : Type 0 where
  pub to_vec : PublicIdentity → Option Bytes
  pub from_slice : Bytes → Option PublicIdentity

-- `initiate`'s argument, as scanned. A socket address is the bytes of its host and a port.
pub record QrPayload : Type 0 where
  pub v : ℕ
  pub relay_url : String
  pub account_id : String
  pub device_id : String
  pub agent_identity : PublicIdentity
  pub lan_hints : List (Bytes × ℕ)
  pub pairing_secret : Bytes

unfoldable pub classify_handshake : Error → Failure
classify_handshake (handshake stage) = (handshake_rejected, handshake stage)
classify_handshake transport_auth = (handshake_rejected, transport_auth)
classify_handshake e = (transport, e)

unfoldable pub encode_identity : Codec → PublicIdentity → Attempt Bytes
encode_identity codec public = ok_or (malformed_payload, pairing_encode) (codec.to_vec public)

-- `==` of the derived `PartialEq`
abbrev pub same_pin : PinnedPeer → PinnedPeer → Bool
same_pin a b =
    same_algorithm a.identity_algorithm b.identity_algorithm
    && bytes_eq a.identity_pub b.identity_pub
    && bytes_eq a.noise_static_pub b.noise_static_pub
    && bytes_eq a.noise_static_sig b.noise_static_sig

unfoldable pub pin_from_handshake :
    {T : Type 0} → Curves → Codec → Bytes → NoiseSession T → Attempt PinnedPeer
pin_from_handshake curves codec message session = do
  identity ← ok_or (malformed_payload, pairing_decode) (codec.from_slice message)
  peer ← map_err (λ e. (bad_signature, e)) (pin curves identity)
  refuse_if (not (matches_handshake_static peer session.remote_static))
      (static_mismatch, unpinned_peer) (ok peer)

module _ {L T : Type 0} (log : AuditLog L) (sha256 : Bytes → Bytes) (detail : Error → String) where
  -- The log as the call leaves it: a failure that cannot be recorded leaves it as it was.
  unfoldable pub finish :
      L → PairingContext → Attempt (PairingOutcome T) → L × Result Error (PairingOutcome T)
  finish l context (ok outcome) =
      elim (record_event log l (
        pairing_succeeded context.account_id context.device_id (fingerprint sha256 outcome.peer)
          outcome.peer.noise_static_pub)) [ ok l' ↦ (l', ok outcome) | err e ↦ (l, err e) ]
  finish l context (err (reason, e)) =
      elim (record_event log l
        (pairing_failed context.account_id context.device_id reason (detail e))) [
          | ok l' ↦ (l', err e)
          | err _ ↦ (l, err e)
        ]

module _ {L : Type 0} (log : AuditLog L) (sha256 : Bytes → Bytes) where
  unfoldable pub record_unpair : L → PairingContext → PinnedPeer → UnpairInitiator → Result Error L
  record_unpair l context peer initiated_by =
      record_event log l
        (unpaired context.account_id context.device_id (fingerprint sha256 peer) initiated_by)

module _ {H T W : Type 0} (snow : Snow H T) (session_transport : Transport T) (sink : Sink W)
    (curves : Curves) (codec : Codec) where
  -- The part of `respond_inner` up to the peer's confirmation.
  unfoldable pub respond_handshake :
      Local → PairingOffer → ℕ → Source → W → Attempt (PinnedPeer × NoiseSession T × Source × W)
  unfolding pin_from_handshake encode_identity classify_handshake
  respond_handshake identity offer now source w =
      refuse_if offer.consumed (replayed, handshake_config "pairing offer already used")
        (refuse_if (is_expired offer now) (expired, handshake_config "pairing offer expired")
          do
            h ←
                map_err (λ e. (handshake_rejected, e))
                  (Handshake.new snow (record {
                    pattern = pairing;
                    role = responder;
                    local_static = identity.noise_static_secret;
                    remote_static = none;
                    psk = some offer.secret;
                  }))
            reply ← encode_identity codec identity.public
            (channel, request, source', w') ←
                map_err classify_handshake (run_responder snow sink h reply source w)
            peer ← pin_from_handshake curves codec request channel
            ok (peer, channel, source', w'))

  -- What was received in place of the confirmation; `recv`'s session keeps its other fields.
  unfoldable pub check_confirm :
      NoiseSession T → Result Error (Option Bytes × T × Source) → Attempt (NoiseSession T × Source)
  check_confirm channel received = do
    (message, state, source) ← map_err (λ e. (psk_mismatch, e)) received
    confirm ← ok_or (psk_mismatch, truncated_frame 0 2) message
    refuse_if (not (bytes_eq confirm confirm_tag))
        (malformed_payload, handshake_config "peer sent an unexpected pairing confirmation")
        (ok (record channel { state = state }, source))

  -- The rest of `respond_inner`: the offer is consumed by the confirmation, before the reply to it.
  unfoldable pub respond_confirmed :
      PairingOffer
      → PinnedPeer
      → NoiseSession T
      → W
      → Result Error (Option Bytes × T × Source)
      → PairingOffer × Attempt (PairingOutcome T)
  unfolding check_confirm consume
  respond_confirmed offer peer channel w received = elim (check_confirm channel received) [
    | err failure ↦ (offer, err failure)
    | ok (channel', _) ↦ elim (send session_transport sink channel' accept_tag w) [
      | err e ↦ (consume offer, err (transport, e))
      | ok (channel'', _) ↦ (consume offer, ok (record { peer = peer; session = channel'' }))
    ]
  ]

  -- `none` is `recv`'s fuel that ran out.
  unfoldable pub respond_inner :
      Local → PairingOffer → ℕ → Source → W → Option (PairingOffer × Attempt (PairingOutcome T))
  unfolding respond_handshake respond_confirmed
  respond_inner identity offer now source w = elim (respond_handshake identity offer now source w) [
    | err failure ↦ some (offer, err failure)
    | ok (peer, channel, source', w') ↦ elim (recv session_transport channel source') [
      | none ↦ none
      | some received ↦ some (respond_confirmed offer peer channel w' received)
    ]
  ]

  -- The part of `initiate_inner` up to the host's acceptance.
  unfoldable pub initiate_handshake :
      Local → QrPayload → Source → W → Attempt (PinnedPeer × NoiseSession T × Source × W)
  unfolding pin_from_handshake encode_identity classify_handshake
  initiate_handshake identity qr source w = do
    expected ← map_err (λ e. (bad_signature, e)) (pin curves qr.agent_identity)
    h ←
        map_err (λ e. (handshake_rejected, e))
          (Handshake.new snow (record {
            pattern = pairing;
            role = initiator;
            local_static = identity.noise_static_secret;
            remote_static = some expected.noise_static_pub;
            psk = some qr.pairing_secret;
          }))
    hello ← encode_identity codec identity.public
    (channel, response, source', w') ←
        map_err classify_handshake (run_initiator snow sink h hello source w)
    peer ← pin_from_handshake curves codec response channel
    refuse_if (not (same_pin peer expected)) (peer_identity_mismatch, unpinned_peer)
        do
          (channel', w'') ←
              map_err (λ e. (transport, e)) (send session_transport sink channel confirm_tag w')
          ok (peer, channel', source', w'')

  unfoldable pub check_accept :
      PinnedPeer
      → NoiseSession T
      → Result Error (Option Bytes × T × Source)
      → Attempt (PairingOutcome T)
  check_accept peer channel received = do
    (message, state, source) ← map_err (λ e. (transport, e)) received
    accepted ← ok_or (transport, truncated_frame 0 2) message
    refuse_if (not (bytes_eq accepted accept_tag))
        (malformed_payload, handshake_config "host sent an unexpected pairing acceptance")
        (ok (record { peer = peer; session = record channel { state = state } }))

  unfoldable pub initiate_inner :
      Local → QrPayload → Source → W → Option (Attempt (PairingOutcome T))
  unfolding initiate_handshake check_accept
  initiate_inner identity qr source w = elim (initiate_handshake identity qr source w) [
    | err failure ↦ some (err failure)
    | ok (peer, channel, source', w') ↦ elim (recv session_transport channel source') [
      | none ↦ none
      | some received ↦ some (check_accept peer channel received)
    ]
  ]

  module _ {L : Type 0} (log : AuditLog L) (sha256 : Bytes → Bytes) (detail : Error → String) where
    -- The whole of each side, with the offer and the log as it leaves them.
    unfoldable pub respond :
        Local
        → PairingOffer
        → PairingContext
        → ℕ
        → Source
        → W
        → L
        → Option (PairingOffer × L × Result Error (PairingOutcome T))
    unfolding respond_inner finish
    respond identity offer context now source w l =
        elim (respond_inner identity offer now source w) [
          | none ↦ none
          | some (offer', attempt) ↦
              let (l', result) = finish log sha256 detail l context attempt in
              some (offer', l', result)
        ]

    unfoldable pub initiate :
        Local → QrPayload → Source → W → L → Option (L × Result Error (PairingOutcome T))
    unfolding initiate_inner finish
    initiate identity qr source w l = elim (initiate_inner identity qr source w) [
      | none ↦ none
      | some attempt ↦ some (
          finish log sha256 detail l
            (record { account_id = qr.account_id; device_id = qr.device_id }) attempt)
    ]
