-- ===== src/Tests/Trust.antt =====
-- Signatures, pins, pairings and revocations, at concrete inputs.
use osprey.Prelude.{
  List, ◌≤◌, ◌≡◌, refl, ◌↔◌, true, false, some, [], ◌∷◌, length, Result, ok, err, arith,
}
use osprey.Prelude.Int.{pos}
use osprey.Errors.{Error, handshake_config}
use osprey.Noise.Framing.{
  Source, ready, read_frame, read_exact_or_eof, write_frame, split_into_chunks, split_chunk_header,
}
use osprey.Noise.Session.{recv, send, send_chunks}
use osprey.Noise.Handshake.{new, run_responder}
use osprey.Wire.IdentityAlgorithm.{ed25519}
use osprey.Identity.Algorithm.{
  expected_key_len, verify_identity_signature, verify_identity_signature-Signs, Signs,
  max_signature_len,
}
use osprey.Identity.{PinnedPeer, PublicIdentity, verify, pin, accept_static, fingerprint}
use osprey.Identity.Laws.{accept_static_lem}
use osprey.Audit.{replayed, pairing_succeeded, AuditEvent}
use osprey.Pairing.Offer.{PairingOffer, is_expired, consume}
use osprey.Pairing.Flow.{
  PairingOutcome, Attempt, QrPayload, respond_inner, respond, initiate_inner, initiate, confirm_tag,
}
use osprey.Pairing.Flow.Laws.{respond_inner-pins, respond_inner-single_use}
use osprey.Pairing.Flow.Audits.{Recorded, attempts-Recorded}
use osprey.Pairing.Revoke.{Revocation, RevocationCheck, verify_revocation, IsGenuine}
use osprey.Pairing.Revoke.Laws.{verify_revocation_iff, revocation_signing_bytes-injective}
use osprey.Tests.Fixtures.{
  State, transport, sink, snow, curves, bundle, pinned, codec, here, log, context, offer, session,
  fill,
}

signed : verify_identity_signature curves ed25519 (fill 32 1) (5 ∷ []) (fill 64 7) ≡ ok tt
unfolding verify_identity_signature
signed = refl

verify_identity_signature-Signs_example :
    (length (fill 64 7) ≤ max_signature_len) × Signs curves ed25519 (fill 32 1) (5 ∷ []) (fill 64 7)
verify_identity_signature-Signs_example =
    verify_identity_signature-Signs curves ed25519 (fill 32 1) (5 ∷ []) (fill 64 7) signed

pinned_bundle : pin curves bundle ≡ ok pinned
unfolding pin verify_identity_signature expected_key_len
pinned_bundle = refl

-- The same identity with another Noise static.
abbrev rotated_bundle : PublicIdentity
rotated_bundle = record bundle { noise_static_pub = fill 32 4 }

abbrev rotated : PinnedPeer
rotated = record pinned { noise_static_pub = fill 32 4 }

rotation : accept_static curves pinned rotated_bundle ≡ ok rotated
unfolding accept_static verify_identity_signature expected_key_len
rotation = refl

accept_static_lem_example :
    (rotated_bundle.identity_algorithm ≡ pinned.identity_algorithm)
    × (rotated_bundle.identity_pub ≡ pinned.identity_pub)
    × (rotated.noise_static_pub ≡ rotated_bundle.noise_static_pub)
    × (rotated.noise_static_sig ≡ rotated_bundle.noise_static_sig)
    × (fingerprint (λ b. b) rotated ≡ fingerprint (λ b. b) pinned)
    × (verify curves rotated ≡ ok tt)
accept_static_lem_example = accept_static_lem curves (λ b. b) pinned rotated_bundle rotated rotation

abbrev revocation : Revocation
revocation = record {
  issuer_device_id = fill 16 1;
  revoked_device_id = fill 16 2;
  issued_at_ms = pos 1000000;
  nonce = fill 32 3;
  signature = fill 64 7;
}

abbrev check : RevocationCheck
check = record {
  peer = pinned;
  peer_device_id = fill 16 1;
  host_device_id = fill 16 2;
  now_ms = pos 1200000;
}

verify_revocation_iff_example :
    (verify_revocation curves revocation check ≡ ok (fill 32 3))
    ↔ (IsGenuine curves revocation check × (fill 32 3 ≡ revocation.nonce))
verify_revocation_iff_example = verify_revocation_iff curves revocation check (fill 32 3)

revocation_signing_bytes-injective_example :
    (fill 16 1 ≡ fill 16 1) × (fill 16 2 ≡ fill 16 2) × (pos 7 ≡ pos 7) × (fill 32 3 ≡ fill 32 3)
revocation_signing_bytes-injective_example =
    revocation_signing_bytes-injective (fill 16 1) (fill 16 1) (fill 16 2) (fill 16 2) (pos 7)
      (pos 7) (fill 32 3) (fill 32 3) refl refl refl refl (omega arith, omega arith)
      (omega arith, omega arith) refl

-- The first handshake message, then the confirmation in one final chunk.
abbrev controller : Source
controller = ready (0 ∷ 1 ∷ 6 ∷ []) ∷ ready (0 ∷ 23 ∷ 0 ∷ confirm_tag) ∷ []

abbrev outcome : PairingOutcome State
outcome = record { peer = pinned; session = session }

paired :
    respond_inner snow transport sink curves codec here offer 200 controller []
    ≡ some (consume offer, ok outcome)
unfolding respond_inner new run_responder read_frame read_exact_or_eof write_frame recv send
    send_chunks split_into_chunks pin verify_identity_signature is_expired expected_key_len
    split_chunk_header
paired = refl

respond_inner-pins_example :
    (offer.consumed ≡ false)
    × (is_expired offer 200 ≡ false)
    × ((consume offer).consumed ≡ true)
    × (verify curves pinned ≡ ok tt)
    × (session.remote_static ≡ pinned.noise_static_pub)
respond_inner-pins_example =
    respond_inner-pins snow transport sink curves codec here offer 200 controller [] (consume offer)
      outcome paired

respond_inner-single_use_example :
    respond_inner snow transport sink curves codec here (consume offer) 300 controller []
    ≡ some (consume offer, err (replayed, handshake_config "pairing offer already used"))
respond_inner-single_use_example =
    respond_inner-single_use snow transport sink curves codec here offer 200 controller []
      (consume offer) outcome 300 here controller [] paired

-- The code that the controller reads, and the host's answers to it.
abbrev code : QrPayload
code = record {
  v = 1;
  relay_url = "https://relay";
  account_id = "account";
  device_id = "device";
  agent_identity = bundle;
  lan_hints = [];
  pairing_secret = fill 32 3;
}

abbrev success : AuditEvent
success = pairing_succeeded "account" "device" (fingerprint (λ b. b) pinned) (fill 32 2)

host_paired :
    respond snow transport sink curves codec log
      (λ b. b)
      (λ e. "detail")
      here
      offer
      context
      200
      controller
      []
      []
    ≡ some (consume offer, success ∷ [], ok outcome)
unfolding respond is_expired new run_responder read_frame read_exact_or_eof write_frame pin
    expected_key_len verify_identity_signature recv split_chunk_header send split_into_chunks
host_paired = refl

attempts-Recorded_example :
    ((offer' : PairingOffer) × (attempt : Attempt (PairingOutcome State)) × (l' : List AuditEvent)
      × (result : Result Error (PairingOutcome State)) × (respond_inner snow transport sink curves
            codec here offer 200 controller []
          ≡ some (offer', attempt))
      × (respond snow transport sink curves codec log
            (λ b. b)
            (λ e. "detail")
            here
            offer
            context
            200
            controller
            []
            []
          ≡ some (offer', l', result))
      × Recorded snow transport sink curves codec log
          (λ b. b)
          (λ e. "detail")
          []
          context
          attempt
          l'
          result)
    × ((attempt : Attempt (PairingOutcome State)) × (l' : List AuditEvent) × (result : Result Error
          (PairingOutcome State))
        × (initiate_inner snow transport sink curves codec here code controller [] ≡ some attempt)
        × (initiate snow transport sink curves codec log
              (λ b. b)
              (λ e. "detail")
              here
              code
              controller
              []
              []
            ≡ some (l', result))
        × Recorded snow transport sink curves codec log
            (λ b. b)
            (λ e. "detail")
            []
            (record { account_id = "account"; device_id = "device" })
            attempt
            l'
            result)
attempts-Recorded_example =
    attempts-Recorded snow transport sink curves codec log (λ b. b) (λ e. "detail") here offer
      context code 200 controller [] []
