-- ===== src/Pairing/Flow/Audits.antt =====
-- That no attempt of either side passes unaudited.
use osprey.Prelude.{
  ℕ, ◌≡◌, refl, ◌⊎◌, inl, inr, some, none, Result, Result-cases, ok, err, Bytes, String, arith,
}
use osprey.Errors.{Error, audit}
use osprey.Noise.Framing.{Sink, Source}
use osprey.Noise.Session.{Transport}
use osprey.Noise.Session.Bounds.{recv_bounded}
use osprey.Noise.Handshake.{Snow}
use osprey.Identity.{fingerprint}
use osprey.Identity.Algorithm.{Curves}
use osprey.Audit.{AuditLog, PairingContext, PairingFailureReason, pairing_succeeded, pairing_failed}
use osprey.Pairing.Offer.{PairingOffer}
use osprey.Pairing.Flow.{
  PairingOutcome, Attempt, Codec, Local, QrPayload, finish, respond_inner, respond, check_accept,
  initiate_handshake, initiate_inner, initiate,
}
use osprey.Pairing.Flow.Laws.{finish-audits, respond_inner-consumes}

module _ {H T W L : Type 0} (snow : Snow H T) (session_transport : Transport T) (sink : Sink W)
    (curves : Curves) (codec : Codec) (log : AuditLog L) (sha256 : Bytes → Bytes)
    (detail : Error → String) where
  -- What the log holds behind an attempt, and what its caller is told.
  abbrev pub Recorded :
      L → PairingContext → Attempt (PairingOutcome T) → L → Result Error (PairingOutcome T) → Type 0
  Recorded l context attempt l' result =
      ((outcome : PairingOutcome T) × (attempt ≡ ok outcome)
        × (((result ≡ ok outcome)
              × (log.append l (
                    pairing_succeeded context.account_id context.device_id
                      (fingerprint sha256 outcome.peer) outcome.peer.noise_static_pub)
                  ≡ some l'))
            ⊎ ((result ≡ err audit) × (l' ≡ l))))
      ⊎ ((reason : PairingFailureReason) × (e : Error) × (attempt ≡ err (reason, e))
          × (result ≡ err e)
          × ((log.append l (pairing_failed context.account_id context.device_id reason (detail e))
                ≡ some l')
              ⊎ ((log.append l
                      (pairing_failed context.account_id context.device_id reason (detail e))
                    ≡ none)
                  × (l' ≡ l))))

  initiate_inner-ends :
      (identity : Local) (qr : QrPayload) (source : Source) (w : W)
      → (attempt : Attempt (PairingOutcome T)) × (initiate_inner snow session_transport sink curves
            codec identity qr source w
          ≡ some attempt)
  unfolding initiate_inner
  initiate_inner-ends identity qr source w =
      elim (Result-cases
        (initiate_handshake snow session_transport sink curves codec identity qr source w)) [
          | inr (failure, e) ↦ (err failure, ground (arith, e))
          | inl ((p, c, s, w1), e) ↦
              let (received, f, _) = recv_bounded session_transport c s in
              (
                check_accept snow session_transport sink curves codec p c received,
                ground (arith, e, f),
              )
        ]

  -- Every attempt of the host to answer an offer ends, and so does every attempt of a controller to take
  -- one up, whatever the other side sends; and neither passes unaudited. An attempt that succeeds for
  -- its caller has its success in the log, with the peer's fingerprint and static; one that succeeded
  -- but could not be recorded is an error for its caller. One that failed is handed on with its own
  -- error, and its record stands in the log unless the log refused it.
  pub attempts-Recorded :
      (identity : Local) (offer : PairingOffer) (context : PairingContext) (qr : QrPayload)
      (now : ℕ) (source : Source) (w : W) (l : L)
      → ((offer' : PairingOffer) × (attempt : Attempt (PairingOutcome T)) × (l' : L)
          × (result : Result Error (PairingOutcome T)) × (respond_inner snow session_transport sink
                curves codec identity offer now source w
              ≡ some (offer', attempt))
          × (respond snow session_transport sink curves codec log sha256 detail identity offer
                context now source w l
              ≡ some (offer', l', result))
          × Recorded l context attempt l' result)
        × ((attempt : Attempt (PairingOutcome T)) × (l' : L) × (result : Result Error
              (PairingOutcome T))
            × (initiate_inner snow session_transport sink curves codec identity qr source w
                ≡ some attempt)
            × (initiate snow session_transport sink curves codec log sha256 detail identity qr
                  source w l
                ≡ some (l', result))
            × Recorded l
                (record { account_id = qr.account_id; device_id = qr.device_id })
                attempt
                l'
                result)
  unfolding respond initiate
  attempts-Recorded identity offer context qr now source w l =
      let (offer', attempt, e, _) =
        respond_inner-consumes snow session_transport sink curves codec identity offer now source
          w in
      let (l', result) = finish log sha256 detail l context attempt in
      let (attempt2, f) = initiate_inner-ends identity qr source w in
      let context2 : PairingContext = record {
        account_id = qr.account_id;
        device_id = qr.device_id;
      } in
      let (l2, result2) = finish log sha256 detail l context2 attempt2 in
      (
        (
          offer',
          attempt,
          l',
          result,
          e,
          ground (arith, e),
          finish-audits log sha256 detail l context attempt l' result refl,
        ),
        (
          attempt2,
          l2,
          result2,
          f,
          ground (arith, f),
          finish-audits log sha256 detail l context2 attempt2 l2 result2 refl,
        ),
      )
