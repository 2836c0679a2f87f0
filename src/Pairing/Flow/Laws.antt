-- ===== src/Pairing/Flow/Laws.antt =====
-- What a completed pairing has checked, that an offer is used once, and that every attempt is audited.
use osprey.Prelude.{
  ℕ, ◌≡◌, refl, sym, ap, ◌∙◌, true, false, ◌⊎◌, inl, inr, not, Option, some, none, Option-cases,
  Bytes, bytes_eq, eq_of_bytes_eq, String, Result, ok, err, Result-cases, map_err, ok_or,
  refuse_if_ok, bind_ok, map_err_ok, arith,
}
use osprey.Errors.{Error, handshake_config, unpinned_peer, pairing_decode, audit}
use osprey.Noise.Framing.{Sink, Source}
use osprey.Noise.Session.{Transport, NoiseSession, send, recv}
use osprey.Noise.Session.Bounds.{send-remote_static, recv_bounded}
use osprey.Noise.Handshake.{Snow, pairing, responder, run_responder}
use osprey.Noise.Handshake as Handshake
use osprey.Identity.{PinnedPeer, pin, verify, fingerprint, matches_handshake_static}
use osprey.Identity.Laws.{pin-verify}
use osprey.Identity.Algorithm.{Curves}
use osprey.Audit.{
  AuditLog, PairingContext, PairingFailureReason, bad_signature, static_mismatch, replayed,
  transport, expired, handshake_rejected, malformed_payload, pairing_succeeded, pairing_failed,
}
use osprey.Pairing.Offer.{PairingOffer, is_expired, consume}
use osprey.Pairing.Flow.{
  PairingOutcome, Attempt, Codec, Local, finish, pin_from_handshake, respond_handshake,
  check_confirm, respond_confirmed, respond_inner, encode_identity, classify_handshake, confirm_tag,
  accept_tag,
}

module _ {T : Type 0} (curves : Curves) (codec : Codec) where
  pin_from_handshake_ok :
      (message : Bytes) (channel : NoiseSession T) (peer : PinnedPeer)
      → pin_from_handshake curves codec message channel ≡ ok peer
      → (verify curves peer ≡ ok tt) × (channel.remote_static ≡ peer.noise_static_pub)
  unfolding pin_from_handshake
  pin_from_handshake_ok message channel peer h =
      let (identity, _, h1) =
        bind_ok (ok_or (malformed_payload, pairing_decode) (codec.from_slice message)) _ peer h in
      let (p, e, h2) =
        bind_ok (map_err (λ e. (bad_signature, e)) (pin curves identity)) _ peer h1 in
      let (matches, h3) =
        refuse_if_ok (not (matches_handshake_static p channel.remote_static))
          (static_mismatch, unpinned_peer) _ peer h2 in
      let same : p ≡ peer = ground (arith, h3) in
      let checked = pin-verify curves identity p (map_err_ok _ (pin curves identity) p e) in
      let static =
        eq_of_bytes_eq channel.remote_static p.noise_static_pub (ground (arith, matches)) in
      (ap (verify curves) (sym same) ∙ checked, static ∙ ap PinnedPeer.noise_static_pub same)

module _ {H T W : Type 0} (snow : Snow H T) (session_transport : Transport T) (sink : Sink W)
    (curves : Curves) (codec : Codec) (identity : Local) (offer : PairingOffer) where
  respond_handshake_ok :
      (now : ℕ) (source : Source) (w : W) (peer : PinnedPeer) (channel : NoiseSession T)
      (source' : Source) (w' : W)
      → respond_handshake snow session_transport sink curves codec identity offer now source w
        ≡ ok (peer, channel, source', w')
      → (offer.consumed ≡ false)
        × (is_expired offer now ≡ false)
        × (verify curves peer ≡ ok tt)
        × (channel.remote_static ≡ peer.noise_static_pub)
  unfolding respond_handshake
  respond_handshake_ok now source w peer channel source' w' h =
      let (unused, h1) =
        refuse_if_ok offer.consumed (replayed, handshake_config "pairing offer already used") _ _
          h in
      let (fresh, h2) =
        refuse_if_ok (is_expired offer now) (expired, handshake_config "pairing offer expired") _ _
          h1 in
      let (s0, _, h3) =
        bind_ok
          (map_err (λ e. (handshake_rejected, e))
            (Handshake.new snow (record {
              pattern = pairing;
              role = responder;
              local_static = identity.noise_static_secret;
              remote_static = none;
              psk = some offer.secret;
            })))
          _ _ h2 in
      let (reply, _, h4) = bind_ok (encode_identity codec identity.public) _ _ h3 in
      let ((c, request, s1, w1), _, h5) =
        bind_ok (map_err classify_handshake (run_responder snow sink s0 reply source w)) _ _ h4 in
      let (p, e, h6) = bind_ok (pin_from_handshake curves codec request c) _ _ h5 in
      let (checked, static) = pin_from_handshake_ok curves codec request c p e in
      let same : p ≡ peer = ground (arith, h6) in
      let same_channel : c ≡ channel = ground (arith, h6) in
      (
        unused,
        fresh,
        ap (verify curves) (sym same) ∙ checked,
        ap NoiseSession.remote_static (sym same_channel)
            ∙ static
            ∙ ap PinnedPeer.noise_static_pub same,
      )

  check_confirm_ok :
      (channel : NoiseSession T) (received : Result Error (Option Bytes × T × Source))
      (channel' : NoiseSession T) (source : Source)
      → check_confirm snow session_transport sink curves codec channel received
        ≡ ok (channel', source)
      → (channel'.remote_static ≡ channel.remote_static)
        × (state : T) × (rest : Source) × (received ≡ ok (some confirm_tag, state, rest))
  unfolding check_confirm
  check_confirm_ok channel (err e) channel' source h = absurd (ground arith)
  check_confirm_ok channel (ok (none, state, rest)) channel' source h = absurd (ground arith)
  check_confirm_ok channel (ok (some message, state, rest)) channel' source h =
      let (matches, h1) =
        refuse_if_ok (not (bytes_eq message confirm_tag))
          (malformed_payload, handshake_config "peer sent an unexpected pairing confirmation") _ _
          h in
      let same : record channel { state = state } ≡ channel' = ground (arith, h1) in
      (
        ap NoiseSession.remote_static (sym same),
        state,
        rest,
        ap (λ m. ok (some m, state, rest))
            (eq_of_bytes_eq message confirm_tag (ground (arith, matches))),
      )

  respond_confirmed_ok :
      (peer : PinnedPeer) (channel : NoiseSession T) (w : W)
      (received : Result Error (Option Bytes × T × Source)) (offer' : PairingOffer)
      (outcome : PairingOutcome T)
      → respond_confirmed snow session_transport sink curves codec offer peer channel w received
        ≡ (offer', ok outcome)
      → (offer' ≡ consume offer)
        × (outcome.peer ≡ peer)
        × (outcome.session.remote_static ≡ channel.remote_static)
        × (state : T) × (rest : Source) × (received ≡ ok (some confirm_tag, state, rest))
  unfolding respond_confirmed
  respond_confirmed_ok peer channel w received offer' outcome h =
      elim (Result-cases
        (check_confirm snow session_transport sink curves codec channel received)) [
          | inr (_, e) ↦ absurd (ground (arith, e))
          | inl ((c, s), e) ↦ elim (Result-cases (send session_transport sink c accept_tag w)) [
            | inr (_, f) ↦ absurd (ground (arith, e, f))
            | inl ((c', w'), f) ↦
                let (static, state, rest, confirmed) = check_confirm_ok channel received c s e in
                let same : record { peer = peer; session = c' } ≡ outcome = ground (arith, e, f) in
                (
                  ground (arith, e, f),
                  ap PairingOutcome.peer (sym same),
                  ap (λ (o : PairingOutcome T). o.session.remote_static) (sym same)
                      ∙ send-remote_static session_transport sink c accept_tag w c' w' f
                      ∙ static,
                  state,
                  rest,
                  confirmed,
                )
          ]
        ]

  -- A pairing that the host completes had an offer that was neither used nor expired, and has used it.
  -- The peer it pins passes the pin's check, and its static is the one that the session authenticated.
  pub respond_inner-pins :
      (now : ℕ) (source : Source) (w : W) (offer' : PairingOffer) (outcome : PairingOutcome T)
      → respond_inner snow session_transport sink curves codec identity offer now source w
        ≡ some (offer', ok outcome)
      → (offer.consumed ≡ false)
        × (is_expired offer now ≡ false)
        × (offer'.consumed ≡ true)
        × (verify curves outcome.peer ≡ ok tt)
        × (outcome.session.remote_static ≡ outcome.peer.noise_static_pub)
  unfolding respond_inner consume
  respond_inner-pins now source w offer' outcome h =
      elim (Result-cases
        (respond_handshake snow session_transport sink curves codec identity offer now source w)) [
          | inr (_, e) ↦ absurd (ground (arith, e))
          | inl ((p, c, s, w1), e) ↦ elim (Option-cases (recv session_transport c s)) [
            | inl f ↦ absurd (ground (arith, e, f))
            | inr (received, f) ↦
                let g : respond_confirmed snow session_transport sink curves codec offer p c w1
                      received
                    ≡ (offer', ok outcome) =
                  ground (arith, e, f) in
                let (used, same, static, _, _, _) =
                  respond_confirmed_ok p c w1 received offer' outcome g in
                let (unused, fresh, checked, pinned) =
                  respond_handshake_ok now source w p c s w1 e in
                (
                  unused,
                  fresh,
                  ap PairingOffer.consumed used,
                  ap (verify curves) same ∙ checked,
                  static ∙ pinned ∙ ap PinnedPeer.noise_static_pub (sym same),
                )
          ]
        ]

  -- Once a pairing has completed, every later attempt on its offer is refused as a replay, whatever the
  -- host, the time and the stream, and is refused before anything is read or written.
  pub respond_inner-single_use :
      (now : ℕ) (source : Source) (w : W) (offer' : PairingOffer) (outcome : PairingOutcome T)
      (later : ℕ) (host : Local) (source' : Source) (w' : W)
      → respond_inner snow session_transport sink curves codec identity offer now source w
        ≡ some (offer', ok outcome)
      → respond_inner snow session_transport sink curves codec host offer' later source' w'
        ≡ some (offer', err (replayed, handshake_config "pairing offer already used"))
  unfolding respond_inner respond_handshake
  respond_inner-single_use now source w offer' outcome later host source' w' h =
      replayed_when_used host offer' later source' w'
        (used (respond_inner-pins now source w offer' outcome h))
    where
      used :
          (offer.consumed ≡ false)
            × (is_expired offer now ≡ false)
            × (offer'.consumed ≡ true)
            × (verify curves outcome.peer ≡ ok tt)
            × (outcome.session.remote_static ≡ outcome.peer.noise_static_pub)
          → offer'.consumed ≡ true
      used (_, _, u, _, _) = u

      replayed_when_used :
          (host : Local) (spent : PairingOffer) (later : ℕ) (source' : Source) (w' : W)
          → spent.consumed ≡ true
          → respond_inner snow session_transport sink curves codec host spent later source' w'
            ≡ some (spent, err (replayed, handshake_config "pairing offer already used"))
      replayed_when_used host spent later source' w' e = rw e refl

  -- Every attempt ends, and it leaves the offer as it was unless the peer's confirmation was decrypted.
  pub respond_inner-consumes :
      (now : ℕ) (source : Source) (w : W)
      → (offer' : PairingOffer) × (attempt : Attempt (PairingOutcome T)) × (respond_inner snow
            session_transport sink curves codec identity offer now source w
          ≡ some (offer', attempt))
        × ((offer' ≡ offer)
            ⊎ ((channel : NoiseSession T) × (s rest : Source) × (state : T) × (recv
                    session_transport channel s
                  ≡ some (ok (some confirm_tag, state, rest)))
                × (offer' ≡ consume offer)))
  unfolding respond_inner respond_confirmed
  respond_inner-consumes now source w =
      elim (Result-cases
        (respond_handshake snow session_transport sink curves codec identity offer now source w)) [
          | inr (failure, e) ↦ (offer, err failure, ground (arith, e), inl refl)
          | inl ((p, c, s, w1), e) ↦
              let (received, f, _) = recv_bounded session_transport c s in
              elim (Result-cases
                (check_confirm snow session_transport sink curves codec c received)) [
                  | inr (failure, g) ↦ (offer, err failure, ground (arith, e, f, g), inl refl)
                  | inl ((c', s'), g) ↦
                      let (_, state, rest, same) = check_confirm_ok c received c' s' g in
                      let confirmed : recv session_transport c s
                          ≡ some (ok (some confirm_tag, state, rest)) =
                        f ∙ ap some same in
                      elim (Result-cases (send session_transport sink c' accept_tag w1)) [
                        | inr (x, k) ↦ (
                          consume offer,
                          err (transport, x),
                          ground (arith, e, f, g, k),
                          inr (c, s, rest, state, confirmed, refl),
                        )
                        | inl ((c'', w2), k) ↦ (
                          consume offer,
                          ok (record { peer = p; session = c'' }),
                          ground (arith, e, f, g, k),
                          inr (c, s, rest, state, confirmed, refl),
                        )
                      ]
                ]
        ]

module _ {L T : Type 0} (log : AuditLog L) (sha256 : Bytes → Bytes) (detail : Error → String) where
  -- No attempt passes unaudited: one that succeeds for the caller has its success recorded with the
  -- peer's fingerprint and static. One that failed is handed on with its own error, and its record is
  -- what the log holds unless the log cannot be written. A success that cannot be recorded is an error.
  pub finish-audits :
      (l : L) (context : PairingContext) (attempt : Attempt (PairingOutcome T)) (l' : L)
      (result : Result Error (PairingOutcome T))
      → finish log sha256 detail l context attempt ≡ (l', result)
      → ((outcome : PairingOutcome T) × (attempt ≡ ok outcome)
          × (((result ≡ ok outcome)
                × (log.append l (
                      pairing_succeeded context.account_id context.device_id
                        (fingerprint sha256 outcome.peer)
                        outcome.peer.noise_static_pub)
                    ≡ some l'))
              ⊎ ((result ≡ err audit) × (l' ≡ l))))
        ⊎ ((reason : PairingFailureReason) × (e : Error) × (attempt ≡ err (reason, e))
            × (result ≡ err e)
            × ((log.append l (pairing_failed context.account_id context.device_id reason (detail e))
                  ≡ some l')
                ⊎ ((log.append l
                        (pairing_failed context.account_id context.device_id reason (detail e))
                      ≡ none)
                    × (l' ≡ l))))
  unfolding finish
  finish-audits l context (ok outcome) l' result h =
      elim (Option-cases (
        log.append l (
          pairing_succeeded context.account_id context.device_id (fingerprint sha256 outcome.peer)
            outcome.peer.noise_static_pub))) [
              | inl e ↦ inl (outcome, refl, inr (ground (arith, e)))
              | inr (k, e) ↦ inl (outcome, refl, inl (ground (arith, e)))
            ]
  finish-audits l context (err (reason, x)) l' result h =
      elim (Option-cases
        (log.append l (pairing_failed context.account_id context.device_id reason (detail x)))) [
          | inl e ↦ inr (reason, x, refl, ground (arith, e), inr (ground (arith, e)))
          | inr (k, e) ↦ inr (reason, x, refl, ground (arith, e), inl (ground (arith, e)))
        ]
