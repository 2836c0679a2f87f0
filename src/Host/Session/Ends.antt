-- ===== src/Host/Session/Ends.antt =====
-- How a served session ends.
use osprey.Prelude.{
  ℕ, ◌-◌, ◌≡◌, refl, sym, ◌∙◌, leb, Bool, true, false, inl, inr, Option, none, some, Result-cases,
  List, [], ◌∷◌, Result, ok, err, if◌then◌else◌, arith,
}
use osprey.Prelude.Int.{ℤ}
use osprey.Wire.Bodies.{Uuid, PairRevokeBody}
use osprey.Wire.Envelope.{Serde, Envelope}
use osprey.Noise.Framing.{Sink, Source}
use osprey.Noise.Session.{Transport, NoiseSession}
use osprey.Unpair.{AppliedRevocation}
use osprey.Host.Session.{
  revoked, SessionError, EnvelopeJson, recv_envelope, quiet_slice, session_idle_timeout,
}
use osprey.Host.Session.Dispatch.{MetricsEngine, Texts, Revocation, Handled, push_ticks, dispatch}
use osprey.Host.Session.Answers.{answered, refused, applied, left, dispatch-Dispatched}
use osprey.Host.Session.Serve.{
  Turn, Serving, serving, ended, SessionReport, as_of, after_dispatch, after_wait, serve_turn,
  serve_turns, Outcome, slice,
}

module _ {Value T W M Sub H : Type 0} (serde : Serde Value) (json : EnvelopeJson Value)
    (transport : Transport T) (sink : Sink W) (engine : MetricsEngine M Sub)
    (revocation : Revocation H) (texts : Texts) (peer_device_id : Uuid) where
  -- Nothing arrives in the round.
  abbrev pub Quiet : Turn M H → Type 0
  Quiet turn = turn.wait_readable quiet_slice ≡ some false

  abbrev pub timed_out : ℕ → Turn M H → Bool
  timed_out last_activity turn = leb session_idle_timeout (turn.checked_at - last_activity)

  -- The state that an applied `pair.revoke` leaves.
  abbrev pub Applied : H → Type 0
  Applied host' =
      (host host1 : H) × (body : PairRevokeBody) × (done : AppliedRevocation) × (revocation.apply
          body host
        ≡ (host1, ok done))
      × (host' ≡ revocation.close_peer_sessions host1)

  abbrev pub Out : Type 0
  Out = Outcome serde json transport sink engine revocation texts peer_device_id

  abbrev pub Replied : Type 0
  Replied = H × Handled serde json transport sink engine

  by_dispatch :
      (envelope : Envelope Value) (now : ℤ) (host : H) (s : Serving T W M Sub)
      (session : NoiseSession T) (received_at : ℕ) (source : Source) (call : Replied) (host' : H)
      (r : SessionReport)
      → dispatch serde json transport sink engine revocation texts envelope now host s.runtime
          session s.writer
        ≡ call
      → after_dispatch serde json transport sink engine revocation texts peer_device_id received_at
          source call
        ≡ (host', ok (ended r))
      → r.end ≡ revoked
      → Applied host'
  unfolding after_dispatch
  by_dispatch envelope now host s session received_at source (h1, err e) host' r c g v =
      absurd (ground arith)
  by_dispatch envelope now host s session received_at source (h1, ok (none, s1, w1, r1)) host' r c g
        v =
      absurd (ground arith)
  by_dispatch envelope now host s session received_at source (h1, ok (some end, s1, w1, r1)) host' r
        c g v =
      let same : h1 ≡ host' = ground arith in
      let ends : end ≡ revoked = ground (arith, g, v) in
      elim (dispatch-Dispatched serde json transport sink engine revocation texts envelope now host
        session s.writer s.runtime h1 (some end) s1 w1 r1 c) [
          | answered b a sent none_left kept ↦ absurd (ground (arith, none_left))
          | refused body refusal u t d a sent none_left ↦ absurd (ground (arith, none_left))
          | applied body done host1 u t d a kept e ↦ (host, host1, body, done, a, sym same ∙ kept)
          | left u t a b e kept ↦ absurd (ground (arith, e, ends))
        ]

  by_turn :
      (turn : Turn M H) (host : H) (s : Serving T W M Sub) (host' : H) (r : SessionReport)
      → serve_turn serde json transport sink engine revocation texts peer_device_id turn host s
        ≡ some (host', ok (ended r))
      → r.end ≡ revoked
      → Applied host'
  unfolding serve_turn
  by_turn turn host s host' r h v =
      elim (Result-cases (
        push_ticks serde json transport sink engine (as_of turn s.runtime) turn.fresh s.session
          s.writer)) [
            | inr (e, c) ↦ absurd (ground (arith, c))
            | inl ((pushed, session, w, runtime), c) ↦
                by_wait
                  (record {
                    session = session;
                    source = s.source;
                    writer = w;
                    runtime = runtime;
                    last_activity = if pushed then turn.pushed_at else s.last_activity;
                  })
                  (turn.wait_readable (slice runtime.stream)) (ground (arith, c, h))
          ]
    where
      by_envelope :
          (s : Serving T W M Sub)
          (call : Option (Result SessionError (Option (Envelope Value) × NoiseSession T × Source)))
          → recv_envelope json transport s.session s.source ≡ call
          → after_wait serde json transport sink engine revocation texts peer_device_id turn
              (some true)
              (turn.meanwhile host)
              s
            ≡ some (host', ok (ended r))
          → Applied host'
      by_envelope s none c g = absurd (unfold after_wait in ground (arith, c))
      by_envelope s (some (err e)) c g = absurd (unfold after_wait in ground (arith, c))
      by_envelope s (some (ok (none, session, source))) c g =
          absurd (unfold after_wait in ground (arith, c, v))
      by_envelope s (some (ok (some envelope, session, source))) c g =
          by_dispatch envelope turn.now (turn.meanwhile host) s session turn.received_at source
            (dispatch serde json transport sink engine revocation texts envelope turn.now
              (turn.meanwhile host) s.runtime session s.writer)
            host' r refl (unfold after_wait in ground (arith, c, g)) v

      by_wait :
          (s : Serving T W M Sub) (ready : Option Bool)
          → after_wait serde json transport sink engine revocation texts peer_device_id turn ready
              (turn.meanwhile host)
              s
            ≡ some (host', ok (ended r))
          → Applied host'
      by_wait s none g = absurd (unfold after_wait in ground arith)
      by_wait s (some false) g = absurd (unfold after_wait in ground arith)
      by_wait s (some true) g =
          by_envelope s (recv_envelope json transport s.session s.source) refl g

  -- A session that ends as revoked has had a `pair.revoke` of its peer applied, in the last message
  -- that it received: the host's state is what applying it left, with the peer's live sessions closed.
  pub serve_turns-revoked :
      (turns : List (Turn M H)) (host : H) (s : Serving T W M Sub) (host' : H) (r : SessionReport)
      → serve_turns serde json transport sink engine revocation texts peer_device_id turns host s
        ≡ some (host', ok (ended r))
      → r.end ≡ revoked
      → Applied host'
  unfolding serve_turns
  serve_turns-revoked [] host s host' r h v = absurd (ground arith)
  serve_turns-revoked (turn ∷ turns) host s host' r h v =
      by_call
        (serve_turn serde json transport sink engine revocation texts peer_device_id turn host s)
        refl (λ h1 s1 g. serve_turns-revoked turns h1 s1 host' r g v)
    where
      by_call :
          (call : Option Out)
          → serve_turn serde json transport sink engine revocation texts peer_device_id turn host s
            ≡ call
          → ((h1 : H) (s1 : Serving T W M Sub)
              → serve_turns serde json transport sink engine revocation texts peer_device_id turns
                  h1 s1
                ≡ some (host', ok (ended r))
              → Applied host')
          → Applied host'
      by_call none c later = absurd (ground (arith, c, h))
      by_call (some (h1, err e)) c later = absurd (ground (arith, c, h))
      by_call (some (h1, ok (ended q))) c later =
          by_turn turn host s host' r (c ∙ ground (arith, c, h)) v
      by_call (some (h1, ok (serving s1))) c later = later h1 s1 (ground (arith, c, h))
