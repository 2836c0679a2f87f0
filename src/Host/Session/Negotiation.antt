-- ===== src/Host/Session/Negotiation.antt =====
-- Which `hello` opens a session.
use osprey.Prelude.{
  ℕ, ◌≤◌, ◌≡◌, ◌↔◌, refl, ◌∙◌, min, true, false, Bool-cases, inl, inr, some, Option-cases, String,
  Result, ok, err, bind_ok, arith,
}
use osprey.Prelude.Int.{ℤ}
use osprey.Wire.ErrorCode.{ErrorCode, bad_request, version_mismatch}
use osprey.Wire.Registry.{MessageType}
use osprey.Wire.Bodies.{Uuid, HelloBody}
use osprey.Wire.Envelope.{
  Serde, Envelope, Body, ProtoError, hello, error, decode_body, protocol_version,
  min_protocol_version,
}
use osprey.Noise.Framing.{Sink}
use osprey.Noise.Session.{Transport, NoiseSession}
use osprey.Host.Session.{
  SessionError, not_hello, malformed_hello, no_common_version, EnvelopeJson, send, send_error,
  no_overlap,
}
use osprey.Host.Session.Hello.{is_hello, as_hello, refuse, negotiate, check_hello}

as_hello-some :
    (r : Result ProtoError Body) (body : HelloBody) → as_hello r ≡ some body → r ≡ ok (hello body)
as_hello-some (ok (hello b)) body h = ground arith
as_hello-some (ok other) body h = absurd (ground arith)
as_hello-some (err e) body h = absurd (ground arith)

is_hello_eq : (t : MessageType) → is_hello t ≡ true → t ≡ MessageType.hello
is_hello_eq MessageType.hello h = refl
is_hello_eq other h = absurd (ground arith)

-- A version that both sides speak.
abbrev pub Common : HelloBody → ℕ → Type 0
Common body v =
    (min_protocol_version ≤ v)
    × (v ≤ protocol_version)
    × (body.min_protocol_version ≤ v)
    × (v ≤ body.protocol_version)

pub no_overlap_iff : (body : HelloBody) → (no_overlap body ≡ false) ↔ ((v : ℕ) × Common body v)
unfolding no_overlap
no_overlap_iff body = (
  (λ h. (min protocol_version body.protocol_version, ground (arith, h))),
  (λ (v, c). ground (arith, c)),
)

module _ {Value T W : Type 0} (serde : Serde Value) (json : EnvelopeJson Value)
    (transport : Transport T) (sink : Sink W) (ranges : HelloBody → String)
    (session : NoiseSession T) (w : W) (now : ℤ) (envelope : Envelope Value) where
  refuse_ok :
      (code : ErrorCode) (message : String) (e : SessionError) (session' : NoiseSession T) (w' : W)
      (answer : Result SessionError (Uuid × Uuid))
      → refuse serde json transport sink ranges session w envelope.id now code message e
        ≡ ok (session', w', answer)
      → (answer ≡ err e)
        × (send serde json transport sink session w envelope.id now
              (error (record { code = code; message = message; retryable = false }))
            ≡ ok (session', w'))
  unfolding send_error
  refuse_ok code message e session' w' answer h =
      let ((s1, w1), sent, same) =
        bind_ok
          (send serde json transport sink session w envelope.id now
            (error (record { code = code; message = message; retryable = false })))
          _ _ h in
      (ground (arith, same), sent ∙ ground (arith, same))

  -- The host accepts this `hello`.
  abbrev pub Opens : Uuid → Uuid → Type 0
  Opens device id =
      (body : HelloBody) × (envelope.t ≡ MessageType.hello)
      × (decode_body serde envelope ≡ ok (hello body))
      × ((v : ℕ) × Common body v)
      × (device ≡ body.device_id)
      × (id ≡ envelope.id)

  -- The host told the peer why it gives up.
  abbrev pub Told : NoiseSession T → W → Type 0
  Told session' w' =
      (code : ErrorCode) × (message : String) × (send serde json transport sink session w
          envelope.id now (error (record { code = code; message = message; retryable = false }))
        ≡ ok (session', w'))

  abbrev pub Answer : Result SessionError (Uuid × Uuid) → NoiseSession T → W → Type 0
  Answer (ok (device, id)) session' w' = Opens device id × (session' ≡ session) × (w' ≡ w)
  Answer (err e) session' w' = Told session' w'

  by_refusal :
      (code : ErrorCode) (message : String) (e : SessionError) (session' : NoiseSession T) (w' : W)
      (answer : Result SessionError (Uuid × Uuid))
      → refuse serde json transport sink ranges session w envelope.id now code message e
        ≡ ok (session', w', answer)
      → Answer answer session' w'
  by_refusal code message e session' w' (ok (device, id)) h =
      absurd (ground (arith, (refuse_ok code message e session' w' (ok (device, id)) h).0))
  by_refusal code message e session' w' (err e') h =
      (code, message, (refuse_ok code message e session' w' (err e') h).1)

  opened :
      {body : HelloBody}
      → (envelope.t ≡ MessageType.hello)
        × (decode_body serde envelope ≡ ok (hello body))
        × ((v : ℕ) × Common body v)
      → (session' : NoiseSession T) (w' : W) (answer : Result SessionError (Uuid × Uuid))
      → ◌≡◌ {A = Result SessionError (NoiseSession T × W × Result SessionError (Uuid × Uuid))}
          (ok (session, w, ok (body.device_id, envelope.id)))
          (ok (session', w', answer))
      → Answer answer session' w'
  opened {body} (t, d, v) session' w' (err e) h = absurd (ground (arith, h))
  opened {body} (t, d, v) session' w' (ok (device, id)) h =
      ((body, t, d, v, ground (arith, h), ground (arith, h)), ground (arith, h), ground (arith, h))

  -- The peer's first message opens the session only if it is a `hello` whose body fits the schema and
  -- whose range of versions has one in common with this build's; the session then belongs to the
  -- device that the body names and is answered under the id of the `hello`, and nothing has been sent.
  -- Otherwise the host gives up, and if the connection bears it the peer is told an error under the id
  -- of its message first.
  pub check_hello-Answer :
      (session' : NoiseSession T) (w' : W) (answer : Result SessionError (Uuid × Uuid))
      → check_hello serde json transport sink ranges session w now envelope
        ≡ ok (session', w', answer)
      → Answer answer session' w'
  unfolding check_hello negotiate
  check_hello-Answer session' w' answer h = elim (Bool-cases (is_hello envelope.t)) [
    | inr f ↦
        by_refusal bad_request "the first message on a session must be `hello`"
          (not_hello envelope.t) session' w' answer (ground (arith, f, h))
    | inl f ↦ elim (Option-cases (as_hello (decode_body serde envelope))) [
      | inl d ↦
          by_refusal bad_request "hello body did not match the schema" malformed_hello session' w'
            answer (ground (arith, f, d, h))
      | inr (body, d) ↦ elim (Bool-cases (no_overlap body)) [
        | inl o ↦
            by_refusal version_mismatch (ranges body) no_common_version session' w' answer
              (ground (arith, f, d, o, h))
        | inr o ↦
            opened
              (
                is_hello_eq envelope.t f,
                as_hello-some (decode_body serde envelope) body d,
                (no_overlap_iff body).0 o,
              )
              session' w' answer (ground (arith, f, d, o, h))
      ]
    ]
  ]

  -- A `hello` whose body fits the schema and whose range of versions has one in common with this
  -- build's opens the session.
  pub Opens-check_hello :
      (device id : Uuid)
      → Opens device id
      → check_hello serde json transport sink ranges session w now envelope
        ≡ ok (session, w, ok (device, id))
  unfolding check_hello negotiate
  Opens-check_hello device id (body, t, d, common, e, f) =
      let open_range = (no_overlap_iff body).1 common in ground (arith, t, d, open_range, e, f)
