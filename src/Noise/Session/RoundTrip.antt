-- ===== src/Noise/Session/RoundTrip.antt =====
-- What is sent is what is received.
use osprey.Prelude.{
  ℕ, zero, suc, ◌+◌, ◌≤◌, ◌≡◌, refl, sym, ap, ◌∙◌, some, Bool-cases, Option-cases, Result-cases,
  inl, inr, List, [], ◌∷◌, ◌++◌, append_assoc, append-nil, length, length-append, ltb, ok, arith,
}
use mathlib.Core.List.{append_cancel_left}
use osprey.Prelude.{Bytes}
use osprey.Noise.Framing.{
  Sink, Source, frame, write_frame, read_frame, split_into_chunks, split_chunk_header, to_be_bytes,
  noise_max_message_len, flag_final, flag_more,
}
use osprey.Noise.Framing.Content.{IsClean, content, read_frame-frame}
use osprey.Noise.Framing.Chunks.{
  Chunked, last, more, split_into_chunks-Chunked, length-split_into_chunks,
}
use osprey.Noise.Session.{
  Transport, NoiseSession, Progress, again, complete, send_chunks, send, on_frame, recv_round,
  recv_loop, recv, max_chunks,
}

module _ {T : Type 0} (transport : Transport T) where
  -- The bytes on the wire of a list of chunks, encrypted one after the other from `a` on.
  abbrev Sent : T → List Bytes → T → Bytes → Type 0
  Sent a [] a' wire = (a ≡ a') × (wire ≡ [])
  Sent a (c ∷ cs) a' wire =
      (cipher : Bytes) × (b : T) × (rest : Bytes) × (transport.write_message a c ≡ some (cipher, b))
      × (length cipher ≤ noise_max_message_len)
      × (wire ≡ to_be_bytes (length cipher) ++ cipher ++ rest)
      × Sent b cs a' rest

  module _ {W : Type 0} (sink : Sink W) where
    write_frame-written :
        (w : W) (message : Bytes) (w' : W)
        → write_frame sink w message ≡ ok w'
        → (length message ≤ noise_max_message_len)
          × (sink.written w' ≡ sink.written w ++ to_be_bytes (length message) ++ message)
    unfolding write_frame
    write_frame-written w message w' h =
        elim (Bool-cases (ltb noise_max_message_len (length message))) [
          | inl large ↦ absurd (ground (arith))
          | inr small ↦ elim (Option-cases (sink.write_all w (to_be_bytes (length message)))) [
            | inl fault ↦ absurd (ground (arith, fault))
            | inr (v, e) ↦ elim (Option-cases (sink.write_all v message)) [
              | inl fault ↦ absurd (ground (arith, e, fault))
              | inr (u, f) ↦
                  let same : u ≡ w' = ground (arith, e, f) in
                  (
                    ground arith,
                    ap sink.written (sym same)
                        ∙ sink.written-write_all v message u f
                        ∙ ap (λ b. b ++ message) (sink.written-write_all w _ v e),
                  )
            ]
          ]
        ]

    send_chunks-cons :
        (c : Bytes) (cs : List Bytes) (a : T) (w : W) (a' : T) (w' : W)
        → send_chunks transport sink a (c ∷ cs) w ≡ ok (a', w')
        → (cipher : Bytes) × (b : T) × (v : W) × (transport.write_message a c ≡ some (cipher, b))
          × (write_frame sink w cipher ≡ ok v)
          × (send_chunks transport sink b cs v ≡ ok (a', w'))
    unfolding send_chunks
    send_chunks-cons c cs a w a' w' h = elim (Option-cases (transport.write_message a c)) [
      | inl fault ↦ absurd (ground (arith, fault))
      | inr ((cipher, b), e) ↦ elim (Result-cases (write_frame sink w cipher)) [
        | inl (v, f) ↦ (cipher, b, v, e, f, ground (arith, e, f))
        | inr (x, f) ↦ absurd (ground (arith, e, f))
      ]
    ]

    send_chunks-Sent :
        (cs : List Bytes) (a : T) (w : W) (a' : T) (w' : W)
        → send_chunks transport sink a cs w ≡ ok (a', w')
        → (wire : Bytes) × Sent a cs a' wire × (sink.written w' ≡ sink.written w ++ wire)
    send_chunks-Sent [] a w a' w' h =
        let (p, q) = sent_nothing a w a' w' h in
        ([], (p, refl), ap sink.written (sym q) ∙ sym (append-nil (sink.written w)))
      where
        sent_nothing :
            (a : T) (w : W) (a' : T) (w' : W)
            → send_chunks transport sink a [] w ≡ ok (a', w')
            → (a ≡ a') × (w ≡ w')
        sent_nothing a w a' w' h = unfold send_chunks in ground arith
    send_chunks-Sent (c ∷ cs) a w a' w' h =
        let (cipher, b, v, e, f, g) = send_chunks-cons c cs a w a' w' h in
        let (fits, wrote) = write_frame-written w cipher v f in
        let (rest, sent, total) = send_chunks-Sent cs b v a' w' g in
        (
          to_be_bytes (length cipher) ++ cipher ++ rest,
          (cipher, b, rest, e, fits, refl, sent),
          total ∙ ap (λ x. x ++ rest) wrote ∙ simp append_assoc,
        )

  read_front :
      (s : Source) (wire cipher after rest : Bytes)
      → IsClean s
      → length cipher ≤ noise_max_message_len
      → content s ≡ wire ++ rest
      → wire ≡ to_be_bytes (length cipher) ++ cipher ++ after
      → (s' : Source) × (read_frame s ≡ ok (frame cipher, s'))
        × (content s' ≡ after ++ rest)
        × IsClean s'
  read_front s wire cipher after rest v fits c w =
      read_frame-frame s cipher (after ++ rest) v fits (
        c ∙ ap (λ x. x ++ rest) w ∙ append_assoc (to_be_bytes (length cipher) ++ cipher) after rest)

  module _ (maxc maxlen : ℕ) where
    recv_round-last :
        (p : Progress T) (cipher payload : Bytes) (s : Source) (b : T)
        → read_frame p.source ≡ ok (frame cipher, s)
        → transport.read_message p.state cipher ≡ some (flag_final ∷ payload, b)
        → p.chunks + 1 ≤ maxc
        → length p.assembled + length payload ≤ maxlen
        → recv_round transport maxc maxlen p ≡ ok (complete (p.assembled ++ payload) b s)
    unfolding recv_round on_frame split_chunk_header
    recv_round-last p cipher payload s b e f h l = ground (arith, e, f)

    recv_round-more :
        (p : Progress T) (cipher : Bytes) (x : ℕ) (body : Bytes) (s : Source) (b : T)
        → read_frame p.source ≡ ok (frame cipher, s)
        → transport.read_message p.state cipher ≡ some (flag_more ∷ x ∷ body, b)
        → p.chunks + 1 ≤ maxc
        → length p.assembled + length (x ∷ body) ≤ maxlen
        → recv_round transport maxc maxlen p
          ≡ ok (
              again (record {
                chunks = p.chunks + 1;
                assembled = p.assembled ++ x ∷ body;
                state = b;
                source = s;
              }))
    unfolding recv_round on_frame split_chunk_header
    recv_round-more p cipher x body s b e f h l = ground (arith, e, f)

    -- The chunks of a payload, on their way from one paired state to the other, are reassembled.
    recv_loop-Chunked :
        (cs : List Bytes) (payload : Bytes)
        → Chunked cs payload
        → (a a' : T) (wire rest : Bytes) (fuel : ℕ) (p : Progress T) → Sent a cs a' wire
        → transport.Paired a p.state
        → IsClean p.source
        → content p.source ≡ wire ++ rest
        → p.chunks + length cs ≤ maxc
        → length p.assembled + length payload ≤ maxlen
        → length cs ≤ fuel
        → (b' : T) × (s' : Source) × (recv_loop transport maxc maxlen fuel p
            ≡ some (ok (some (p.assembled ++ payload), b', s')))
          × (content s' ≡ rest)
          × IsClean s'
          × transport.Paired a' b'
    unfolding recv_loop
    recv_loop-Chunked _ _ (last payload) a a' wire rest zero p sent pair v c h l k =
        absurd (omega arith)
    recv_loop-Chunked _ _ (more x body tail cs ch) a a' wire rest zero p sent pair v c h l k =
        absurd (omega arith)
    recv_loop-Chunked _ _ (last payload) a a' wire rest (suc fuel) p sent pair v c h l k =
        let (cipher, b, after, e, fits, w, done) = sent in
        let (s1, e1, c1, v1) = read_front p.source wire cipher after rest v fits c w in
        let (b1, f1, pair1) =
          transport.read-write a p.state (flag_final ∷ payload) cipher b pair e in
        (
          b1,
          s1,
          rw (recv_round-last p cipher payload s1 b1 e1 f1 h l, recv_loop),
          c1 ∙ ap (λ r. r ++ rest) done.1,
          v1,
          rw (← done.0) pair1,
        )
    recv_loop-Chunked _ _ (more x body tail cs ch) a a' wire rest (suc fuel) p sent pair v c h l k =
        let (cipher, b, after, e, fits, w, sent') = sent in
        let (s1, e1, c1, v1) = read_front p.source wire cipher after rest v fits c w in
        let (b1, f1, pair1) =
          transport.read-write a p.state (flag_more ∷ x ∷ body) cipher b pair e in
        let p' : Progress T = record {
          chunks = p.chunks + 1;
          assembled = p.assembled ++ x ∷ body;
          state = b1;
          source = s1;
        } in
        let sum : length (x ∷ body ++ tail) ≡ suc (length body) + length tail =
          length-append (x ∷ body) tail in
        let (b2, s2, e2, c2, v2, pair2) =
          recv_loop-Chunked cs tail ch b a' after rest fuel p' sent' pair1 v1 c1 (omega arith)
            (omega (arith, length-append p.assembled (x ∷ body))) (omega arith) in
        (
          b2,
          s2,
          rw (recv_round-more p cipher x body s1 b1 e1 f1 (omega arith) (omega arith), recv_loop)
              (e2
                ∙ ap (λ r. some (ok (some r, b2, s2))) (append_assoc p.assembled (x ∷ body) tail)),
          c2,
          v2,
          pair2,
        )

send-Sent :
    {T W : Type 0} (transport : Transport T) (sink : Sink W) (s s' : NoiseSession T)
    (payload : Bytes) (w w' : W)
    → send transport sink s payload w ≡ ok (s', w')
    → (wire : Bytes) × Sent transport s.state (split_into_chunks payload) s'.state wire
      × (sink.written w' ≡ sink.written w ++ wire)
unfolding send
send-Sent transport sink s s' payload w w' h =
    elim (Result-cases (send_chunks transport sink s.state (split_into_chunks payload) w)) [
      | inr (x, e) ↦ absurd (ground (arith, e))
      | inl ((a, v), e) ↦ elim (Option-cases (sink.flush v)) [
        | inl fault ↦ absurd (ground (arith, e, fault))
        | inr (u, f) ↦
            let (wire, sent, wrote) =
              send_chunks-Sent transport sink (split_into_chunks payload) s.state w a v e in
            let state_eq : a ≡ s'.state = ground (arith, e, f) in
            let same : u ≡ w' = ground (arith, e, f) in
            (
              wire,
              rw (← state_eq) sent,
              ap sink.written (sym same) ∙ sink.written-flush v u f ∙ wrote,
            )
      ]
    ]

-- A message that one session sends, of at most the receiver's limit, is received whole by the session
-- paired with it: where what was written stands at the front of a clean stream, however the stream's
-- reads are cut up, `recv` returns the message, leaves what follows in the stream, and the sessions
-- stay paired.
pub recv-send :
    {T W : Type 0} (transport : Transport T) (sink : Sink W)
    (sender receiver sender' : NoiseSession T) (payload : Bytes) (w w' : W) (wire rest : Bytes)
    (source : Source)
    → send transport sink sender payload w ≡ ok (sender', w')
    → sink.written w' ≡ sink.written w ++ wire
    → transport.Paired sender.state receiver.state
    → length payload ≤ receiver.max_message_len
    → IsClean source
    → content source ≡ wire ++ rest
    → (b : T) × (source' : Source) × (recv transport receiver source
        ≡ some (ok (some payload, b, source')))
      × (content source' ≡ rest)
      × IsClean source'
      × transport.Paired sender'.state b
unfolding recv
recv-send transport sink sender receiver sender' payload w w' wire rest source h wrote pair le v c =
    let (wire0, sent, wrote0) = send-Sent transport sink sender sender' payload w w' h in
    let same : wire0 ≡ wire = append_cancel_left (sink.written w) wire0 wire (sym wrote0 ∙ wrote) in
    recv_loop-Chunked transport (max_chunks receiver) receiver.max_message_len
      (split_into_chunks payload) payload (split_into_chunks-Chunked payload) sender.state
      sender'.state wire0 rest (max_chunks receiver + 1)
      (record { chunks = 0; assembled = []; state = receiver.state; source = source }) sent pair v
      (rw same c) (omega (arith, length-split_into_chunks payload)) (omega arith)
      (omega (arith, length-split_into_chunks payload))
