-- ===== src/Noise/Session/Bounds.antt =====
-- The bounds on one receive, and that a send needs nothing but a writer that works.
use osprey.Prelude.{
  bind_ok, sym, ap, ℕ, zero, suc, ◌+◌, ◌≤◌, ◌≡◌, refl, Bool, true, false, ◌&&◌, not, Option, none,
  some, Bool-cases, ==_iff, inl, inr, List, [], ◌∷◌, ◌++◌, length, length-append, ltb, ◌==◌, Result,
  ok, err, ok_or, arith, Ensures, Ensures-bind, Ensures-refuse, if◌then◌else◌,
}
use osprey.Errors.{Error, io}
use osprey.Prelude.{Bytes}
use osprey.Noise.Framing.{
  Sink, Source, FrameRead, frame, eof, write_frame, read_frame, split_into_chunks,
  split_chunk_header, to_be_bytes, noise_max_message_len, max_chunk_payload_len,
}
use osprey.Noise.Framing.Chunks.{Fits, split_into_chunks-Fits}
use osprey.Noise.Session.{
  Transport, NoiseSession, Progress, Round, closed, again, complete, send_chunks, send, on_frame,
  recv_round, recv_loop, recv, max_chunks,
}

module _ {T : Type 0} (transport : Transport T) (maxc maxlen : ℕ) where
  -- What one round may have done.
  abbrev RoundOk : Progress T → Round T → Type 0
  RoundOk p (closed s) = p.chunks ≡ 0
  RoundOk p (complete message state s) = length message ≤ maxlen
  RoundOk p (again q) =
      (q.chunks ≡ p.chunks + 1) × (q.chunks ≤ maxc) × (length q.assembled ≤ maxlen)

  on_frame-RoundOk :
      (p : Progress T) (bytes : Bytes) (s : Source)
      → Ensures (RoundOk p) (on_frame transport maxc maxlen (p.chunks + 1) p bytes s)
  unfolding on_frame
  on_frame-RoundOk p bytes s = Ensures-refuse (RoundOk p) (ltb maxc (p.chunks + 1)) _ _ λ few.
      Ensures-bind (RoundOk p) (ok_or _ (transport.read_message p.state bytes)) _
        λ (plain, state) _.
          Ensures-bind (RoundOk p) (split_chunk_header plain) _ λ (final_chunk, body) _.
            Ensures-refuse (RoundOk p) (not final_chunk && (length body == 0)) _ _ λ _.
              Ensures-refuse (RoundOk p) (ltb maxlen (length p.assembled + length body)) _ _
                λ small. by_flag final_chunk body state few small
    where
      by_flag :
          (final_chunk : Bool) (body : Bytes) (state : T)
          → ltb maxc (p.chunks + 1) ≡ false
          → ltb maxlen (length p.assembled + length body) ≡ false
          → RoundOk p (
              if final_chunk
              then complete (p.assembled ++ body) state s
              else again (record {
                chunks = p.chunks + 1;
                assembled = p.assembled ++ body;
                state = state;
                source = s;
              }))
      by_flag true body state few small = ground (arith, length-append p.assembled body)
      by_flag false body state few small = ground (arith, length-append p.assembled body)

  recv_round-RoundOk : (p : Progress T) → Ensures (RoundOk p) (recv_round transport maxc maxlen p)
  unfolding recv_round
  recv_round-RoundOk p =
      Ensures-bind (RoundOk p) (read_frame p.source) _ λ (read, s) _. by_read read s
    where
      by_read :
          (read : FrameRead) (s : Source)
          → Ensures (RoundOk p) (elim read [
            | eof ↦ if p.chunks == 0 then ok (closed s) else err (Error.truncated_frame 0 2)
            | frame bytes ↦ on_frame transport maxc maxlen (p.chunks + 1) p bytes s
          ])
      by_read eof s = elim (Bool-cases (p.chunks == 0)) [
        | inl e ↦ rw e ((==_iff p.chunks 0).0 e)
        | inr e ↦ rw e tt
      ]
      by_read (frame bytes) s = on_frame-RoundOk p bytes s

  abbrev pub MessageOk : Option Bytes × T × Source → Type 0
  MessageOk (none, state, s) = Unit
  MessageOk (some message, state, s) = length message ≤ maxlen

  recv_loop-bounded :
      (fuel : ℕ) (p : Progress T)
      → maxc + 1 ≤ p.chunks + fuel
      → p.chunks ≤ maxc
      → (r : Result Error (Option Bytes × T × Source)) × (recv_loop transport maxc maxlen fuel p
          ≡ some r)
        × Ensures MessageOk r
  unfolding recv_loop
  recv_loop-bounded zero p enough few = absurd (omega arith)
  recv_loop-bounded (suc fuel) p enough few =
      go (recv_round transport maxc maxlen p) refl (recv_round-RoundOk p) (recv_loop-bounded fuel)
    where
      go :
          (x : Result Error (Round T))
          → recv_round transport maxc maxlen p ≡ x
          → Ensures (RoundOk p) x
          → ((q : Progress T)
              → maxc + 1 ≤ q.chunks + fuel
              → q.chunks ≤ maxc
              → (r : Result Error (Option Bytes × T × Source)) × (recv_loop transport maxc maxlen
                    fuel q
                  ≡ some r)
                × Ensures MessageOk r)
          → (r : Result Error (Option Bytes × T × Source)) × (recv_loop transport maxc maxlen
                (suc fuel)
                p
              ≡ some r)
            × Ensures MessageOk r
      go (err x) e o ih = (err x, rw (e, recv_loop), tt)
      go (ok (closed s)) e o ih = (ok (none, p.state, s), rw (e, recv_loop), tt)
      go (ok (complete m state s)) e o ih = (ok (some m, state, s), rw (e, recv_loop), o)
      go (ok (again q)) e o ih =
          let (r, f, g) = ih q (omega arith) o.1 in (r, rw (e, recv_loop) f, g)

-- Whatever the peer and the stream do, `recv` ends within the rounds that its chunk limit allows: the
-- fuel suffices. It ends with an error, with the end of the stream, or with a message of at most
-- `max_message_len` bytes.
pub recv_bounded :
    {T : Type 0} (transport : Transport T) (s : NoiseSession T) (source : Source)
    → (r : Result Error (Option Bytes × T × Source)) × (recv transport s source ≡ some r)
      × Ensures (MessageOk transport (max_chunks s) s.max_message_len) r
unfolding recv
recv_bounded transport s source =
    recv_loop-bounded transport (max_chunks s) s.max_message_len (max_chunks s + 1)
      (record { chunks = 0; assembled = []; state = s.state; source = source }) (omega arith)
      (omega arith)

module _ {T W : Type 0} (transport : Transport T) (sink : Sink W)
    (writes : (w : W) (bytes : Bytes) → (w' : W) × (sink.write_all w bytes ≡ some w'))
    (flushes : (w : W) → (w' : W) × (sink.flush w ≡ some w')) where
  write_frame-total :
      (w : W) (message : Bytes)
      → length message ≤ noise_max_message_len
      → (w' : W) × (write_frame sink w message ≡ ok w')
  unfolding write_frame
  write_frame-total w message h =
      let (w1, e1) = writes w (to_be_bytes (length message)) in
      let (w2, e2) = writes w1 message in (w2, ground (arith, e1, e2))

  send_chunks-total :
      (cs : List Bytes) (a b : T) (w : W)
      → Fits max_chunk_payload_len cs
      → transport.Paired a b
      → (a' : T) × (w' : W) × (send_chunks transport sink a cs w ≡ ok (a', w'))
  unfolding send_chunks
  send_chunks-total [] a b w fits pair = (a, w, refl)
  send_chunks-total (c ∷ cs) a b w (fits, rest) pair =
      let (cipher, a1, e, small) = transport.write_total a b c pair fits in
      let (b1, _, pair1) = transport.read-write a b c cipher a1 pair e in
      let (w1, f) = write_frame-total w cipher small in
      let (a2, w2, g) = send_chunks-total cs a1 b1 w1 rest pair1 in (a2, w2, rw (e, f) g)

  -- A paired session sends any payload, however long, over a writer that never fails.
  pub send_total :
      (s : NoiseSession T) (b : T) (payload : Bytes) (w : W)
      → transport.Paired s.state b
      → (s' : NoiseSession T) × (w' : W) × (send transport sink s payload w ≡ ok (s', w'))
  unfolding send
  send_total s b payload w pair =
      let (a, w1, e) =
        send_chunks-total (split_into_chunks payload) s.state b w (split_into_chunks-Fits payload)
          pair in
      let (w2, f) = flushes w1 in (record s { state = a }, w2, rw (e, f))

module _ {T W : Type 0} (transport : Transport T) (sink : Sink W) where
  pub send-remote_static :
      (s : NoiseSession T) (payload : Bytes) (w : W) (s' : NoiseSession T) (w' : W)
      → send transport sink s payload w ≡ ok (s', w')
      → s'.remote_static ≡ s.remote_static
  unfolding send send_chunks
  send-remote_static s payload w s' w' h =
      let ((state, w1), _, h1) =
        bind_ok (send_chunks transport sink s.state (split_into_chunks payload) w) _ _ h in
      let (w2, _, h2) = bind_ok (ok_or io (sink.flush w1)) _ _ h1 in
      let same : record s { state = state } ≡ s' = ground (arith, h2) in
      ap NoiseSession.remote_static (sym same)
