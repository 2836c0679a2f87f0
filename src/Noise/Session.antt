-- ===== src/Noise/Session.antt =====
-- agent/osprey-core/src/noise/session.rs: an established session, which sends and receives whole
-- messages. `snow`'s transport state is a parameter.
pub mod RoundTrip
pub mod Bounds
use osprey.Prelude.{
  ℕ, zero, suc, ◌+◌, ◌/◌, ◌≤◌, ◌≡◌, Bool, true, false, ◌&&◌, not, Option, none, some, List, [], ◌∷◌,
  ◌++◌, length, ltb, ◌==◌, if◌then◌else◌, Result, ok, err, ◌>>=◌, ok_or, refuse_if,
}
use osprey.Errors.{
  Error, transport_auth, too_many_chunks, truncated_frame, empty_continuation_chunk,
  message_too_large, io,
}
use osprey.Prelude.{Bytes}
use osprey.Noise.Framing.{
  Sink, Source, FrameRead, frame, eof, write_frame, read_frame, split_into_chunks,
  split_chunk_header, max_chunk_payload_len, default_max_message_len, noise_max_message_len,
  noise_max_plaintext_len,
}

-- `snow::TransportState`: `none` is its error. `Paired a b` says that what `a` encrypts next is what
-- `b` expects next; then `b` decrypts it, and they stay paired. A plaintext up to the limit is
-- encrypted into a message up to the limit.
pub record Transport (T : Type 0) : Type 1 where
  pub write_message : T → Bytes → Option (Bytes × T)
  pub read_message : T → Bytes → Option (Bytes × T)
  pub Paired : T → T → Type 0
  pub read-write :
      (a b : T) (plain cipher : Bytes) (a' : T)
      → Paired a b
      → write_message a plain ≡ some (cipher, a')
      → (b' : T) × (read_message b cipher ≡ some (plain, b')) × Paired a' b'
  pub write_total :
      (a b : T) (plain : Bytes)
      → Paired a b
      → length plain ≤ noise_max_plaintext_len
      → (cipher : Bytes) × (a' : T) × (write_message a plain ≡ some (cipher, a'))
        × (length cipher ≤ noise_max_message_len)

pub record NoiseSession (T : Type 0) : Type 0 where
  pub state : T
  pub remote_static : Bytes
  pub max_message_len : ℕ

-- Reassembly so far: the local variables of `recv`'s loop.
pub record Progress (T : Type 0) : Type 0 where
  pub chunks : ℕ
  pub assembled : Bytes
  pub state : T
  pub source : Source

-- How one round of the loop ends: `Ok(None)`, `Ok(Some(_))`, or with another round.
pub data Round (T : Type 0) : Type 0 where
  closed : Source → Round T
  complete : Bytes → T → Source → Round T
  again : Progress T → Round T

module _ {T : Type 0} where
  -- `NoiseSession::new`
  unfoldable pub new : T → Bytes → NoiseSession T
  new state remote_static = record {
    state = state;
    remote_static = remote_static;
    max_message_len = default_max_message_len;
  }

  unfoldable pub set_max_message_len : NoiseSession T → ℕ → NoiseSession T
  set_max_message_len s n = record s { max_message_len = n }

  abbrev pub max_chunks : NoiseSession T → ℕ
  max_chunks s = s.max_message_len / max_chunk_payload_len + 2

module _ {T : Type 0} (transport : Transport T) where
  module _ {W : Type 0} (sink : Sink W) where
    unfoldable pub send_chunks : T → List Bytes → W → Result Error (T × W)
    send_chunks state [] w = ok (state, w)
    send_chunks state (chunk ∷ chunks) w = do
      (cipher, state') ← ok_or transport_auth (transport.write_message state chunk)
      w' ← write_frame sink w cipher
      send_chunks state' chunks w'

    -- On an error the session and the writer are given up with it.
    unfoldable pub send : NoiseSession T → Bytes → W → Result Error (NoiseSession T × W)
    unfolding send_chunks
    send s payload w = do
      (state, w') ← send_chunks s.state (split_into_chunks payload) w
      w'' ← ok_or io (sink.flush w')
      ok (record s { state = state }, w'')

  module _ (max_chunks max_message_len : ℕ) where
    -- The part of a round behind a frame that was read: `chunks` counts it.
    on_frame : ℕ → Progress T → Bytes → Source → Result Error (Round T)
    on_frame chunks p bytes source =
        refuse_if (ltb max_chunks chunks) (too_many_chunks max_chunks) do
          (plain, state) ← ok_or transport_auth (transport.read_message p.state bytes)
          (final_chunk, body) ← split_chunk_header plain
          refuse_if (not final_chunk && (length body == 0)) empty_continuation_chunk (
              refuse_if (ltb max_message_len (length p.assembled + length body))
                (message_too_large max_message_len)
                (ok (
                  if final_chunk
                  then complete (p.assembled ++ body) state source
                  else again (record {
                    chunks = chunks;
                    assembled = p.assembled ++ body;
                    state = state;
                    source = source;
                  }))))

    recv_round : Progress T → Result Error (Round T)
    unfolding on_frame
    recv_round p = do
      (read, source) ← read_frame p.source
      elim read [
        | eof ↦ if p.chunks == 0 then ok (closed source) else err (truncated_frame 0 2)
        | frame bytes ↦ on_frame (p.chunks + 1) p bytes source
      ]

    -- The loop, on fuel: `none` is fuel that ran out.
    recv_loop : ℕ → Progress T → Option (Result Error (Option Bytes × T × Source))
    recv_loop zero p = none
    recv_loop (suc fuel) p = elim (recv_round p) [
      | err e ↦ some (err e)
      | ok (closed source) ↦ some (ok (none, p.state, source))
      | ok (complete message state source) ↦ some (ok (some message, state, source))
      | ok (again p') ↦ recv_loop fuel p'
    ]

  -- A round more than the chunks that are allowed.
  unfoldable pub recv : NoiseSession T → Source → Option (Result Error (Option Bytes × T × Source))
  unfolding recv_loop recv_round
  recv s source =
      recv_loop (max_chunks s) s.max_message_len (max_chunks s + 1)
        (record { chunks = 0; assembled = []; state = s.state; source = source })
