-- ===== src/Tests/Sessions.antt =====
-- Framing, sessions, handshakes and message types, at concrete inputs.
use osprey.Prelude.{
  ℕ, ◌≡◌, refl, ◌↔◌, Option, some, [], ◌∷◌, get_elem?, Bytes, Result, ok, Ensures, arith,
}
use osprey.Errors.{Error}
use osprey.Noise.Framing.{
  Source, ready, interrupted, read_frame, read_exact_or_eof, write_frame, split_into_chunks,
}
use osprey.Noise.Framing.Content.{IsClean, content}
use osprey.Noise.Session.{send, recv, max_chunks, send_chunks}
use osprey.Noise.Session.RoundTrip.{recv-send}
use osprey.Noise.Session.Bounds.{MessageOk, recv_bounded}
use osprey.Noise.Handshake.{run_responder, new, pairing, initiator, HandshakeConfig}
use osprey.Channel.{accept, accept-allowed}
use osprey.Wire.Registry.{ping, from_str, as_str}
use osprey.Wire.Registry.RoundTrip.{from_str_iff}
use osprey.Tests.Fixtures.{State, transport, sink, snow, session, fill, pinned}

-- A stream that is read byte by byte, with an interruption.
abbrev stream : Source
stream = ready (0 ∷ []) ∷ interrupted ∷ ready (3 ∷ []) ∷ ready (0 ∷ 4 ∷ 5 ∷ 9 ∷ []) ∷ []

stream-IsClean : IsClean stream
stream-IsClean = (omega arith, (omega arith, (omega arith, tt)))

sent : send transport sink session (4 ∷ 5 ∷ []) [] ≡ ok (session, 0 ∷ 3 ∷ 0 ∷ 4 ∷ 5 ∷ [])
unfolding send send_chunks write_frame split_into_chunks
sent = refl

recv-send_example :
    (b : State) × (source' : Source) × (recv transport session stream
      ≡ some (ok (some (4 ∷ 5 ∷ []), b, source')))
    × (content source' ≡ 9 ∷ [])
    × IsClean source'
    × transport.Paired session.state b
recv-send_example =
    recv-send transport sink session session session (4 ∷ 5 ∷ []) [] (0 ∷ 3 ∷ 0 ∷ 4 ∷ 5 ∷ [])
      (0 ∷ 3 ∷ 0 ∷ 4 ∷ 5 ∷ []) (9 ∷ []) stream sent refl tt (omega arith) stream-IsClean refl

recv_bounded_example :
    (r : Result Error (Option Bytes × State × Source)) × (recv transport session stream ≡ some r)
    × Ensures (MessageOk transport (max_chunks session) 4194304) r
recv_bounded_example = recv_bounded transport session stream

from_str_iff_example : (from_str "ping" ≡ ok ping) ↔ (as_str ping ≡ "ping")
from_str_iff_example = from_str_iff "ping" ping

abbrev config : HandshakeConfig
config = record {
  pattern = pairing;
  role = initiator;
  local_static = fill 32 5;
  remote_static = some (fill 32 2);
  psk = some (fill 32 3);
}

accepted :
    accept snow sink (fill 32 5) (pinned ∷ []) (ready (0 ∷ 1 ∷ 6 ∷ []) ∷ []) []
    ≡ ok (pinned, session, [], 0 ∷ 0 ∷ [])
unfolding accept new run_responder read_frame read_exact_or_eof write_frame
accepted = refl

accept-allowed_example :
    (fill 32 2 ≡ pinned.noise_static_pub) × (i : ℕ) × (get_elem? (pinned ∷ []) i ≡ some pinned)
accept-allowed_example =
    accept-allowed snow sink (fill 32 5) (pinned ∷ []) (ready (0 ∷ 1 ∷ 6 ∷ []) ∷ []) [] pinned
      session [] (0 ∷ 0 ∷ []) accepted
