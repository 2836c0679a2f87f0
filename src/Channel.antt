-- ===== src/Channel.antt =====
-- agent/osprey-core/src/channel.rs: sessions between devices that are already paired.
use osprey.Prelude.{
  ℕ, get_elem?, find-some, bind_ok, ok_or_ok, refuse_if_ok, sym, ap, ◌∙◌, ◌≡◌, not, none, some,
  List, [], find, Bytes, eq_of_bytes_eq, Result, ok, ◌>>=◌, ok_or, refuse_if, arith,
}
use osprey.Errors.{Error, unpinned_peer}
use osprey.Noise.Framing.{Sink, Source}
use osprey.Noise.Session.{NoiseSession}
use osprey.Noise.Handshake.{Snow, session, initiator, responder, new, run_initiator, run_responder}
use osprey.Identity.{PinnedPeer, matches_handshake_static}

module _ {H T W : Type 0} (snow : Snow H T) (sink : Sink W) where
  unfoldable pub connect :
      Bytes → PinnedPeer → Source → W → Result Error (NoiseSession T × Source × W)
  connect local_static peer source w = do
    h ← new snow (record {
      pattern = session;
      role = initiator;
      local_static = local_static;
      remote_static = some peer.noise_static_pub;
      psk = none;
    })
    (channel, _, source', w') ← run_initiator snow sink h [] source w
    refuse_if (not (matches_handshake_static peer channel.remote_static)) unpinned_peer
        (ok (channel, source', w'))

  unfoldable pub accept :
      Bytes → List PinnedPeer → Source → W → Result Error (PinnedPeer × NoiseSession T × Source × W)
  accept local_static allowed source w = do
    h ← new snow (record {
      pattern = session;
      role = responder;
      local_static = local_static;
      remote_static = none;
      psk = none;
    })
    (channel, _, source', w') ← run_responder snow sink h [] source w
    peer ←
        ok_or unpinned_peer (find (λ p. matches_handshake_static p channel.remote_static) allowed)
    ok (peer, channel, source', w')

  -- The host hands a session only to a peer that stands in the list of pins it was given, whose pinned
  -- static is the one that the handshake authenticated.
  pub accept-allowed :
      (local_static : Bytes) (allowed : List PinnedPeer) (source : Source) (w : W)
      (peer : PinnedPeer) (channel : NoiseSession T) (source' : Source) (w' : W)
      → accept local_static allowed source w ≡ ok (peer, channel, source', w')
      → (channel.remote_static ≡ peer.noise_static_pub)
        × (i : ℕ) × (get_elem? allowed i ≡ some peer)
  unfolding accept
  accept-allowed local_static allowed source w peer channel source' w' h =
      let (s0, _, h1) =
        bind_ok
          (new snow (record {
            pattern = session;
            role = responder;
            local_static = local_static;
            remote_static = none;
            psk = none;
          }))
          _ _ h in
      let ((c, request, s1, w1), _, h2) = bind_ok (run_responder snow sink s0 [] source w) _ _ h1 in
      let (p, e, h3) =
        bind_ok
          (ok_or unpinned_peer (find (λ q. matches_handshake_static q c.remote_static) allowed)) _ _
          h2 in
      let (matches, i, at) =
        find-some (λ q. matches_handshake_static q c.remote_static) allowed p
          (ok_or_ok unpinned_peer _ p e) in
      let same : p ≡ peer = ground (arith, h3) in
      let same_channel : c ≡ channel = ground (arith, h3) in
      (
        ap NoiseSession.remote_static (sym same_channel)
            ∙ eq_of_bytes_eq c.remote_static p.noise_static_pub matches
            ∙ ap PinnedPeer.noise_static_pub same,
        i,
        at ∙ ap some same,
      )

  -- The controller keeps a session only if the handshake authenticated the static of its pin.
  pub connect-authenticates :
      (local_static : Bytes) (peer : PinnedPeer) (source : Source) (w : W)
      (channel : NoiseSession T) (source' : Source) (w' : W)
      → connect local_static peer source w ≡ ok (channel, source', w')
      → channel.remote_static ≡ peer.noise_static_pub
  unfolding connect
  connect-authenticates local_static peer source w channel source' w' h =
      let (s0, _, h1) =
        bind_ok
          (new snow (record {
            pattern = session;
            role = initiator;
            local_static = local_static;
            remote_static = some peer.noise_static_pub;
            psk = none;
          }))
          _ _ h in
      let ((c, response, s1, w1), _, h2) =
        bind_ok (run_initiator snow sink s0 [] source w) _ _ h1 in
      let (matches, h3) =
        refuse_if_ok (not (matches_handshake_static peer c.remote_static)) unpinned_peer _ _ h2 in
      let same_channel : c ≡ channel = ground (arith, h3) in
      ap NoiseSession.remote_static (sym same_channel)
      ∙ eq_of_bytes_eq c.remote_static peer.noise_static_pub (ground (arith, matches))
