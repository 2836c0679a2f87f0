-- ===== src/Noise/Handshake/Laws.antt =====
-- Which handshakes are built.
use osprey.Prelude.{◌≡◌, refl, Bytes, Option, some, none, ok, bind_ok, arith}
use osprey.Noise.Handshake.{
  Snow, HandshakeConfig, Pattern, Role, pairing, session, initiator, responder, check_psk,
  check_remote, new,
}

-- Whether the secrets that a handshake was given are those that its pattern and role call for.
abbrev pub FitsPattern : Pattern → Option Bytes → Type 0
FitsPattern pairing psk = (secret : Bytes) × (psk ≡ some secret)
FitsPattern session psk = psk ≡ none

abbrev pub FitsRole : Role → Option Bytes → Type 0
FitsRole initiator remote = (static : Bytes) × (remote ≡ some static)
FitsRole responder remote = Unit

module _ {H T : Type 0} (snow : Snow H T) where
  -- A handshake is built only if the pairing pattern has the pairing secret and the session pattern has
  -- none, and an initiator knows the static of the peer: no first contact is left unauthenticated.
  pub new-guards :
      (config : HandshakeConfig) (h : H)
      → new snow config ≡ ok h
      → FitsPattern config.pattern config.psk × FitsRole config.role config.remote_static
  unfolding new
  new-guards config h e =
      let (_, p, e1) = bind_ok (check_psk config.pattern config.psk) _ h e in
      let (_, r, _) = bind_ok (check_remote config.role config.remote_static) _ h e1 in
      (psk_fits config.pattern config.psk p, remote_fits config.role config.remote_static r)
    where
      psk_fits : (p : Pattern) (psk : Option Bytes) → check_psk p psk ≡ ok tt → FitsPattern p psk
      psk_fits pairing none e = absurd (ground arith)
      psk_fits pairing (some secret) e = (secret, refl)
      psk_fits session none e = refl
      psk_fits session (some secret) e = absurd (ground arith)

      remote_fits : (r : Role) (s : Option Bytes) → check_remote r s ≡ ok tt → FitsRole r s
      remote_fits initiator none e = absurd (ground arith)
      remote_fits initiator (some static) e = (static, refl)
      remote_fits responder s e = tt
