-- ===== src/Identity/Laws.antt =====
-- What a pin guarantees, and that the messages that are signed and hashed are unambiguous.
use osprey.Prelude.{
  append_split, ◌<◌, ◌≡◌, refl, sym, ap, ◌∙◌, true, [], ◌∷◌, ◌++◌, append_assoc, All, length, Bytes,
  as_bytes, bytes_eq, eq_of_bytes_eq, ok, Bool-cases, Result-cases, inl, inr, eq_iff, arith,
}
use mathlib.Core.List.{append_cancel_left}
use osprey.Wire.IdentityAlgorithm.{IdentityAlgorithm, ed25519, p256, unknown, as_str}
use osprey.Identity.Algorithm.{Curves, verify_identity_signature-Signs, Signs}
use osprey.Identity.{
  PublicIdentity, PinnedPeer, pin, verify, accept_static, verify_self_consistent,
  verify_cross_signature, cross_sig_message, fingerprint_message, same_algorithm, fingerprint,
  fingerprint_context, cross_sig_context,
}

pub eq_of_same_algorithm : (a b : IdentityAlgorithm) → same_algorithm a b ≡ true → a ≡ b
unfolding same_algorithm
eq_of_same_algorithm ed25519 ed25519 h = refl
eq_of_same_algorithm p256 p256 h = refl
eq_of_same_algorithm (unknown a) (unknown b) h = ap unknown ((eq_iff a b).0 h)
eq_of_same_algorithm ed25519 p256 h = absurd (ground arith)
eq_of_same_algorithm ed25519 (unknown b) h = absurd (ground arith)
eq_of_same_algorithm p256 ed25519 h = absurd (ground arith)
eq_of_same_algorithm p256 (unknown b) h = absurd (ground arith)
eq_of_same_algorithm (unknown a) ed25519 h = absurd (ground arith)
eq_of_same_algorithm (unknown a) p256 h = absurd (ground arith)

module _ (curves : Curves) where
  -- A peer is pinned only if the pin passes the check that is made of it whenever it is loaded again.
  pub pin-verify :
      (public : PublicIdentity) (p : PinnedPeer)
      → pin curves public ≡ ok p
      → verify curves p ≡ ok tt
  unfolding pin verify verify_self_consistent
  pin-verify public p h = elim (Result-cases (verify_self_consistent curves public)) [
    | inl (_, e) ↦ ground (arith, e)
    | inr (_, e) ↦ absurd (ground (arith, e))
  ]

  cross-Signs :
      (algorithm : IdentityAlgorithm) (key static signature : Bytes)
      → verify_cross_signature curves algorithm key static signature ≡ ok tt
      → Signs curves algorithm key (cross_sig_message key static) signature
  unfolding verify_cross_signature
  cross-Signs algorithm key static signature h =
      (verify_identity_signature-Signs curves algorithm key (cross_sig_message key static) signature
        (ground arith)).1

  -- A pin that passes its check holds a known algorithm, a key of that algorithm's length, and a Noise
  -- static that the algorithm's curve verified to be signed, in its own domain, by that key.
  pub verify-Signs :
      (p : PinnedPeer)
      → verify curves p ≡ ok tt
      → Signs curves p.identity_algorithm p.identity_pub
          (cross_sig_message p.identity_pub p.noise_static_pub)
          p.noise_static_sig
  unfolding verify
  verify-Signs p h =
      cross-Signs p.identity_algorithm p.identity_pub p.noise_static_pub p.noise_static_sig h

  -- A rotation is accepted only from a bundle that names the pinned algorithm and the pinned key. It
  -- then changes the static and its signature to those of the bundle and nothing else: the fingerprint
  -- is unchanged, and the new pin passes its check.
  pub accept_static_lem :
      (sha256 : Bytes → Bytes) (p : PinnedPeer) (public : PublicIdentity) (p' : PinnedPeer)
      → accept_static curves p public ≡ ok p'
      → (public.identity_algorithm ≡ p.identity_algorithm)
        × (public.identity_pub ≡ p.identity_pub)
        × (p'.noise_static_pub ≡ public.noise_static_pub)
        × (p'.noise_static_sig ≡ public.noise_static_sig)
        × (fingerprint sha256 p' ≡ fingerprint sha256 p)
        × (verify curves p' ≡ ok tt)
  unfolding accept_static verify
  accept_static_lem sha256 p public p' h =
      elim (Bool-cases (same_algorithm public.identity_algorithm p.identity_algorithm)) [
        | inr other ↦ absurd (ground (arith, other))
        | inl same ↦ elim (Bool-cases (bytes_eq public.identity_pub p.identity_pub)) [
          | inr other ↦ absurd (ground (arith, same, other))
          | inl equal ↦
              elim (Result-cases (
                verify_cross_signature curves p.identity_algorithm p.identity_pub
                  public.noise_static_pub public.noise_static_sig)) [
                    | inr (_, e) ↦ absurd (ground (arith, same, equal, e))
                    | inl (_, e) ↦
                        let new : record p {
                          noise_static_pub = public.noise_static_pub;
                          noise_static_sig = public.noise_static_sig;
                        }
                            ≡ p' =
                          ground (arith, same, equal, e) in
                        (
                          eq_of_same_algorithm public.identity_algorithm p.identity_algorithm same,
                          eq_of_bytes_eq public.identity_pub p.identity_pub equal,
                          ap PinnedPeer.noise_static_pub (sym new),
                          ap PinnedPeer.noise_static_sig (sym new),
                          ap (fingerprint sha256) (sym new),
                          ap (verify curves) (sym new) ∙ e,
                        )
                  ]
        ]
      ]

split_at_nul :
    (a b k m : Bytes)
    → All (λ x. 0 < x) a
    → All (λ x. 0 < x) b
    → a ++ 0 ∷ k ≡ b ++ 0 ∷ m
    → (a ≡ b) × (k ≡ m)
split_at_nul [] [] k m f g h = ground arith
split_at_nul [] (y ∷ b) k m f g h = absurd (ground (arith, g.0))
split_at_nul (x ∷ a) [] k m f g h = absurd (ground (arith, f.0))
split_at_nul (x ∷ a) (y ∷ b) k m f g h =
    let (head, tail) : (x ≡ y) × (a ++ 0 ∷ k ≡ b ++ 0 ∷ m) = ground arith in
    let (e, r) = split_at_nul a b k m f.1 g.1 tail in ground (arith, head, e, r)

-- Two identities whose algorithm names hold no NUL byte and whose fingerprints hash the same message
-- have the same algorithm name and the same key.
pub fingerprint_message-injective :
    (a b : IdentityAlgorithm) (k m : Bytes)
    → All (λ x. 0 < x) (as_bytes (as_str a))
    → All (λ x. 0 < x) (as_bytes (as_str b))
    → fingerprint_message a k ≡ fingerprint_message b m
    → (as_bytes (as_str a) ≡ as_bytes (as_str b)) × (k ≡ m)
unfolding fingerprint_message
fingerprint_message-injective a b k m f g h =
    split_at_nul (as_bytes (as_str a)) (as_bytes (as_str b)) k m f g
      (append_cancel_left fingerprint_context _ _ (sym (drop_brackets a k) ∙ h ∙ drop_brackets b m))
  where
    drop_brackets :
        (c : IdentityAlgorithm) (key : Bytes)
        → fingerprint_context ++ as_bytes (as_str c) ++ (0 ∷ []) ++ key
          ≡ fingerprint_context ++ (as_bytes (as_str c) ++ 0 ∷ key)
    drop_brackets c key = simp append_assoc

-- Two cross-certificates over keys of one length cover the same bytes only if both the keys and the
-- statics are the same.
pub cross_sig_message-injective :
    (key key' static static' : Bytes)
    → length key ≡ length key'
    → cross_sig_message key static ≡ cross_sig_message key' static'
    → (key ≡ key') × (static ≡ static')
unfolding cross_sig_message
cross_sig_message-injective key key' static static' l h = append_split key key' static static' l (
    append_cancel_left cross_sig_context _ _ (
      sym (append_assoc cross_sig_context key static)
      ∙ h
      ∙ append_assoc cross_sig_context key' static'))
