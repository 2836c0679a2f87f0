-- ===== src/Wire/Registry/RoundTrip.antt =====
-- The spelling and the parsing of message types.
use osprey.Prelude.{
  String, str_eq, eq_iff, ◌≡◌, refl, ◌↔◌, Bool, true, Bool-cases, inl, inr, List, [], ◌∷◌, some,
  none, find, ok, arith, ok_or, Option,
}
use osprey.Wire.Registry.{MessageType, error, all_types, as_str, from_str}

-- What `find` returns passes its test.
find_sound {ℓ} : {A : Type ℓ} (p : A → Bool) (xs : List A) (a : A) → find p xs ≡ some a → p a ≡ true
find_sound p [] a h = cc
find_sound p (x ∷ xs) a h = elim (Bool-cases (p x)) [
  | inl e ↦ ground (arith)
  | inr e ↦ find_sound p xs a (rw e at h)
]

from_str-as_str : (t : MessageType) → from_str (as_str t) ≡ ok t
unfolding from_str
from_str-as_str error = refl
from_str-as_str _ = refl

ok_or-eq-ok {ℓ κ} :
    {E : Type κ} {A : Type ℓ} (e : E) (o : Option A) (a : A) → ok_or e o ≡ ok a → o ≡ some a
ok_or-eq-ok e none a h = cc
ok_or-eq-ok e (some b) a h = cc

from_str_sound : (s : String) (t : MessageType) → from_str s ≡ ok t → as_str t ≡ s
unfolding from_str
from_str_sound s t h =
    (eq_iff (as_str t) s).0
      (find_sound (λ c. str_eq (as_str c) s) all_types t (ok_or-eq-ok _ _ t h))

-- A text parses as a message type exactly when it is that type's spelling: the parser accepts every
-- registered type, and no two types share a spelling.
pub from_str_iff : (s : String) (t : MessageType) → (from_str s ≡ ok t) ↔ (as_str t ≡ s)
from_str_iff s t = (from_str_sound s t, λ e. rw (← e) (from_str-as_str t))
