-- ===== src/Wire/Match.antt =====
-- The `match` of a text against literals, as the `From<String>` impls of
-- agent/osprey-proto/src/generated/enums.rs write it.
use osprey.Prelude.{String, str_eq, eq_iff, ◌≡◌, if◌then◌else◌, List, [], ◌∷◌, All, arith}

-- The first arm whose literal is equal, else the last arm.
abbrev pub match_str {ℓ} : {A : Type ℓ} → String → List (String × A) → A → A
match_str raw [] other = other
match_str raw ((lit, a) ∷ arms) other = if str_eq raw lit then a else match_str raw arms other

-- Arms that each spell their literal, before a last arm that spells the text itself, lose nothing.
pub match_str-spells {ℓ} :
    {A : Type ℓ} (spell : A → String) (raw : String) (arms : List (String × A)) (other : A)
    → All (λ arm. spell (arm.1) ≡ arm.0) arms
    → spell other ≡ raw
    → spell (match_str raw arms other) ≡ raw
match_str-spells spell raw [] other h e = e
match_str-spells spell raw ((lit, a) ∷ arms) other h e =
    ground (arith, eq_iff raw lit, match_str-spells spell raw arms other h.1 e, h.0)
