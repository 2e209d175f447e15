-- ===== src/Local/Paths.antt =====
-- The names of the files of the objects.
use Prim.Native.Char.{Char, code}
use Prim.Native.String.{String}
use text.Mathlib.TextEquality.{Char-path}
use gocica.Base.{ℕ, ◌≡◌, refl, ap₂, ◌∙◌, sym, false, Bool-cases, inl, inr, ◌==◌, ==_iff}
use gocica.Local.{encode_char, encode_id}

-- No character of a text has a code.
abbrev pub Without : ℕ → String → Type 0
Without n String.[] = Unit
Without n (String.◌∷◌ c s) = ((code c == n) ≡ false) × Without n s

encode_char_slash : (c : Char) → (code (encode_char c) == b'/') ≡ false
encode_char_slash c = elim (Bool-cases (code c == b'/')) [
  | inl e ↦ rw e refl
  | inr e ↦ rw (e, encode_char) e
]

encode_char-injective :
    (c d : Char)
    → (code c == b'-') ≡ false
    → (code d == b'-') ≡ false
    → encode_char c ≡ encode_char d
    → c ≡ d
encode_char-injective c d h k e = elim (Bool-cases (code c == b'/')) [
  | inl slash ↦ elim (Bool-cases (code d == b'/')) [
    | inl slash' ↦
        Char-path c d ((==_iff (code c) b'/').0 slash ∙ sym ((==_iff (code d) b'/').0 slash'))
    | inr other ↦ absurd (cc (rw (slash, other) at e, k))
  ]
  | inr other ↦ elim (Bool-cases (code d == b'/')) [
    | inl slash ↦ absurd (cc (rw (other, slash) at e, h))
    | inr other' ↦ rw (other, other') at e
  ]
]

-- The name of an object's file has no slash, so the file lies in the root directory itself.
pub encode_id-Without : (id : String) → Without b'/' (encode_id id)
unfolding encode_id
encode_id-Without String.[] = tt
encode_id-Without (String.◌∷◌ c id) = (encode_char_slash c, encode_id-Without id)

-- Two ids without a dash have different files.
pub encode_id-injective :
    (a b : String) → Without b'-' a → Without b'-' b → encode_id a ≡ encode_id b → a ≡ b
unfolding encode_id
encode_id-injective String.[] String.[] h k e = refl
encode_id-injective String.[] (String.◌∷◌ d b) h k e = cc
encode_id-injective (String.◌∷◌ c a) String.[] h k e = cc
encode_id-injective (String.◌∷◌ c a) (String.◌∷◌ d b) h k e =
    let first : encode_char c ≡ encode_char d = cc in
    let others : encode_id a ≡ encode_id b = cc in
    ap₂ String.◌∷◌ (encode_char-injective c d h.0 k.0 first)
      (encode_id-injective a b h.1 k.1 others)
