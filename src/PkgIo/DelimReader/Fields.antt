-- ===== src/PkgIo/DelimReader/Fields.antt =====
-- The fields of a text: what stands between its delimiters and is not empty.
use gocica.Base.{
  ℕ, zero, suc, ◌≤◌, ◌<◌, ◌-◌, ◌≡◌, refl, sym, ap, subst, ◌∙◌, inl, inr, true, false, Bool-cases,
  List, [], ◌∷◌, ◌++◌, Option, none, some, Bytes, length, take, drop, ◌==◌, ==_iff, if◌then◌else◌,
  arith, All,
}
use gocica.PkgIo.DelimReader.{index_byte, shifted}

-- The field at the front, and what is behind it and its delimiter.
abbrev pub head_field : ℕ → Bytes → Bytes
head_field c [] = []
head_field c (b ∷ bs) = if b == c then [] else b ∷ head_field c bs

abbrev pub after_field : ℕ → Bytes → Bytes
after_field c [] = []
after_field c (b ∷ bs) = if b == c then bs else after_field c bs

abbrev pub skip_delims : ℕ → Bytes → Bytes
skip_delims c [] = []
skip_delims c (b ∷ bs) = if b == c then skip_delims c bs else b ∷ bs

-- A byte more in front of the first of the pieces.
abbrev grow : ℕ → List Bytes → List Bytes
grow b [] = (b ∷ []) ∷ []
grow b (p ∷ ps) = (b ∷ p) ∷ ps

-- The text cut at every delimiter.
unfoldable pub split : ℕ → Bytes → List Bytes
split c [] = [] ∷ []
split c (b ∷ bs) = let rest = split c bs in if b == c then [] ∷ rest else grow b rest

abbrev pub add_piece : Bytes → List Bytes → List Bytes
add_piece [] ps = ps
add_piece (b ∷ bs) ps = (b ∷ bs) ∷ ps

abbrev pub filled : List Bytes → List Bytes
filled [] = []
filled (p ∷ ps) = add_piece p (filled ps)

unfoldable pub fields : ℕ → Bytes → List Bytes
unfolding split
fields c bs = filled (split c bs)

abbrev pub Plain : ℕ → Bytes → Type 0
Plain c bs = All (λ b. (b == c) ≡ false) bs

shifted-some : (o : Option ℕ) (i : ℕ) → shifted o ≡ some i → (j : ℕ) × (o ≡ some j) × (i ≡ suc j)
shifted-some none i h = cc
shifted-some (some j) i h = (j, refl, cc)

shifted-none : (o : Option ℕ) → shifted o ≡ none → o ≡ none
shifted-none none h = refl
shifted-none (some j) h = cc

abbrev FoundAt : ℕ → Bytes → ℕ → Type 0
FoundAt c bs i = (bs ≡ take i bs ++ c ∷ drop (suc i) bs) × Plain c (take i bs)

-- Where the delimiter is found.
pub index_byte-some : (c : ℕ) (bs : Bytes) (i : ℕ) → index_byte bs c ≡ some i → FoundAt c bs i
unfolding index_byte
index_byte-some c [] i h = cc
index_byte-some c (b ∷ bs) i h = elim (Bool-cases (b == c)) [
  | inl e ↦
      let z : 0 ≡ i = cc (rw e at h) in
      subst (FoundAt c (b ∷ bs)) z (ap (λ d. d ∷ bs) ((==_iff b c).0 e), tt)
  | inr e ↦
      let (j, there, eq) = shifted-some (index_byte bs c) i (rw e at h) in
      let (split_at, plain) = index_byte-some c bs j there in
      subst (FoundAt c (b ∷ bs)) (sym eq) (ap (◌∷◌ b) split_at, (e, plain))
]

pub index_byte-none : (c : ℕ) (bs : Bytes) → index_byte bs c ≡ none → Plain c bs
unfolding index_byte
index_byte-none c [] h = tt
index_byte-none c (b ∷ bs) h = elim (Bool-cases (b == c)) [
  | inl e ↦ absurd (cc (rw e at h))
  | inr e ↦ (e, index_byte-none c bs (shifted-none (index_byte bs c) (rw e at h)))
]

-- A delimiter that is found in the first bytes is the first one of all.
pub index_byte-take :
    (c n : ℕ) (bs : Bytes) (i : ℕ)
    → index_byte (take n bs) c ≡ some i
    → (index_byte bs c ≡ some i) × (i < n)
unfolding index_byte
index_byte-take c zero bs i h = cc
index_byte-take c (suc n) [] i h = cc
index_byte-take c (suc n) (b ∷ bs) i h = elim (Bool-cases (b == c)) [
  | inl e ↦ let z : 0 ≡ i = cc (rw e at h) in (rw e (ap some z), omega (arith, z))
  | inr e ↦
      let (j, there, eq) = shifted-some (index_byte (take n bs) c) i (rw e at h) in
      let (found, below) = index_byte-take c n bs j there in
      (rw (e, found) (ap some (sym eq)), omega (arith, below, eq))
]

-- A piece without the delimiter in front.
pub head_field-append :
    (c : ℕ) (p bs : Bytes) → Plain c p → head_field c (p ++ bs) ≡ p ++ head_field c bs
head_field-append c [] bs h = refl
head_field-append c (b ∷ p) bs h = rw h.0 (ap (◌∷◌ b) (head_field-append c p bs h.1))

pub after_field-append :
    (c : ℕ) (p bs : Bytes) → Plain c p → after_field c (p ++ bs) ≡ after_field c bs
after_field-append c [] bs h = refl
after_field-append c (b ∷ p) bs h = rw h.0 (after_field-append c p bs h.1)

pub fields-skip : (c : ℕ) (bs : Bytes) → fields c (skip_delims c bs) ≡ fields c bs
unfolding fields split
fields-skip c [] = refl
fields-skip c (b ∷ bs) = elim (Bool-cases (b == c)) [
  | inl e ↦ rw (e, split) (fields-skip c bs)
  | inr e ↦ ap (fields c) {y = b ∷ bs} (rw e refl)
]

-- The pieces are the first field and those of what is behind it.
split_head :
    (c : ℕ) (bs : Bytes)
    → (ps : List Bytes) × (split c bs ≡ head_field c bs ∷ ps)
      × (filled ps ≡ fields c (after_field c bs))
unfolding fields split
split_head c [] = ([], refl, refl)
split_head c (b ∷ bs) = elim (Bool-cases (b == c)) [
  | inl e ↦ (split c bs, rw e refl, rw e refl)
  | inr e ↦ let (ps, here, rest) = split_head c bs in (ps, rw (e, here) refl, rw e rest)
]

pub fields-head :
    (c b : ℕ) (bs : Bytes)
    → (b == c) ≡ false
    → fields c (b ∷ bs) ≡ head_field c (b ∷ bs) ∷ fields c (after_field c (b ∷ bs))
unfolding fields
fields-head c b bs h =
    let (ps, here, rest) = split_head c (b ∷ bs) in
    ap filled here ∙ rw (h) (ap (◌∷◌ (b ∷ head_field c bs)) (rw h at rest))

-- A piece that is not empty is not skipped.
pub skip_delims-Plain :
    (c : ℕ) (p bs : Bytes) → Plain c p → 0 < length p → skip_delims c (p ++ bs) ≡ p ++ bs
skip_delims-Plain c [] bs h k = absurd (omega arith)
skip_delims-Plain c (b ∷ p) bs h k = rw h.0 refl

pub at_delim :
    (c : ℕ) (bs : Bytes)
    → (head_field c (c ∷ bs) ≡ [])
      × (after_field c (c ∷ bs) ≡ bs)
      × (skip_delims c (c ∷ bs) ≡ skip_delims c bs)
at_delim c bs = let e = (==_iff c c).1 refl in (rw e refl, rw e refl, rw e refl)

pub skip_delims-length : (c : ℕ) (bs : Bytes) → length (skip_delims c bs) ≤ length bs
skip_delims-length c [] = omega arith
skip_delims-length c (b ∷ bs) = elim (Bool-cases (b == c)) [
  | inl e ↦ rw e (omega (arith, skip_delims-length c bs))
  | inr e ↦ rw e (omega arith)
]

pub after_field-length : (c : ℕ) (bs : Bytes) → length (after_field c bs) ≤ length bs - 1
after_field-length c [] = omega arith
after_field-length c (b ∷ bs) = elim (Bool-cases (b == c)) [
  | inl e ↦ rw e (omega arith)
  | inr e ↦ rw e (omega (arith, after_field-length c bs))
]

pub skip_delims_idem : (c : ℕ) (bs : Bytes) → skip_delims c (skip_delims c bs) ≡ skip_delims c bs
skip_delims_idem c [] = refl
skip_delims_idem c (b ∷ bs) = elim (Bool-cases (b == c)) [
  | inl e ↦ rw e (skip_delims_idem c bs)
  | inr e ↦
      ap (skip_delims c) {x = if b == c then skip_delims c bs else b ∷ bs} {y = b ∷ bs} (rw e refl)
]

-- Behind an empty field the same text is ahead.
pub skip-after_field :
    (c : ℕ) (bs : Bytes)
    → head_field c bs ≡ []
    → skip_delims c (after_field c bs) ≡ skip_delims c bs
skip-after_field c [] h = refl
skip-after_field c (b ∷ bs) h = elim (Bool-cases (b == c)) [
  | inl e ↦ rw e refl
  | inr e ↦ absurd (cc (rw e at h))
]

pub fields-delim : (c b : ℕ) (bs : Bytes) → (b == c) ≡ true → fields c (b ∷ bs) ≡ fields c bs
unfolding fields split
fields-delim c b bs e = rw e refl

-- The first field and the others.
pub fields-front :
    (c : ℕ) (bs : Bytes)
    → add_piece (head_field c (skip_delims c bs)) (fields c (after_field c (skip_delims c bs)))
      ≡ fields c bs
fields-front c [] = refl
fields-front c (b ∷ bs) = elim (Bool-cases (b == c)) [
  | inl e ↦ rw e (fields-front c bs ∙ sym (fields-delim c b bs e))
  | inr e ↦
      let k : skip_delims c (b ∷ bs) ≡ b ∷ bs = rw e refl in
      let h : head_field c (b ∷ bs) ≡ b ∷ head_field c bs = rw e refl in
      let others = fields c (after_field c (b ∷ bs)) in
      ap (λ s. add_piece (head_field c s) (fields c (after_field c s))) k
      ∙ ap (λ p. add_piece p others) h
      ∙ ap (λ p. p ∷ others) (sym h)
      ∙ sym (fields-head c b bs e)
]

pub head_field-length : (c : ℕ) (bs : Bytes) → length (head_field c bs) ≤ length bs
head_field-length c [] = omega arith
head_field-length c (b ∷ bs) = elim (Bool-cases (b == c)) [
  | inl e ↦ rw e (omega arith)
  | inr e ↦ rw e (omega (arith, head_field-length c bs))
]
