-- ===== src/Base/Go.antt =====
-- Go's error values, results with an error, and code that changes a state and may fail.
use gocica.Base.{◌≡◌, refl, ap, Bool, false, ◌||◌, String, str_eq, ◌⊎◌, inl, inr, List, [], ◌∷◌}

-- `sentinel` is a package-level error value such as io.EOF, `plain` an error with no cause,
-- `wrap` is `fmt.Errorf("…: %w", err)` and `join` is errors.Join. `panic` is a run-time panic.
pub data Error : Type 0 where
  sentinel plain : String → Error
  wrap : String → Error → Error
  join : Error → Error → Error
  panic : String → Error

-- errors.Is at a package-level error value
unfoldable pub is_error : Error → String → Bool
is_error (sentinel s) name = str_eq s name
is_error (plain s) name = false
is_error (wrap s e) name = is_error e name
is_error (join e f) name = is_error e name || is_error f name
is_error (panic s) name = false

abbrev pub eof : Error
eof = sentinel "EOF"

pub data Result {ℓ} (A : Type ℓ) : Type ℓ where
  ok : A → Result A
  err : Error → Result A

-- `if err != nil { return fmt.Errorf("what: %w", err) }`
abbrev pub wrapped {ℓ} : {A : Type ℓ} → String → Result A → Result A
wrapped what (ok a) = ok a
wrapped what (err e) = err (wrap what e)

pub Result-cases {ℓ} :
    {A : Type ℓ} (r : Result A) → ((a : A) × (r ≡ ok a)) ⊎ ((e : Error) × (r ≡ err e))
Result-cases (ok a) = inl (a, refl)
Result-cases (err e) = inr (e, refl)

-- `if err != nil { return err }`
abbrev pub and_then {ℓ κ} : {A : Type ℓ} {B : Type κ} → Result A → (A → Result B) → Result B
and_then (ok a) f = f a
and_then (err e) f = err e

-- Code over a state `S`: what was written before an error stays written.
abbrev pub Io {ℓ} : Type ℓ → Type ℓ → Type ℓ
Io S A = S → Result A × S

module _ {ℓ} {S A : Type ℓ} where
  abbrev pub pure : A → Io S A
  pure a s = (ok a, s)

  abbrev pub raise : Error → Io S A
  raise e s = (err e, s)

  abbrev pub lift : Result A → Io S A
  lift r s = (r, s)

  abbrev pub within : String → Io S A → Io S A
  within what m s = let (r, s') = m s in (wrapped what r, s')

module _ {ℓ} {S A B : Type ℓ} where
  abbrev pub continue : Result A → (A → Io S B) → Io S B
  continue (ok a) f s = f a s
  continue (err e) f s = (err e, s)

  infixl 5 ◌>>=◌ ◌>>◌
  abbrev pub ◌>>=◌ : Io S A → (A → Io S B) → Io S B
  ◌>>=◌ m f s = let (r, s') = m s in continue r f s'

  abbrev pub ◌>>◌ : Io S A → Io S B → Io S B
  m >> n = m >>= λ _. n

-- The first of two errors, if any.
abbrev pub first_error {ℓ} : {A : Type ℓ} → Result (Unit {0}) → Result A → Result A
first_error (ok _) r = r
first_error (err e) r = err e

-- golang.org/x/sync/errgroup as the code uses it: every task runs, in the order of the list that the
-- scheduler chose, and Wait returns the first error.
unfoldable pub wait_all : {S : Type 0} → List (Io S (Unit {0})) → Io S (Unit {0})
wait_all [] s = (ok tt, s)
wait_all (t ∷ ts) s =
    let (r, s1) = t s in let (rest, s2) = wait_all ts s1 in (first_error r rest, s2)

pub wrapped_ok {ℓ} :
    {A : Type ℓ} {a : A} (what : String) (r : Result A) → wrapped what r ≡ ok a → r ≡ ok a
wrapped_ok what (ok b) h = h
wrapped_ok what (err e) h = cc

pub first_error_ok {ℓ} :
    {A : Type ℓ} {a : A} (r : Result (Unit {0})) (q : Result A)
    → first_error r q ≡ ok a
    → (r ≡ ok tt) × (q ≡ ok a)
first_error_ok (ok _) q h = (refl, h)
first_error_ok (err e) q h = cc

pub and_then_ok {ℓ κ} :
    {A : Type ℓ} {B : Type κ} {b : B} (r : Result A) (f : A → Result B)
    → and_then r f ≡ ok b
    → (a : A) × (r ≡ ok a) × (f a ≡ ok b)
and_then_ok (ok a) f h = (a, refl, h)
and_then_ok (err e) f h = cc

pub ok-injective {ℓ} : {A : Type ℓ} (a b : A) → ok a ≡ ok b → a ≡ b
ok-injective a b h = cc

-- A block that returns got past its first call.
pub bind_ok {ℓ} :
    {S A B : Type ℓ} {b : B} (m : Io S A) (f : A → Io S B) (s : S)
    → ((m >>= f) s).0 ≡ ok b
    → (a : A) × ((m s).0 ≡ ok a) × ((m >>= f) s ≡ f a (m s).1) × ((f a (m s).1).0 ≡ ok b)
bind_ok m f s h = elim (Result-cases (m s).0) [
  | inl (a, e) ↦ (a, e, rw e, rw e at h)
  | inr (x, e) ↦ cc (rw e at h)
]

-- A call whose answer is looked at by a pure function.
pub bind-lift {ℓ} :
    {S A B : Type ℓ} (what : String) (m : Io S A) (f : A → Result B) (s : S)
    → ((within what m >>= λ a. lift (f a)) s).0 ≡ and_then (wrapped what (m s).0) f
bind-lift what m f s = elim (Result-cases (m s).0) [
  | inl (a, e) ↦ rw e refl
  | inr (x, e) ↦ rw e refl
]

-- A block whose first call returns goes on with the rest.
pub bind-at {ℓ} :
    {S A B : Type ℓ} {a : A} {t : S} (m : Io S A) (f : A → Io S B) (s : S)
    → m s ≡ (ok a, t)
    → (m >>= f) s ≡ f a t
bind-at m f s h = ap (λ r. continue r.0 f r.1) h
