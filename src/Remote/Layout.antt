-- ===== src/Remote/Layout.antt =====
-- Outputs that lie one behind the other in the remote blob.
use gocica.Base.{ℕ, ◌+◌, ◌≤◌, ◌≡◌, sym, subst, List, [], ◌∷◌, ◌++◌, arith, All}
use gocica.Proto.{ActionsOutput}

-- The outputs lie one behind the other, from `start` to `end`.
abbrev pub IsLayout : ℕ → List ActionsOutput → ℕ → Type 0
IsLayout start [] end = start ≡ end
IsLayout start (o ∷ os) end = (o.offset ≡ start) × IsLayout (start + o.size) os end

unfoldable pub total_size : List ActionsOutput → ℕ
total_size [] = 0
total_size (o ∷ os) = o.size + total_size os

pub IsLayout-append :
    (start middle end : ℕ) (xs ys : List ActionsOutput)
    → IsLayout start xs middle
    → IsLayout middle ys end
    → IsLayout start (xs ++ ys) end
IsLayout-append start middle end [] ys h k = subst (λ n. IsLayout n ys end) (sym h) k
IsLayout-append start middle end (x ∷ xs) ys h k =
    (h.0, IsLayout-append (start + x.size) middle end xs ys h.1 k)

pub end_le : (start end : ℕ) (os : List ActionsOutput) → IsLayout start os end → start ≤ end
end_le start end [] h = omega arith
end_le start end (o ∷ os) h = omega (arith, end_le (start + o.size) end os h.1)

-- No output passes the end.
pub IsLayout-fits :
    (start end : ℕ) (os : List ActionsOutput)
    → IsLayout start os end
    → All (λ o. o.offset + o.size ≤ end) os
IsLayout-fits start end [] h = tt
IsLayout-fits start end (o ∷ os) h =
    (omega (arith, end_le (start + o.size) end os h.1), IsLayout-fits (start + o.size) end os h.1)

pub total_size-append :
    (xs ys : List ActionsOutput) → total_size (xs ++ ys) ≡ total_size xs + total_size ys
unfolding total_size
total_size-append [] ys = omega arith
total_size-append (x ∷ xs) ys = omega (arith, total_size-append xs ys)
