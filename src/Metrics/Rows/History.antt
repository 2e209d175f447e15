-- ===== src/Metrics/Rows/History.antt =====
-- What happens to the gauges, and the records of each of them.
use gocica.Base.{
  ℕ, zero, suc, ◌+◌, ◌<◌, ◌≡◌, refl, ap, ap₂, sym, ◌∙◌, Bool-cases, inl, inr, List, [], ◌∷◌, ◌++◌,
  append-nil, String, length, All, ◌==◌, ==_iff, if◌then◌else◌, arith,
}
use gocica.Metrics.{Record, Gauge, add_at, new_gauge_value}

-- What the program does with its gauges, in the order in which it gets the locks.
pub data Event (F : Type 0) : Type 0 where
  made : String → Event F
  recorded : ℕ → F → String → Event F

module _ {F : Type 0} where
  -- The records of one gauge among those of all.
  unfoldable pub of_gauge : ℕ → List (ℕ × Record F) → List (Record F)
  of_gauge i [] = []
  of_gauge i ((j, r) ∷ rs) = let rest = of_gauge i rs in if j == i then r ∷ rest else rest

  unfoldable pub names : List (Event F) → List String
  names [] = []
  names (made name ∷ es) = name ∷ names es
  names (recorded g value label ∷ es) = names es

  -- A pointer is that of a gauge that was made before; `n` gauges are there.
  abbrev pub Pointed : ℕ → List (Event F) → Type 0
  Pointed n [] = Unit
  Pointed n (made name ∷ es) = Pointed (n + 1) es
  Pointed n (recorded g value label ∷ es) = (g < n) × Pointed n es

  -- The gauges of a history.
  unfoldable pub gauges_of : ℕ → List String → List (ℕ × Record F) → List (Gauge F)
  gauges_of i [] history = []
  gauges_of i (name ∷ ns) history =
      record { name = name; records = of_gauge i history } ∷ gauges_of (suc i) ns history

  of_gauge-append :
      (i : ℕ) (xs ys : List (ℕ × Record F)) → of_gauge i (xs ++ ys) ≡ of_gauge i xs ++ of_gauge i ys
  unfolding of_gauge
  of_gauge-append i [] ys = refl
  of_gauge-append i ((j, r) ∷ xs) ys = elim (Bool-cases (j == i)) [
    | inl e ↦ rw e (ap (◌∷◌ r) (of_gauge-append i xs ys))
    | inr e ↦ rw e (of_gauge-append i xs ys)
  ]

  of_gauge-other :
      (i j : ℕ) (r : Record F) (rs : List (ℕ × Record F))
      → (j ≡ i → ⊥)
      → of_gauge i ((j, r) ∷ rs) ≡ of_gauge i rs
  unfolding of_gauge
  of_gauge-other i j r rs other = elim (Bool-cases (j == i)) [
    | inl e ↦ absurd (other ((==_iff j i).0 e))
    | inr e ↦ rw e refl
  ]

  of_gauge-snoc_here :
      (i : ℕ) (r : Record F) (history : List (ℕ × Record F))
      → of_gauge i (history ++ (i, r) ∷ []) ≡ of_gauge i history ++ r ∷ []
  unfolding of_gauge
  of_gauge-snoc_here i r history =
      of_gauge-append i history ((i, r) ∷ [])
      ∙ ap (◌++◌ (of_gauge i history)) (rw ((==_iff i i).1 refl) refl)

  of_gauge-snoc_other :
      (i j : ℕ) (r : Record F) (history : List (ℕ × Record F))
      → (j ≡ i → ⊥)
      → of_gauge i (history ++ (j, r) ∷ []) ≡ of_gauge i history
  unfolding of_gauge
  of_gauge-snoc_other i j r history other =
      of_gauge-append i history ((j, r) ∷ [])
      ∙ ap (◌++◌ (of_gauge i history)) (of_gauge-other i j r [] other)
      ∙ append-nil (of_gauge i history)

  pub of_gauge-new :
      (n : ℕ) (history : List (ℕ × Record F)) → All (λ e. e.0 < n) history → of_gauge n history ≡ []
  unfolding of_gauge
  of_gauge-new n [] h = refl
  of_gauge-new n ((j, r) ∷ rs) h =
      of_gauge-other n j r rs (λ e. omega (arith, h.0, e)) ∙ of_gauge-new n rs h.1

  pub gauges_of-made :
      (i : ℕ) (ns : List String) (name : String) (history : List (ℕ × Record F))
      → of_gauge (i + length ns) history ≡ []
      → gauges_of i (ns ++ name ∷ []) history ≡ gauges_of i ns history ++ new_gauge_value name ∷ []
  unfolding gauges_of
  gauges_of-made i [] name history none_yet =
      ap (λ rs. record { name = name; records = rs } ∷ [])
        (ap (λ k. of_gauge k history) (omega arith) ∙ none_yet)
  gauges_of-made i (n ∷ ns) name history none_yet =
      ap (◌∷◌ (record { name = n; records = of_gauge i history })) (
        gauges_of-made (suc i) ns name history
          (ap (λ k. of_gauge k history) (omega arith) ∙ none_yet))

  -- A record of an earlier gauge changes none of those from `i` on.
  gauges_of-past :
      (i j : ℕ) (ns : List String) (r : Record F) (history : List (ℕ × Record F))
      → j < i
      → gauges_of i ns (history ++ (j, r) ∷ []) ≡ gauges_of i ns history
  unfolding gauges_of
  gauges_of-past i j [] r history past = refl
  gauges_of-past i j (n ∷ ns) r history past =
      ap₂ (λ rs gs. record { name = n; records = rs } ∷ gs)
        (of_gauge-snoc_other i j r history (λ e. omega (arith, past, e)))
        (gauges_of-past (suc i) j ns r history (omega (arith, past)))

  pub add_at-gauges_of :
      (i g : ℕ) (ns : List String) (r : Record F) (history : List (ℕ × Record F))
      → g < length ns
      → add_at g r (gauges_of i ns history) ≡ gauges_of i ns (history ++ (i + g, r) ∷ [])
  unfolding add_at gauges_of
  add_at-gauges_of i g [] r history h = absurd (omega (arith, h))
  add_at-gauges_of i zero (n ∷ ns) r history h =
      ap₂ (λ rs gs. record { name = n; records = rs } ∷ gs)
        (sym (
          ap (λ k. of_gauge i (history ++ (k, r) ∷ [])) (omega arith)
          ∙ of_gauge-snoc_here i r history))
        (sym (
          ap (λ k. gauges_of (suc i) ns (history ++ (k, r) ∷ [])) (omega arith)
          ∙ gauges_of-past (suc i) i ns r history (omega arith)))
  add_at-gauges_of i (suc g) (n ∷ ns) r history h =
      ap₂ (λ rs gs. record { name = n; records = rs } ∷ gs)
        (sym (of_gauge-snoc_other i (i + suc g) r history (λ e. omega (arith, e))))
        (add_at-gauges_of (suc i) g ns r history (omega (arith, h))
          ∙ ap (λ k. gauges_of (suc i) ns (history ++ (k, r) ∷ [])) (omega arith))
