-- ===== src/Base/Slices.antt =====
-- Ranges of a sequence.
use Prim.Native.Nat.{ℕ, zero, suc, ◌+◌, ◌-◌, ◌≤◌}
use mathlib.Core.Path.{◌≡◌, refl, ap, sym, ◌∙◌}
use mathlib.Core.List.{List, [], ◌∷◌, ◌++◌}
use Prim.Native.Nat.add
use native.Mathlib.Omega.{arith}
use gocica.Base.Lists.{
  length, take, drop, slice, take-nil, drop-nil, take-add, drop-add, take-length-append,
  drop-length-append, length-take, length-drop,
}

sub_zero : (n : ℕ) → n ≡ n - 0
sub_zero n = omega arith

sub_suc : (n m : ℕ) → n - m ≡ suc n - suc m
sub_suc n m = omega arith

zero_sub : (m : ℕ) → 0 ≡ 0 - m
zero_sub m = omega arith

module _ {ℓ} {A : Type ℓ} where
  -- Two neighbouring ranges join.
  pub slice-add :
      (offset m n : ℕ) (xs : List A)
      → slice offset (m + n) xs ≡ slice offset m xs ++ slice (offset + m) n xs
  slice-add offset m n xs =
      take-add m n (drop offset xs)
      ∙ ap (λ ys. slice offset m xs ++ take n ys) (sym (drop-add offset m xs))

  take-take : (m n : ℕ) (xs : List A) → m ≤ n → take m (take n xs) ≡ take m xs
  take-take zero n xs h = refl
  take-take (suc m) zero xs h = absurd (omega arith)
  take-take (suc m) (suc n) [] h = refl
  take-take (suc m) (suc n) (x ∷ xs) h = ap (◌∷◌ x) (take-take m n xs (omega arith))

  drop-take : (m n : ℕ) (xs : List A) → drop m (take (m + n) xs) ≡ take n (drop m xs)
  drop-take zero n xs = let e : 0 + n ≡ n = omega arith in ap (λ k. take k xs) e
  drop-take (suc m) n [] = rw (take-nil, drop-nil, take-nil)
  drop-take (suc m) n (x ∷ xs) = rw add.suc (drop-take m n xs)

  -- A range of a range.
  pub slice-slice :
      (start total offset size : ℕ) (xs : List A)
      → offset + size ≤ total
      → slice offset size (slice start total xs) ≡ slice (start + offset) size xs
  slice-slice start total offset size xs h =
      let e : total ≡ offset + (total - offset) = omega arith in
      ap (λ k. take size (drop offset (take k (drop start xs)))) e
      ∙ ap (take size) (drop-take offset (total - offset) (drop start xs))
      ∙ take-take size (total - offset) (drop offset (drop start xs)) (omega arith)
      ∙ ap (take size) (sym (drop-add start offset xs))

  -- The range that a part of a sequence takes up.
  pub slice_middle :
      (n m : ℕ) (before part after : List A)
      → length before ≡ n
      → length part ≡ m
      → slice n m (before ++ (part ++ after)) ≡ part
  slice_middle n m before part after h k =
      rw (← h, ← k)
        (ap (take (length part)) (drop-length-append before (part ++ after))
          ∙ take-length-append part after)

  take-append_left : (n : ℕ) (xs ys : List A) → n ≤ length xs → take n (xs ++ ys) ≡ take n xs
  take-append_left zero xs ys h = refl
  take-append_left (suc n) [] ys h = absurd (omega arith)
  take-append_left (suc n) (x ∷ xs) ys h = ap (◌∷◌ x) (take-append_left n xs ys (omega arith))

  drop-append_left : (n : ℕ) (xs ys : List A) → n ≤ length xs → drop n (xs ++ ys) ≡ drop n xs ++ ys
  drop-append_left zero xs ys h = refl
  drop-append_left (suc n) [] ys h = absurd (omega arith)
  drop-append_left (suc n) (x ∷ xs) ys h = drop-append_left n xs ys (omega arith)

  -- A range that ends before the first part does.
  pub slice-append_left :
      (n m : ℕ) (xs ys : List A) → n + m ≤ length xs → slice n m (xs ++ ys) ≡ slice n m xs
  slice-append_left n m xs ys h =
      ap (take m) (drop-append_left n xs ys (omega arith))
      ∙ take-append_left m (drop n xs) ys (omega (arith, length-drop n xs))

  -- A range behind the first part.
  pub slice-append_right :
      (n m : ℕ) (xs ys : List A) → slice (length xs + n) m (xs ++ ys) ≡ slice n m ys
  slice-append_right n m xs ys =
      ap (take m) (drop-add (length xs) n (xs ++ ys) ∙ ap (drop n) (drop-length-append xs ys))

  pub length-slice : (n m : ℕ) (xs : List A) → n + m ≤ length xs → length (slice n m xs) ≡ m
  length-slice n m xs h = omega (arith, length-take m (drop n xs), length-drop n xs)

  pub take_past : (n : ℕ) (xs : List A) → length xs ≤ n → take n xs ≡ xs
  take_past zero [] h = refl
  take_past zero (x ∷ xs) h = absurd (omega arith)
  take_past (suc n) [] h = refl
  take_past (suc n) (x ∷ xs) h = ap (◌∷◌ x) (take_past n xs (omega arith))

  pub drop_past : (n : ℕ) (xs : List A) → length xs ≤ n → drop n xs ≡ []
  drop_past zero [] h = refl
  drop_past zero (x ∷ xs) h = absurd (omega arith)
  drop_past (suc n) [] h = refl
  drop_past (suc n) (x ∷ xs) h = drop_past n xs (omega arith)

  pub take-append :
      (n : ℕ) (xs ys : List A) → take n (xs ++ ys) ≡ take n xs ++ take (n - length xs) ys
  take-append n [] ys = rw take-nil (ap (λ k. take k ys) (sub_zero n))
  take-append zero (x ∷ xs) ys = ap (λ k. take k ys) (zero_sub (suc (length xs)))
  take-append (suc n) (x ∷ xs) ys =
      ap (◌∷◌ x) (take-append n xs ys ∙ ap (λ k. take n xs ++ take k ys) (sub_suc n (length xs)))

  pub drop-append :
      (n : ℕ) (xs ys : List A) → drop n (xs ++ ys) ≡ drop n xs ++ drop (n - length xs) ys
  drop-append n [] ys = rw drop-nil (ap (λ k. drop k ys) (sub_zero n))
  drop-append zero (x ∷ xs) ys = ap (λ k. (x ∷ xs) ++ drop k ys) (zero_sub (suc (length xs)))
  drop-append (suc n) (x ∷ xs) ys =
      drop-append n xs ys ∙ ap (λ k. drop n xs ++ drop k ys) (sub_suc n (length xs))
