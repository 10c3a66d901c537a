-- ===== src/Base/Lists.antt =====
-- Lists measured and indexed by native numbers, under the library's names.
use Prim.Native.Nat.{ℕ, zero, suc, ◌+◌, ◌≤◌, ◌<◌}
use Prim.Native.Char.{code}
use Prim.Native.String.{String}
use mathlib.Core.Path.{◌≡◌, refl, ap}
use mathlib.Core.Bool.{Bool, true, false, ◌&&◌}
use mathlib.Core.List.{List, [], ◌∷◌, ◌++◌}
use native.Mathlib.Omega.{arith}
use real_time_embedded_motio.Base.Tests.{◌==◌}

module _ {ℓ} {A : Type ℓ} where
  abbrev pub length : List A → ℕ
  length [] = 0
  length (x ∷ xs) = suc (length xs)

  pub length-append : (xs ys : List A) → length (xs ++ ys) ≡ length xs + length ys
  length-append [] ys = omega arith
  length-append (x ∷ xs) ys = omega (arith, length-append xs ys)

  abbrev pub take : ℕ → List A → List A
  take zero xs = []
  take (suc n) [] = []
  take (suc n) (x ∷ xs) = x ∷ take n xs

  abbrev pub All {κ} : (A → Type κ) → List A → Type κ
  All P [] = Unit
  All P (x ∷ xs) = P x × All P xs

module _ {ℓ} {A : Type ℓ} where
  pub length-take : (n : ℕ) (xs : List A) → length (take n xs) ≤ n
  length-take zero xs = omega arith
  length-take (suc n) [] = omega arith
  length-take (suc n) (x ∷ xs) = omega (arith, length-take n xs)

  -- A list that fits is taken whole.
  pub take_whole : (n : ℕ) (xs : List A) → length xs ≤ n → take n xs ≡ xs
  take_whole zero [] h = refl
  take_whole zero (x ∷ xs) h = absurd (omega arith)
  take_whole (suc n) [] h = refl
  take_whole (suc n) (x ∷ xs) h = ap (◌∷◌ x) (take_whole n xs (omega arith))

  -- One more element is taken while there is room.
  pub take-snoc_room :
      (n : ℕ) (xs : List A) (x : A)
      → length (take n xs) < n
      → take n (xs ++ (x ∷ [])) ≡ take n xs ++ (x ∷ [])
  take-snoc_room zero xs x h = absurd (omega arith)
  take-snoc_room (suc zero) [] x h = refl
  take-snoc_room (suc (suc n)) [] x h = refl
  take-snoc_room (suc n) (y ∷ xs) x h = ap (◌∷◌ y) (take-snoc_room n xs x (omega arith))

  pub take-snoc_full :
      (n : ℕ) (xs : List A) (x : A) → n ≤ length (take n xs) → take n (xs ++ (x ∷ [])) ≡ take n xs
  take-snoc_full zero xs x h = refl
  take-snoc_full (suc n) [] x h = absurd (omega arith)
  take-snoc_full (suc n) (y ∷ xs) x h = ap (◌∷◌ y) (take-snoc_full n xs x (omega arith))

-- The bytes of an ASCII text.
abbrev pub codes : String → List ℕ
codes String.[] = []
codes (String.◌∷◌ c s) = code c ∷ codes s

-- `memcmp` of two byte arrays of one length, with the test of the lengths.
abbrev pub same_bytes : List ℕ → List ℕ → Bool
same_bytes [] [] = true
same_bytes (a ∷ xs) (b ∷ ys) = a == b && same_bytes xs ys
same_bytes _ _ = false
