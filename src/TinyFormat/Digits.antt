-- ===== src/TinyFormat/Digits.antt =====
-- What `integer` writes: the decimal digits of its number, in at most ten places.
use real_time_embedded_motio.Base.{
  ℕ, zero, suc, ◌+◌, ◌-◌, ◌*◌, ◌/◌, ◌%◌, ◌^◌, ◌≤◌, ◌<◌, ◌≡◌, refl, Bool, true, ◌&&◌, some, List, [],
  ◌∷◌, ◌++◌, arith, leb, length, length-append,
}
use native.Mathlib.Decide.{dec_lt}
use native.Mathlib.Nat.{pow-suc}
use mathlib.Core.List.{reverse, reverse-cons}
use real_time_embedded_motio.TinyFormat.{digits}

-- The number that a text of digits stands for, after a number `v` read so far.
unfoldable pub decimal : ℕ → List ℕ → ℕ
decimal v [] = v
decimal v (c ∷ cs) = decimal (v * 10 + (c - b'0')) cs

unfoldable pub all_digits : List ℕ → Bool
all_digits [] = true
all_digits (c ∷ cs) = leb b'0' c && leb c b'9' && all_digits cs

pub decimal-append : (v : ℕ) (xs ys : List ℕ) → decimal v (xs ++ ys) ≡ decimal (decimal v xs) ys
unfolding decimal
decimal-append v [] ys = refl
decimal-append v (x ∷ xs) ys = decimal-append (v * 10 + (x - b'0')) xs ys

pub all_digits-append : (xs ys : List ℕ) → all_digits (xs ++ ys) ≡ (all_digits xs && all_digits ys)
unfolding all_digits
all_digits-append [] ys = refl
all_digits-append (x ∷ xs) ys = ground (arith, all_digits-append xs ys)

-- The digits of a number that fits in `room` places, the lowest first.
pub record Spells (room value : ℕ) (ds : List ℕ) : Type 0 where
  pub written : digits room value ≡ some ds
  pub stands_for : decimal 0 (reverse ds) ≡ value
  pub are_digits : all_digits (reverse ds) ≡ true
  pub fit : length (reverse ds) ≤ room
  pub some_digit : 0 < length (reverse ds)

pub Spells-last : (room value : ℕ) → value < 10 → Spells (suc room) value ((b'0' + value % 10) ∷ [])
unfolding digits decimal all_digits
Spells-last room value h = record {
  written = ground arith;
  stands_for = omega arith;
  are_digits = ground arith;
  fit = omega arith;
  some_digit = omega arith;
}

last_digit : (value : ℕ) → decimal (value / 10) ((b'0' + value % 10) ∷ []) ≡ value
unfolding decimal
last_digit value = omega arith

is_digit : (value : ℕ) → all_digits ((b'0' + value % 10) ∷ []) ≡ true
unfolding all_digits
is_digit value = ground arith

Spells-cons :
    (room value : ℕ) (ds : List ℕ)
    → 10 ≤ value
    → Spells room (value / 10) ds
    → Spells (suc room) value ((b'0' + value % 10) ∷ ds)
unfolding digits
Spells-cons room value ds h s =
    let c : ℕ = b'0' + value % 10 in
    let tail = reverse-cons c ds in
    record {
      written = ground arith;
      stands_for =
          rw (tail, decimal-append 0 (reverse ds) (c ∷ []), s.stands_for) (last_digit value);
      are_digits =
          rw (tail, all_digits-append (reverse ds) (c ∷ []), s.are_digits) (is_digit value);
      fit = rw (tail, length-append (reverse ds) (c ∷ [])) (omega arith);
      some_digit = rw (tail, length-append (reverse ds) (c ∷ [])) (omega arith);
    }

positive : (room value : ℕ) → ¬ (value < 10) → value < 10 ^ suc room → 0 < room
positive zero value large h = absurd (large h)
positive (suc room) value large h = omega arith

-- Every number below 10 ^ room has its digits in `room` places.
pub digits-Spells :
    (room value : ℕ) → 0 < room → value < 10 ^ room → (ds : List ℕ) × Spells room value ds
digits-Spells zero value p h = absurd (omega arith)
digits-Spells (suc room) value p h = elim (dec_lt value 10) [
  | yes small ↦ ((b'0' + value % 10) ∷ [], Spells-last room value small)
  | no large ↦
      let bound : value / 10 < 10 ^ room = omega (arith, pow-suc 10 room) in
      let (ds, s) = digits-Spells room (value / 10) (positive room value large h) bound in
      ((b'0' + value % 10) ∷ ds, Spells-cons room value ds (omega arith) s)
]
