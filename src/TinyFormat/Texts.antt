-- ===== src/TinyFormat/Texts.antt =====
-- What `integer` and `real` write, and how long it is.
use real_time_embedded_motio.Base.{
  ℕ, zero, suc, ◌+◌, ◌-◌, ◌/◌, ◌%◌, ◌≤◌, ◌<◌, ◌≡◌, refl, ap, inl, inr, false, List, [], ◌∷◌, ◌++◌,
  arith, leb, ltb, length, length-append, Bool-cases, ℤ, pos, negsuc,
}
use mathlib.Core.List.{reverse, reverse-cons}
use real_time_embedded_motio.Float.{Float}
use real_time_embedded_motio.TinyFormat.{Writer, character, integer, signed_integer, zeros}
use real_time_embedded_motio.TinyFormat.Digits.{digits-Spells, Spells-last}
use real_time_embedded_motio.TinyFormat.Appends.{
  Appends, Appends-append, character-Appends, write_all-Appends,
}
use real_time_embedded_motio.TinyFormat.Real.{Scaled, write_scaled, write_rounded}

-- The text that an operation writes into an empty buffer of 80 bytes.
unfoldable pub text_by : (Writer → Writer) → List ℕ
text_by g = (g (record { text = []; capacity = 80; failed = false })).text

-- An operation that appends a text of at most `n` bytes.
pub record Bounded (n : ℕ) (g : Writer → Writer) : Type 0 where
  pub text : List ℕ
  pub short : length text ≤ n
  pub appends : Appends text g

pub text_by-Appends :
    (n : ℕ) (g : Writer → Writer)
    → n < 80
    → Bounded n g
    → Appends (text_by g) g × (length (text_by g) ≤ n)
unfolding text_by
text_by-Appends n g h b =
    let e =
      b.appends.fits (record { text = []; capacity = 80; failed = false }) refl
        (omega (arith, b.short)) in
    let same = ap (λ (w : Writer). w.text) e in rw same (b.appends, b.short)

pub Bounded-append :
    (m n : ℕ) (g h : Writer → Writer) → Bounded m g → Bounded n h → Bounded (m + n) (λ w. h (g w))
Bounded-append m n g h a b = record {
  text = a.text ++ b.text;
  short = omega (arith, a.short, b.short, length-append a.text b.text);
  appends = Appends-append a.text b.text g h a.appends b.appends;
}

pub Bounded-character : (c : ℕ) → Bounded 1 (λ w. character w c)
Bounded-character c = record { text = c ∷ []; short = omega arith; appends = character-Appends c }

length-zeros : (n : ℕ) → length (zeros n) ≡ n
length-zeros zero = refl
length-zeros (suc n) = ap suc (length-zeros n)

length-reverse : (xs : List ℕ) → length (reverse xs) ≡ length xs
length-reverse [] = refl
length-reverse (x ∷ xs) =
    rw (reverse-cons x xs) (omega (arith, length-append (reverse xs) (x ∷ []), length-reverse xs))

-- At most ten digits, and as many as the width asks for.
pub Bounded-integer :
    (value width : ℕ) → value < 10000000000 → width ≤ 10 → Bounded 10 (λ w. integer w value width)
unfolding integer
Bounded-integer value width h r =
    let (ds, s) = digits-Spells 10 value (omega arith) h in
    let padding = zeros (width - length ds) in
    record {
      text = padding ++ reverse ds;
      short = omega (
        arith,
        s.fit,
        length-reverse ds,
        length-zeros (width - length ds),
        length-append padding (reverse ds),
      );
      appends = rw s.written (write_all-Appends (padding ++ reverse ds));
    }

-- A digit, with no padding.
Bounded-digit : (value : ℕ) → value < 10 → Bounded 1 (λ w. integer w value 1)
unfolding integer
Bounded-digit value h =
    let s = Spells-last 9 value h in
    record {
      text = (b'0' + value % 10) ∷ [];
      short = omega arith;
      appends = rw s.written (write_all-Appends ((b'0' + value % 10) ∷ []));
    }

pub Bounded-signed_integer :
    (z : ℤ) (width : ℕ)
    → elim z [ pos n ↦ n | negsuc n ↦ suc n ] < 10000000000
    → width ≤ 10
    → Bounded 11 (λ w. signed_integer w z width)
unfolding signed_integer
Bounded-signed_integer (pos n) width h r =
    let b = Bounded-integer n width h r in
    record { text = b.text; short = omega (arith, b.short); appends = b.appends }
Bounded-signed_integer (negsuc n) width h r =
    Bounded-append 1 10 _ _ (Bounded-character b'-') (Bounded-integer (suc n) width h r)

Bounded-write_scaled :
    (scaled raised lowered : ℕ)
    → scaled < 1000000
    → raised ≤ 1000
    → lowered ≤ 1000
    → Bounded 24 (λ w. write_scaled scaled raised lowered w)
unfolding write_scaled
Bounded-write_scaled scaled raised lowered h r l =
    let b1 = Bounded-digit (scaled / 100000) (omega arith) in
    let b2 = Bounded-append 1 1 _ _ b1 (Bounded-character b'.') in
    let b3 =
      Bounded-append 2 10 _ _ b2
        (Bounded-integer (scaled % 100000) 5 (omega arith) (omega arith)) in
    let b4 = Bounded-append 12 1 _ _ b3 (Bounded-character b'e') in
    elim (Bool-cases (ltb raised lowered)) [
      | inl e ↦ rw e (
          Bounded-append 14 10 _ _ (Bounded-append 13 1 _ _ b4 (Bounded-character b'-'))
            (Bounded-integer (lowered - raised) 2 (omega arith) (omega arith)))
      | inr e ↦ rw e (
          Bounded-append 14 10 _ _ (Bounded-append 13 1 _ _ b4 (Bounded-character b'+'))
            (Bounded-integer (raised - lowered) 2 (omega arith) (omega arith)))
    ]

module _ {R : Type 0} ⦃f : Float R⦄ (to_u32 : R → ℕ) where
  pub Bounded-write_rounded :
      (s : Scaled R) → s.raised ≤ 400 → s.lowered ≤ 400 → Bounded 24 (λ w. write_rounded to_u32 s w)
  unfolding write_rounded
  Bounded-write_rounded s r l =
      let scaled : ℕ =
        to_u32 (f.add (f.mul s.value (f.literal (pos 100000) 0)) (f.literal (pos 5) 1)) in
      elim (Bool-cases (leb 1000000 scaled)) [
        | inl e ↦ rw e (
            Bounded-write_scaled 100000 (s.raised + 1) s.lowered (omega arith) (omega arith)
              (omega arith))
        | inr e ↦ rw e (
            Bounded-write_scaled scaled s.raised s.lowered (ground (arith, e)) (omega arith)
              (omega arith))
      ]
