-- ===== src/TinyFormat/Appends.antt =====
-- Every operation of the writer appends one text, or fails and keeps inside the buffer.
use real_time_embedded_motio.Base.{
  ℕ, ◌+◌, ◌≤◌, ◌<◌, ◌≡◌, refl, sym, ap, ◌∙◌, inl, inr, true, false, List, [], ◌∷◌, ◌++◌, arith,
  length, length-append, Bool-cases,
}
use native.Mathlib.Decide.{dec_lt}
use mathlib.Core.List.{append-nil, append_assoc}
use real_time_embedded_motio.TinyFormat.{Writer, character, string, write_all}

-- An operation that writes the text `t`: whole where it fits, and otherwise it fails; it never writes
-- outside the buffer.
pub record Appends (t : List ℕ) (g : Writer → Writer) : Type 0 where
  pub fits :
      (w : Writer)
      → w.failed ≡ false
      → length w.text + length t < w.capacity
      → g w ≡ record w { text = w.text ++ t }
  pub overflows :
      (w : Writer)
      → w.failed ≡ false
      → length w.text < w.capacity
      → w.capacity ≤ length w.text + length t
      → (g w).failed ≡ true
  pub keeps : (w : Writer) → w.failed ≡ true → (g w).failed ≡ true
  pub inside : (w : Writer) → length w.text < w.capacity → length (g w).text < (g w).capacity
  pub same : (w : Writer) → (g w).capacity ≡ w.capacity

pub Appends-nil : Appends [] (λ w. w)
Appends-nil = record {
  fits = λ w u h. ap (λ (t : List ℕ). record w { text = t }) (sym (append-nil w.text));
  overflows = λ w u i h. absurd (omega arith);
  keeps = λ w h. h;
  inside = λ w h. h;
  same = λ w. refl;
}

pub Appends-append :
    (t u : List ℕ) (g h : Writer → Writer)
    → Appends t g
    → Appends u h
    → Appends (t ++ u) (λ w. h (g w))
Appends-append t u g h a b = record {
  fits = λ w e r.
      let long = length-append t u in
      let longer = length-append w.text t in
      let first = a.fits w e (omega arith) in
      let second = b.fits (record w { text = w.text ++ t }) e (omega arith) in
      rw first (second ∙ ap (λ (x : List ℕ). record w { text = x }) (append_assoc w.text t u));
  overflows = λ w e i r.
      let long = length-append t u in
      let longer = length-append w.text t in
      elim (dec_lt (length w.text + length t) w.capacity) [
        | yes room ↦
            rw (a.fits w e room)
              (b.overflows (record w { text = w.text ++ t }) e (omega arith) (omega arith))
        | no full ↦ b.keeps (g w) (a.overflows w e i (omega arith))
      ];
  keeps = λ w e. b.keeps (g w) (a.keeps w e);
  inside = λ w i. b.inside (g w) (a.inside w i);
  same = λ w. b.same (g w) ∙ a.same w;
}

pub character-Appends : (c : ℕ) → Appends (c ∷ []) (λ w. character w c)
unfolding character
character-Appends c = record {
  fits = λ w e r. ground arith;
  overflows = λ w e i r. ground arith;
  keeps = λ w e. ground arith;
  inside = λ w i. let longer = length-append w.text (c ∷ []) in ground (arith, longer);
  same = λ w. ground arith;
}

string_next :
    (w : Writer) (c : ℕ) (cs : List ℕ)
    → w.failed ≡ false
    → string w (c ∷ cs) ≡ string (character w c) cs
unfolding string
string_next w c cs h = ground arith

string_failed : (w : Writer) (c : ℕ) (cs : List ℕ) → w.failed ≡ true → string w (c ∷ cs) ≡ w
unfolding string
string_failed w c cs h = ground arith

pub string-Appends : (cs : List ℕ) → Appends cs (λ w. string w cs)
unfolding string
string-Appends [] = Appends-nil
string-Appends (c ∷ cs) =
    let a = Appends-append (c ∷ []) cs _ _ (character-Appends c) (string-Appends cs) in
    record {
      fits = λ w e r. string_next w c cs e ∙ a.fits w e r;
      overflows =
          λ w e i r. ap (λ (v : Writer). v.failed) (string_next w c cs e) ∙ a.overflows w e i r;
      keeps = λ w e. ap (λ (v : Writer). v.failed) (string_failed w c cs e) ∙ e;
      inside = λ w i. elim (Bool-cases w.failed) [
        | inl e ↦ rw (string_failed w c cs e) i
        | inr e ↦ rw (string_next w c cs e) (a.inside w i)
      ];
      same = λ w. elim (Bool-cases w.failed) [
        | inl e ↦ ap (λ (v : Writer). v.capacity) (string_failed w c cs e)
        | inr e ↦ ap (λ (v : Writer). v.capacity) (string_next w c cs e) ∙ a.same w
      ];
    }

pub write_all-Appends : (cs : List ℕ) → Appends cs (λ w. write_all w cs)
unfolding write_all
write_all-Appends [] = Appends-nil
write_all-Appends (c ∷ cs) =
    Appends-append (c ∷ []) cs _ _ (character-Appends c) (write_all-Appends cs)
