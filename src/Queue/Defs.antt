-- ===== src/Queue/Defs.antt =====
-- The operations that the firmware calls, and what it relies on.
use real_time_embedded_motio.Base.{
  ℕ, ◌≤◌, ◌<◌, ◌≡◌, Bool, true, false, Option, none, some, List, [], ◌∷◌, ◌++◌, length,
}

-- The calls on a handle's state, with a waiting time of 0. `send` answers whether the result is
-- pdPASS, and `receive` gives `none` where it is not.
pub record Queue (Q A : Type 0) : Type 0 where
  pub create : ℕ → Q
  pub send : Q → A → Q × Bool
  pub receive : Q → Option (A × Q)
  pub waiting : Q → ℕ

-- The documented behaviour: a FIFO of at most `capacity` items.
pub record IsFifo (Q A : Type 0) ⦃q : Queue Q A⦄ : Type 0 where
  pub contents : Q → List A
  pub capacity : Q → ℕ
  pub contents-create : (n : ℕ) → contents (q.create n) ≡ []
  pub capacity-create : (n : ℕ) → capacity (q.create n) ≡ n
  pub waiting_lem : (s : Q) → q.waiting s ≡ length (contents s)
  pub send_room : (s : Q) (a : A) → length (contents s) < capacity s → (q.send s a).1 ≡ true
  pub send_full : (s : Q) (a : A) → capacity s ≤ length (contents s) → (q.send s a).1 ≡ false
  pub contents-send :
      (s : Q) (a : A) → (q.send s a).1 ≡ true → contents (q.send s a).0 ≡ contents s ++ (a ∷ [])
  pub contents-send_full :
      (s : Q) (a : A) → (q.send s a).1 ≡ false → contents (q.send s a).0 ≡ contents s
  pub capacity-send : (s : Q) (a : A) → capacity (q.send s a).0 ≡ capacity s
  pub receive_nil : (s : Q) → contents s ≡ [] → q.receive s ≡ none
  pub receive_cons :
      (s : Q) (a : A) (rest : List A)
      → contents s ≡ a ∷ rest
      → (s' : Q) × (q.receive s ≡ some (a, s')) × (contents s' ≡ rest) × (capacity s' ≡ capacity s)
