-- ===== src/Queue/Bounded.antt =====
-- The laws of `IsFifo` can be met: a list with its capacity.
use real_time_embedded_motio.Base.{
  ℕ, ◌≤◌, ◌<◌, ◌≡◌, refl, Bool, true, false, Option, none, some, List, [], ◌∷◌, ◌++◌, arith, length,
  ltb, if◌then◌else◌,
}
use real_time_embedded_motio.Queue.Defs.{Queue, IsFifo}

pub record Bounded (A : Type 0) : Type 0 where
  pub items : List A
  pub room : ℕ

module _ {A : Type 0} where
  unfoldable pub push : Bounded A → A → Bounded A × Bool
  push s a =
      if ltb (length s.items) s.room
      then (record s { items = s.items ++ (a ∷ []) }, true)
      else (s, false)

  split : List A → ℕ → Option (A × Bounded A)
  split [] n = none
  split (a ∷ rest) n = some (a, record { items = rest; room = n })

  unfoldable pub pull : Bounded A → Option (A × Bounded A)
  unfolding split
  pull s = split s.items s.room

  instance abbrev pub bounded_queue : Queue (Bounded A) A
  bounded_queue = record {
    create = λ n. record { items = []; room = n };
    send = push;
    receive = pull;
    waiting = λ s. length s.items;
  }

  pub pull_nil : (s : Bounded A) → s.items ≡ [] → pull s ≡ none
  unfolding pull
  pull_nil s e = rw (e, split)

  pub pull_cons :
      (s : Bounded A) (a : A) (rest : List A)
      → s.items ≡ a ∷ rest
      → (s' : Bounded A) × (pull s ≡ some (a, s')) × (s'.items ≡ rest) × (s'.room ≡ s.room)
  unfolding pull
  pull_cons s a rest e = (record { items = rest; room = s.room }, rw (e, split), refl, refl)

  pub push_room : (s : Bounded A) (a : A) → length s.items < s.room → (push s a).1 ≡ true
  unfolding push
  push_room s a h = ground arith

  pub push_full : (s : Bounded A) (a : A) → s.room ≤ length s.items → (push s a).1 ≡ false
  unfolding push
  push_full s a h = ground arith

  pub items-push :
      (s : Bounded A) (a : A) → (push s a).1 ≡ true → (push s a).0.items ≡ s.items ++ (a ∷ [])
  unfolding push
  items-push s a h = ground arith

  pub items-push_full :
      (s : Bounded A) (a : A) → (push s a).1 ≡ false → (push s a).0.items ≡ s.items
  unfolding push
  items-push_full s a h = ground arith

  pub room-push : (s : Bounded A) (a : A) → (push s a).0.room ≡ s.room
  unfolding push
  room-push s a = ground arith

  unfoldable pub Bounded-IsFifo : IsFifo (Bounded A) A
  Bounded-IsFifo = record {
    contents = λ s. s.items;
    capacity = λ s. s.room;
    contents-create = λ n. refl;
    capacity-create = λ n. refl;
    waiting_lem = λ s. refl;
    send_room = push_room;
    send_full = push_full;
    contents-send = items-push;
    contents-send_full = items-push_full;
    capacity-send = room-push;
    receive_nil = pull_nil;
    receive_cons = pull_cons;
  }
