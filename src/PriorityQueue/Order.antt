-- ===== src/PriorityQueue/Order.antt =====
-- What pqueue.c expects of the callback that compares two elements.
use corsaro.Base.{ℕ, ◌≡◌, Bool, true, false}

-- `above a b` says that `a` may stand above `b`, and is transitive. A callback that is true says that
-- the elements are to be exchanged, which it may say of two equal ones too.
pub record IsPriority (cmppri above : ℕ → ℕ → Bool) : Type 0 where
  pub yes : (a b : ℕ) → cmppri a b ≡ true → above b a ≡ true
  pub no : (a b : ℕ) → cmppri a b ≡ false → above a b ≡ true
  pub trans : (a b c : ℕ) → above a b ≡ true → above b c ≡ true → above a c ≡ true
