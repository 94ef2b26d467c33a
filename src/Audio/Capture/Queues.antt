-- ===== src/Audio/Capture/Queues.antt =====
-- crossbeam's `ArrayQueue`, as crates/audio/src/capture.rs uses it: a parameter of the model.
use slotpilot.Prelude.{ℕ, ◌≤◌, ◌<◌, ◌≡◌, ◌⊎◌, Option, none, some, List, [], ◌∷◌, ◌++◌, length}
use slotpilot.Prelude.Results.{Result, ok, err}

-- A bounded queue: `push` gives the item back when the queue is full, and puts it last otherwise;
-- `pop` takes the first.
pub record ArrayQueue : Type 1 where
  pub Queue : Type 0 → Type 0
  pub new : {A : Type 0} → ℕ → Queue A
  pub push : {A : Type 0} → Queue A → A → Result A (Queue A)
  pub pop : {A : Type 0} → Queue A → Option (A × Queue A)
  pub contents : {A : Type 0} → Queue A → List A
  pub capacity : {A : Type 0} → Queue A → ℕ
  pub contents-new : {A : Type 0} (n : ℕ) → contents (new {A = A} n) ≡ []
  pub capacity-new : {A : Type 0} (n : ℕ) → capacity (new {A = A} n) ≡ n
  pub push_cases :
      {A : Type 0} (q : Queue A) (a : A)
      → ((capacity q ≤ length (contents q)) × (push q a ≡ err a))
        ⊎ ((q' : Queue A) × (length (contents q) < capacity q)
            × (push q a ≡ ok q')
            × (contents q' ≡ contents q ++ a ∷ [])
            × (capacity q' ≡ capacity q))
  pub pop_cases :
      {A : Type 0} (q : Queue A)
      → ((contents q ≡ []) × (pop q ≡ none))
        ⊎ ((a : A) × (q' : Queue A) × (pop q ≡ some (a, q'))
            × (contents q ≡ a ∷ contents q')
            × (capacity q' ≡ capacity q))
