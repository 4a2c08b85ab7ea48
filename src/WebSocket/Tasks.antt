-- ===== src/WebSocket/Tasks.antt =====
-- ui/dist/Main.js: tasks of the effect manager (`_elm_lang$core$Task$andThen`, `succeed`, `map`,
-- `sequence`) by what they do when they run, and what they do to the world.
use kubecast.Common.{ℕ, ◌≡◌, Option, none, some, List, [], ◌∷◌}

-- `Opening` has the backoff so far and the process that opens the connection.
pub data Connection (Socket : Type 0) : Type 0 where
  opening : ℕ → ℕ → Connection Socket
  connected : Socket → Connection Socket

pub data Effect (Name Text Msg Socket : Type 0) : Type 0 where
  spawn : ℕ → ℕ → Name → Effect Name Text Msg Socket
  kill : ℕ → Effect Name Text Msg Socket
  close : Socket → Effect Name Text Msg Socket
  send : Socket → Text → Effect Name Text Msg Socket
  to_app : Msg → Effect Name Text Msg Socket

-- The scheduler's next process id, and the effects so far, newest first.
pub record World (Name Text Msg Socket : Type 0) : Type 0 where
  pub next_pid : ℕ
  pub trace : List (Effect Name Text Msg Socket)

abbrev pub Task : Type 0 → Type 0 → Type 0 → Type 0 → Type 0 → Type 0
Task Name Text Msg Socket A = World Name Text Msg Socket → Option (A × World Name Text Msg Socket)

module _ {Name Text Msg Socket : Type 0} where
  abbrev pub succeed : {A : Type 0} → A → Task Name Text Msg Socket A
  succeed a w = some (a, w)

  infixl 5 ◌>>=◌ ◌>>◌
  abbrev pub ◌>>=◌ :
      {A B : Type 0}
      → Task Name Text Msg Socket A
      → (A → Task Name Text Msg Socket B)
      → Task Name Text Msg Socket B
  ◌>>=◌ t f w = elim (t w) [ none ↦ none | some (a, w') ↦ f a w' ]

  abbrev pub ◌>>◌ :
      {A B : Type 0}
      → Task Name Text Msg Socket A
      → Task Name Text Msg Socket B
      → Task Name Text Msg Socket B
  t >> u = t >>= λ _. u

  unfoldable pub perform : Effect Name Text Msg Socket → Task Name Text Msg Socket (Unit {0})
  perform e w = some (tt, record w { trace = e ∷ w.trace })

  -- A value that was computed, or the exception that computing it threw.
  abbrev pub lift : {A : Type 0} → Option A → Task Name Text Msg Socket A
  lift none w = none
  lift (some a) w = some (a, w)

  unfoldable pub sequence :
      {A : Type 0} → List (Task Name Text Msg Socket A) → Task Name Text Msg Socket (List A)
  sequence [] = succeed []
  sequence (t ∷ ts) = t >>= λ a. sequence ts >>= λ rest. succeed (a ∷ rest)

  pub bind-some :
      {A B : Type 0} (t : Task Name Text Msg Socket A) (f : A → Task Name Text Msg Socket B)
      (w w' : World Name Text Msg Socket) (a : A)
      → t w ≡ some (a, w')
      → (t >>= f) w ≡ f a w'
  bind-some t f w w' a e = λ i. elim (e i) [ none ↦ none | some (a', u) ↦ f a' u ]

  pub lift-some :
      {A B : Type 0} (m : Option A) (f : A → Task Name Text Msg Socket B)
      (w : World Name Text Msg Socket) (a : A)
      → m ≡ some a
      → (lift m >>= f) w ≡ f a w
  lift-some m f w a e = rw e
