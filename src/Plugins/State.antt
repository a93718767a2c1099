-- ===== src/Plugins/State.antt =====
-- The state that the plugins share, and the plugins themselves: the static stacks of
-- src/plugins/src/executePlugin.cpp, the executions that src/plugins/src/memory.cpp remembers, and the
-- tasks that src/plugins/src/plugin.cpp hands to the registered callback. The last element of a
-- stack, which the program reads, is the head of the list.
use exec_helper.Prelude.{
  Text, ℕ, List, [], ◌∷◌, ◌++◌, Option, none, some, Bool, true, false, head?, ◌≡◌, refl, sym, ◌∙◌,
  ap,
}
use exec_helper.OrderedMap.{Map}
use exec_helper.Core.Task.{Task}
use exec_helper.Config.SettingsNode.{SettingsNode}
use exec_helper.Config.Patterns.{Patterns, PatternsHandler}

-- What the interface of the command-line options tells the plugins.
pub record Options : Type 0 where
  pub verbosity : Bool
  pub jobs : ℕ
  pub commands : List Text

-- What a Lua script does with the functions that it is given: it registers tasks at the end or stops
-- with an error, and before that it may run commands and look at what that returned.
pub data Script : Type 0 where
  finish : List Task → Script
  fail : Script
  run_target : Task → List Text → (Bool → Script) → Script

pub data Plugin : Type 0 where
  commands command_line_command memory valgrind pmd lcov : Plugin
  execute : List Text → List Text → Plugin
  lua : Text → (Task → SettingsNode → Patterns → Script) → Plugin

abbrev pub Plugins : Type 0
Plugins = Map Plugin

pub record Execution : Type 0 where
  pub task : Task
  pub variables : SettingsNode
  pub patterns : Patterns

pub record State : Type 0 where
  pub fleeting : List Options
  pub settings : List SettingsNode
  pub patterns : List PatternsHandler
  pub plugins : List Plugins
  pub executions : List Execution
  pub return_code : Bool
  pub registered : List Task

-- A step may change the state. `none` is a step that does not return: the fuel is out, a violated
-- precondition ends the program, or an optional without a value is read.
abbrev pub M : Type 0 → Type 0
M A = State → Option (A × State)

infixl 5 ◌>>=ₘ◌
unfoldable pub ◌>>=ₘ◌ : {A B : Type 0} → M A → (A → M B) → M B
◌>>=ₘ◌ m f s = elim (m s) [ none ↦ none | some (a, s') ↦ f a s' ]

unfoldable pub pure : {A : Type 0} → A → M A
pure a s = some (a, s)

abbrev pub abort : {A : Type 0} → M A
abort s = none

-- A value that the code reads without looking whether it is there.
unfoldable pub demand : {A : Type 0} → Option A → M A
demand none s = none
demand (some a) s = some (a, s)

unfoldable pub read_top : {A : Type 0} → (State → List A) → M A
unfolding demand
read_top field s = demand (head? (field s)) s

-- `registerTask`.
unfoldable pub register_task : Task → M Bool
register_task t s = some (true, record s { registered = s.registered ++ t ∷ [] })

-- `m_executions.emplace_back`.
unfoldable pub remember : Execution → M Bool
remember e s = some (s.return_code, record s { executions = s.executions ++ e ∷ [] })

-- A loop that stops and returns false at the first round that returns false.
unfoldable pub each : {A : Type 0} → (A → M Bool) → List A → M Bool
each f [] s = some (true, s)
each f (a ∷ as') s = elim (f a s) [
  | none ↦ none
  | some (true, s') ↦ each f as' s'
  | some (false, s') ↦ some (false, s')
]

-- What `each` does with the outcome of a round.
abbrev pub next_round :
    (State → Option (Bool × State)) → Option (Bool × State) → Option (Bool × State)
next_round rest none = none
next_round rest (some (true, s)) = rest s
next_round rest (some (false, s)) = some (false, s)

pub each_nil : {A : Type 0} (f : A → M Bool) (s : State) → each f [] s ≡ some (true, s)
unfolding each
each_nil f s = refl

pub each_cons :
    {A : Type 0} (f : A → M Bool) (x : A) (xs : List A) (s : State)
    → each f (x ∷ xs) s ≡ next_round (each f xs) (f x s)
unfolding each
each_cons f x xs s = go (f x s)
  where
    go :
        (o : Option (Bool × State))
        → elim o as (λ _. Option (Bool × State)) [
          | none ↦ none
          | some (true, s') ↦ each f xs s'
          | some (false, s') ↦ some (false, s')
        ]
          ≡ next_round (each f xs) o
    go none = refl
    go (some (true, s')) = refl
    go (some (false, s')) = refl

-- A loop over two lists is the loop over the first and, if that returns true, over the second.
each-append_after :
    {A : Type 0} (f : A → M Bool) (xs ys : List A)
    → ((s : State) → each f (xs ++ ys) s ≡ next_round (each f ys) (each f xs s))
    → (o : Option (Bool × State))
    → next_round (each f (xs ++ ys)) o ≡ next_round (each f ys) (next_round (each f xs) o)
each-append_after f xs ys h none = refl
each-append_after f xs ys h (some (true, s')) = h s'
each-append_after f xs ys h (some (false, s')) = refl

pub each-append :
    {A : Type 0} (f : A → M Bool) (xs ys : List A) (s : State)
    → each f (xs ++ ys) s ≡ next_round (each f ys) (each f xs s)
each-append f [] ys s = sym (ap (next_round (each f ys)) (each_nil f s))
each-append f (x ∷ xs) ys s =
    each_cons f x (xs ++ ys) s
    ∙ each-append_after f xs ys (each-append f xs ys) (f x s)
    ∙ sym (ap (next_round (each f ys)) (each_cons f x xs s))
