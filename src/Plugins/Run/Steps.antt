-- ===== src/Plugins/Run/Steps.antt =====
-- Steps of src/plugins/src/ that are known to return.
use exec_helper.Prelude.{List, Option, none, some, head?, ◌≡◌, ap}
use exec_helper.Plugins.State.{State, M, ◌>>=ₘ◌, demand, read_top}

pub bind-some :
    {A B : Type 0} (m : M A) (f : A → M B) (s s' : State) (a : A)
    → m s ≡ some (a, s')
    → (m >>=ₘ f) s ≡ f a s'
unfolding ◌>>=ₘ◌
bind-some {A} {B} m f s s' a h =
    ap (λ o. elim o as (λ _. Option (B × State)) [ none ↦ none | some (a, s') ↦ f a s' ]) h

pub read_top-some :
    {A : Type 0} (field : State → List A) (s : State) (a : A)
    → head? (field s) ≡ some a
    → read_top field s ≡ some (a, s)
unfolding read_top demand
read_top-some field s a h = ap (λ o. demand o s) h

pub demand-some :
    {A : Type 0} (o : Option A) (s : State) (a : A) → o ≡ some a → demand o s ≡ some (a, s)
unfolding demand
demand-some o s a h = ap (λ o. demand o s) h
