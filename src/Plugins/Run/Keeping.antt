-- ===== src/Plugins/Run/Keeping.antt =====
-- What a step of src/plugins/src/ keeps of the state that the plugins share: the stacks and the return
-- code; the registered tasks and the remembered executions are only added to.
use exec_helper.Prelude.{
  List, [], ◌∷◌, ◌++◌, append_assoc, append-nil, Option, none, some, Bool, true, false,
  if◌then◌else◌, head?, ◌≡◌, refl, sym, ◌∙◌, subst,
}
use exec_helper.Core.Task.{Task}
use exec_helper.Plugins.State.{
  Execution, State, M, ◌>>=ₘ◌, pure, demand, read_top, register_task, remember, each, next_round,
  each_nil, each_cons,
}

pub record Frame (s s' : State) : Type 0 where
  pub fleeting : s'.fleeting ≡ s.fleeting
  pub settings : s'.settings ≡ s.settings
  pub patterns : s'.patterns ≡ s.patterns
  pub plugins : s'.plugins ≡ s.plugins
  pub return_code : s'.return_code ≡ s.return_code
  pub registered : (more : List Task) × (s'.registered ≡ s.registered ++ more)
  pub executions : (more : List Execution) × (s'.executions ≡ s.executions ++ more)

pub Frame-refl : (s : State) → Frame s s
Frame-refl s = record {
  fleeting = refl;
  settings = refl;
  patterns = refl;
  plugins = refl;
  return_code = refl;
  registered = ([], sym (append-nil s.registered));
  executions = ([], sym (append-nil s.executions));
}

pub Frame-trans : {s t u : State} → Frame s t → Frame t u → Frame s u
Frame-trans {s} f g = record {
  fleeting = g.fleeting ∙ f.fleeting;
  settings = g.settings ∙ f.settings;
  patterns = g.patterns ∙ f.patterns;
  plugins = g.plugins ∙ f.plugins;
  return_code = g.return_code ∙ f.return_code;
  registered =
      (f.registered.0 ++ g.registered.0, rw (g.registered.1, f.registered.1, append_assoc));
  executions =
      (f.executions.0 ++ g.executions.0, rw (g.executions.1, f.executions.1, append_assoc));
}

-- The frame of a run, if it returns.
abbrev pub After : {A : Type 0} → State → Option (A × State) → Type 0
After s none = Unit
After s (some (a, s')) = Frame s s'

-- A step that keeps the frame whenever it returns.
pub record Keeps {A : Type 0} (m : M A) : Type 0 where
  pub frame : (s : State) → After s (m s)

After-trans :
    {A : Type 0} {s t : State} (o : Option (A × State)) → Frame s t → After t o → After s o
After-trans none f h = tt
After-trans (some (a, u)) f h = Frame-trans f h

After-bind :
    {A B : Type 0} (s : State) (o : Option (A × State)) (f : A → M B)
    → After s o
    → ((a : A) → Keeps (f a))
    → After s (elim o as (λ _. Option (B × State)) [ none ↦ none | some (a, s') ↦ f a s' ])
After-bind s none f h k = tt
After-bind s (some (a, s')) f h k = After-trans (f a s') h ((k a).frame s')

next_round-After :
    (rest : State → Option (Bool × State)) (s : State) (o : Option (Bool × State))
    → ((s' : State) → After s' (rest s'))
    → After s o
    → After s (next_round rest o)
next_round-After rest s none h k = tt
next_round-After rest s (some (true, s')) h k = After-trans (rest s') k (h s')
next_round-After rest s (some (false, s')) h k = k

module _ {A B : Type 0} where
  pub Keeps-bind : (m : M A) (f : A → M B) → Keeps m → ((a : A) → Keeps (f a)) → Keeps (m >>=ₘ f)
  unfolding ◌>>=ₘ◌
  Keeps-bind m f h k = record { frame = λ s. After-bind s (m s) f (h.frame s) k }

module _ {A : Type 0} where
  pub Keeps-pure : (a : A) → Keeps (pure a)
  unfolding pure
  Keeps-pure a = record { frame = λ s. Frame-refl s }

  demand-After : (o : Option A) (s : State) → After s (demand o s)
  unfolding demand
  demand-After none s = tt
  demand-After (some a) s = Frame-refl s

  pub Keeps-demand : (o : Option A) → Keeps (demand o)
  Keeps-demand o = record { frame = demand-After o }

  pub Keeps-read_top : (field : State → List A) → Keeps (read_top field)
  unfolding read_top
  Keeps-read_top field = record { frame = λ s. demand-After (head? (field s)) s }

  pub Keeps-if : (b : Bool) (m n : M A) → Keeps m → Keeps n → Keeps (if b then m else n)
  Keeps-if true m n h k = h
  Keeps-if false m n h k = k

  each-After :
      (f : A → M Bool) (xs : List A) (s : State) → ((a : A) → Keeps (f a)) → After s (each f xs s)
  each-After f [] s h = subst (After s) (sym (each_nil f s)) (Frame-refl s)
  each-After f (x ∷ xs) s h =
      subst (After s) (sym (each_cons f x xs s))
        (next_round-After (each f xs) s (f x s) (λ s'. each-After f xs s' h) ((h x).frame s))

  pub Keeps-each : (f : A → M Bool) (xs : List A) → ((a : A) → Keeps (f a)) → Keeps (each f xs)
  Keeps-each f xs h = record { frame = λ s. each-After f xs s h }

pub Keeps-elim :
    {A B : Type 0} (o : Option A) (m : M B) (f : A → M B)
    → Keeps m
    → ((a : A) → Keeps (f a))
    → Keeps (elim o as (λ _. M B) [ none ↦ m | some a ↦ f a ])
Keeps-elim none m f h k = h
Keeps-elim (some a) m f h k = k a

pub Keeps-register : (t : Task) → Keeps (register_task t)
unfolding register_task
Keeps-register t = record {
  frame = λ s. record {
    fleeting = refl;
    settings = refl;
    patterns = refl;
    plugins = refl;
    return_code = refl;
    registered = (t ∷ [], refl);
    executions = ([], sym (append-nil s.executions));
  };
}

pub Keeps-remember : (e : Execution) → Keeps (remember e)
unfolding remember
Keeps-remember e = record {
  frame = λ s. record {
    fleeting = refl;
    settings = refl;
    patterns = refl;
    plugins = refl;
    return_code = refl;
    registered = ([], sym (append-nil s.registered));
    executions = (e ∷ [], refl);
  };
}
