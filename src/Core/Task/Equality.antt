-- ===== src/Core/Task/Equality.antt =====
-- `operator==` of a task decides equality.
use exec_helper.Prelude.{
  Text, text_eq_sound, text_eq_refl, List, [], ◌∷◌, true, ◌≡◌, ◌↔◌, refl, arith,
}
use exec_helper.Core.Task.{EnvironmentCollection, Task, texts_eq, environment_eq, task_eq}

pub texts_eq_sound : (xs ys : List Text) → texts_eq xs ys ≡ true → xs ≡ ys
unfolding texts_eq
texts_eq_sound [] [] h = refl
texts_eq_sound [] (y ∷ ys) h = ground arith
texts_eq_sound (x ∷ xs) [] h = ground arith
texts_eq_sound (x ∷ xs) (y ∷ ys) h = ground (arith, text_eq_sound x y, texts_eq_sound xs ys)

pub texts_eq_refl : (xs : List Text) → texts_eq xs xs ≡ true
unfolding texts_eq
texts_eq_refl [] = refl
texts_eq_refl (x ∷ xs) = rw text_eq_refl (texts_eq_refl xs)

environment_eq_sound : (xs ys : EnvironmentCollection) → environment_eq xs ys ≡ true → xs ≡ ys
unfolding environment_eq
environment_eq_sound [] [] h = refl
environment_eq_sound [] (y ∷ ys) h = ground arith
environment_eq_sound (x ∷ xs) [] h = ground arith
environment_eq_sound ((j, v) ∷ xs) ((k, w) ∷ ys) h =
    ground (arith, text_eq_sound j k, text_eq_sound v w, environment_eq_sound xs ys)

environment_eq_refl : (xs : EnvironmentCollection) → environment_eq xs xs ≡ true
unfolding environment_eq
environment_eq_refl [] = refl
environment_eq_refl ((j, v) ∷ xs) = rw (text_eq_refl j, text_eq_refl v) (environment_eq_refl xs)

-- Two tasks compare equal exactly when their arguments, directories and environments are the same.
pub task_eq_iff : (a b : Task) → (task_eq a b ≡ true) ↔ (a ≡ b)
unfolding task_eq
task_eq_iff a b = (
  λ h. ground (
    arith,
    texts_eq_sound a.task b.task,
    text_eq_sound a.working_directory b.working_directory,
    environment_eq_sound a.env b.env,
  ),
  λ e.
      rw (← e)
        (rw (texts_eq_refl a.task, text_eq_refl a.working_directory) (environment_eq_refl a.env)),
)
