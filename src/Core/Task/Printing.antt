-- ===== src/Core/Task/Printing.antt =====
-- The text of a task.
use exec_helper.Prelude.{
  Text, codes, List, [], ◌∷◌, ◌++◌, append_assoc, false, is_empty, ◌≡◌, refl, ◌∙◌, arith,
}
use exec_helper.Core.Task.{Task, implode_from, to_string}

-- The arguments with one space between each two.
unfoldable pub join_spaces : List Text → Text
join_spaces [] = []
join_spaces (p ∷ []) = p
join_spaces (p ∷ q ∷ ps) = p ++ codes " " ++ join_spaces (q ∷ ps)

-- Arguments from the first one on that is not empty.
unfoldable pub skip_empty : List Text → List Text
skip_empty [] = []
skip_empty ([] ∷ ps) = skip_empty ps
skip_empty ((c ∷ p) ∷ ps) = (c ∷ p) ∷ ps

join_spaces-append :
    (p q : Text) (ps : List Text) → join_spaces ((p ++ q) ∷ ps) ≡ p ++ join_spaces (q ∷ ps)
unfolding join_spaces
join_spaces-append p q [] = refl
join_spaces-append p q (r ∷ ps) = simp append_assoc

implode_from-join_spaces :
    (result : Text) (ps : List Text)
    → is_empty result ≡ false
    → implode_from result ps (codes " ") ≡ join_spaces (result ∷ ps)
unfolding implode_from join_spaces
implode_from-join_spaces [] ps h = ground arith
implode_from-join_spaces (c ∷ r) [] h = refl
implode_from-join_spaces (c ∷ r) (p ∷ ps) h =
    implode_from-join_spaces ((c ∷ r) ++ codes " " ++ p) ps refl
    ∙ join_spaces-append ((c ∷ r) ++ codes " ") p ps

implode_from-skip_empty :
    (ps : List Text) → implode_from [] ps (codes " ") ≡ join_spaces (skip_empty ps)
unfolding implode_from skip_empty join_spaces
implode_from-skip_empty [] = refl
implode_from-skip_empty ([] ∷ ps) = implode_from-skip_empty ps
implode_from-skip_empty ((c ∷ p) ∷ ps) = implode_from-join_spaces (c ∷ p) ps refl

-- A task prints as its arguments with one space between each two, without the empty arguments at
-- the front, which leave no trace.
pub to_string-join_spaces : (t : Task) → to_string t ≡ join_spaces (skip_empty t.task)
unfolding to_string
to_string-join_spaces t = implode_from-skip_empty t.task
