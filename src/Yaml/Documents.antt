-- ===== src/Yaml/Documents.antt =====
-- Documents that map names to sequences of texts, read by src/yaml/src/yamlWrapper.cpp.
use exec_helper.Prelude.{
  Text, text_eq, ℕ, suc, List, [], ◌∷◌, ◌++◌, Option, none, some, Bool, true, false, ◌==◌,
  if◌then◌else◌, ◌≡◌, refl, arith, value_or,
}
use exec_helper.Prelude.{
  ◌>>=◌, sym, ap, ◌∙◌, append_assoc, append-nil, Bool-cases, inl, inr, text_eq_sound,
}
use exec_helper.Platform.{Platform}
use exec_helper.Config.SettingsNode.{
  SettingsNode, node, null, collection, Nodes, nil, cons, leaf, push_back, find_node, children,
  values, add, get_values,
}
use exec_helper.Config.SettingsNode.Lookup.{values_at, values_at-cons, get_values-values_at}
use exec_helper.Config.SettingsNode.Insertion.{get_values-add, get_values-add_ne}
use exec_helper.Yaml.{
  scalar, map_of, sequence, Elements, no_elements, element, Items, no_items, item, and_then,
  get_elements, get_items, elements_size, get_tree,
}

abbrev pub items_of : List Text → Items
items_of [] = no_items
items_of (v ∷ vs) = item (scalar (some v)) (items_of vs)

-- A document with a sequence of texts for each name.
abbrev pub elements_of : List (Text × List Text) → Elements
elements_of [] = no_elements
elements_of ((k, vs) ∷ ps) = element (some k) (sequence (items_of vs)) (elements_of ps)

-- What all sequences of a name say, one after the other.
abbrev pub sequences_of : Text → List (Text × List Text) → List Text
sequences_of j [] = []
sequences_of j ((k, vs) ∷ ps) = (if text_eq j k then vs else []) ++ sequences_of j ps

values_of_found : Text → Nodes → List Text
values_of_found j ns = value_or (find_node j ns >>= values) []

values_of_found-push_back :
    (j k : Text) (ns : Nodes) → values_of_found j (push_back ns (leaf k)) ≡ values_of_found j ns
unfolding values_of_found
values_of_found-push_back j k nil = ground arith
values_of_found-push_back j k (cons n ns) = ground (arith, values_of_found-push_back j k ns)

module _ ⦃sys : Platform⦄ where
  -- The values of a name.
  abbrev pub stored : Text → SettingsNode → List Text
  stored j s = value_or (get_values (j ∷ []) s) []

  bind_values :
      (o : Option SettingsNode) → value_or (o >>= values_at []) [] ≡ value_or (o >>= values) []
  unfolding values_at
  bind_values none = refl
  bind_values (some c) = refl

  stored-found : (j : Text) (s : SettingsNode) → stored j s ≡ values_of_found j (children s)
  unfolding values_of_found values_at
  stored-found j s =
      rw (get_values-values_at (j ∷ []) s, values_at-cons j [] s)
        (bind_values (find_node j (children s)))

  stored-add_name : (j k : Text) (s : SettingsNode) → stored j (add [] (k ∷ []) s) ≡ stored j s
  unfolding add
  stored-add_name j k (node m null) =
      stored-found j _ ∙ values_of_found-push_back j k nil ∙ sym (stored-found j (node m null))
  stored-add_name j k (node m (collection ns)) =
      stored-found j _
      ∙ values_of_found-push_back j k ns
      ∙ sym (stored-found j (node m (collection ns)))

  stored-add :
      (j k v : Text) (s : SettingsNode)
      → stored j (add (k ∷ []) (v ∷ []) s) ≡ stored j s ++ (if text_eq j k then v ∷ [] else [])
  stored-add j k v s = elim (Bool-cases (text_eq j k)) [
    | inl e ↦ rw (e, text_eq_sound j k e, get_values-add (k ∷ []) (v ∷ []) s)
    | inr e ↦ rw (e, get_values-add_ne [] j k [] [] (v ∷ []) s e, append-nil)
  ]

  -- What the walk adds for a sequence of texts, and for a whole document.
  abbrev fill : Text → List Text → SettingsNode → SettingsNode
  fill k [] s = s
  fill k (v ∷ vs) s = fill k vs (add (k ∷ []) (v ∷ []) s)

  abbrev fill_all : List (Text × List Text) → SettingsNode → SettingsNode
  fill_all [] s = s
  fill_all ((k, vs) ∷ ps) s = fill_all ps (fill k vs (add [] (k ∷ []) s))

  get_items-fill :
      (k : Text) (vs : List Text) (s : SettingsNode)
      → get_items (items_of vs) (k ∷ []) s ≡ (true, fill k vs s)
  unfolding get_items
  get_items-fill k [] s = refl
  get_items-fill k (v ∷ vs) s = get_items-fill k vs (add (k ∷ []) (v ∷ []) s)

  get_elements-fill_all :
      (ps : List (Text × List Text)) (s : SettingsNode)
      → get_elements (elements_of ps) [] s ≡ (true, fill_all ps s)
  unfolding get_elements
  get_elements-fill_all [] s = refl
  get_elements-fill_all ((k, vs) ∷ ps) s =
      ap (λ r. and_then r (get_elements (elements_of ps) []))
        (get_items-fill k vs (add [] (k ∷ []) s))
      ∙ get_elements-fill_all ps (fill k vs (add [] (k ∷ []) s))

  suc-is_zero : (n : ℕ) → (suc n == 0) ≡ false
  suc-is_zero n = ground arith

  get_tree-fill_all :
      (p : Text × List Text) (ps : List (Text × List Text)) (s : SettingsNode)
      → get_tree (map_of (elements_of (p ∷ ps))) s ≡ (true, fill_all (p ∷ ps) s)
  unfolding get_tree
  get_tree-fill_all p ps s =
      ap (λ (b : Bool). if b then (false, s) else get_elements (elements_of (p ∷ ps)) [] s)
        (suc-is_zero (elements_size (elements_of ps)))
      ∙ get_elements-fill_all (p ∷ ps) s

  append_if :
      (b : Bool) (xs vs : List Text) (v : Text)
      → (xs ++ (if b then v ∷ [] else [])) ++ (if b then vs else [])
        ≡ xs ++ (if b then v ∷ vs else [])
  append_if true xs vs v = append_assoc xs (v ∷ []) vs
  append_if false xs vs v = append-nil (xs ++ [])

  stored-fill :
      (j k : Text) (vs : List Text) (s : SettingsNode)
      → stored j (fill k vs s) ≡ stored j s ++ (if text_eq j k then vs else [])
  stored-fill j k [] s = ground (arith, append-nil (stored j s))
  stored-fill j k (v ∷ vs) s =
      stored-fill j k vs (add (k ∷ []) (v ∷ []) s)
      ∙ ap (λ xs. xs ++ (if text_eq j k then vs else [])) (stored-add j k v s)
      ∙ append_if (text_eq j k) (stored j s) vs v

  stored-fill_all :
      (j : Text) (ps : List (Text × List Text)) (s : SettingsNode)
      → stored j (fill_all ps s) ≡ stored j s ++ sequences_of j ps
  stored-fill_all j [] s = sym (append-nil (stored j s))
  stored-fill_all j ((k, vs) ∷ ps) s =
      stored-fill_all j ps (fill k vs (add [] (k ∷ []) s))
      ∙ ap (λ xs. xs ++ sequences_of j ps)
          (stored-fill j k vs (add [] (k ∷ []) s)
            ∙ ap (λ xs. xs ++ (if text_eq j k then vs else [])) (stored-add_name j k s))
      ∙ append_assoc (stored j s) (if text_eq j k then vs else []) (sequences_of j ps)

  -- A document that gives at least one name a sequence of texts is read successfully, and afterwards
  -- the settings have for each name, behind the values that were there, what all its sequences say, in
  -- order; for a name that the document does not give they have what they had.
  pub get_tree-stored :
      (p : Text × List Text) (ps : List (Text × List Text)) (s : SettingsNode)
      → ((get_tree (map_of (elements_of (p ∷ ps))) s).0 ≡ true)
        × ((j : Text)
            → stored j (get_tree (map_of (elements_of (p ∷ ps))) s).1
              ≡ stored j s ++ sequences_of j (p ∷ ps))
  get_tree-stored p ps s =
      let e = get_tree-fill_all p ps s in
      (ap (λ r. r.0) e, λ j. ap (λ r. stored j r.1) e ∙ stored-fill_all j (p ∷ ps) s)
