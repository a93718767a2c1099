-- ===== src/Config/SettingsNode/Insertion.antt =====
-- `add`: what is found at the path afterwards, and at every path that branches off from it.
use exec_helper.Prelude.{
  Text, text_eq, text_eq_refl, List, [], ◌∷◌, ◌++◌, append_assoc, append-nil, some, false,
  if◌then◌else◌, ◌>>=◌, value_or, ◌≡◌, refl, ◌∙◌, arith,
}
use exec_helper.Platform.{Platform}
use exec_helper.Config.SettingsNode.{
  SettingsNode, node, null, collection, Nodes, nil, cons, key, leaf, push_back, push_leaves,
  keys_of, at_key, at, values, add_values, modify, ensure_key, add, get_values,
}
use exec_helper.Config.SettingsNode.Lookup.{
  values_at, values_at-cons, values_at-value_or, KeepsKey, at_key-modify, at_key-ensure_key,
  get_values-values_at,
}

key-ensure_key : (k : Text) (n : SettingsNode) → key (ensure_key k n) ≡ key n
unfolding ensure_key
key-ensure_key k (node j null) = refl
key-ensure_key k (node j (collection ns)) = ground arith

pub key-modify :
    (k : Text) (f : SettingsNode → SettingsNode) (n : SettingsNode) → key (modify k f n) ≡ key n
key-modify k f (node j null) = refl
key-modify k f (node j (collection ns)) = refl

pub key-add : (ks vs : List Text) → KeepsKey (add ks vs)
unfolding add
key-add [] vs (node j null) = refl
key-add [] vs (node j (collection ns)) = refl
key-add (k ∷ ks) vs n = key-modify k (add ks vs) (ensure_key k n) ∙ key-ensure_key k n

-- After `add` along a path, its first key leads to the child that was there, or a fresh one, with
-- the rest added; every other key leads to what it did.
pub at_key-add :
    (j k : Text) (ks vs : List Text) (n : SettingsNode)
    → at_key j (add (k ∷ ks) vs n)
      ≡ (if text_eq j k then some (add ks vs (value_or (at_key k n) (leaf k))) else at_key j n)
unfolding add
at_key-add j k ks vs n =
    rw
      (
        at_key-modify j k (add ks vs) (ensure_key k n) (key-add ks vs),
        at_key-ensure_key j k n,
        at_key-ensure_key k k n,
        text_eq_refl k,
      )
      (ground arith)

keys_of-push_back :
    (ns : Nodes) (n : SettingsNode) → keys_of (push_back ns n) ≡ keys_of ns ++ key n ∷ []
keys_of-push_back nil n = refl
keys_of-push_back (cons m ns) n = rw (keys_of-push_back ns n)

keys_of-push_leaves : (ns : Nodes) (vs : List Text) → keys_of (push_leaves ns vs) ≡ keys_of ns ++ vs
keys_of-push_leaves ns [] = rw append-nil
keys_of-push_leaves ns (v ∷ vs) =
    rw (keys_of-push_leaves (push_back ns (leaf v)) vs, keys_of-push_back ns (leaf v), append_assoc)

values-add_values :
    (vs : List Text) (n : SettingsNode)
    → values (add_values vs n) ≡ some (value_or (values n) [] ++ vs)
values-add_values vs (node j null) = rw (keys_of-push_leaves nil vs)
values-add_values vs (node j (collection ns)) = rw (keys_of-push_leaves ns vs)

values_at-add :
    (ks vs : List Text) (n : SettingsNode)
    → values_at ks (add ks vs n) ≡ some (value_or (values_at ks n) [] ++ vs)
values_at-add [] vs n = unfold values_at add at in values-add_values vs n
values_at-add (k ∷ ks) vs n = rw (
  values_at-cons k ks (add (k ∷ ks) vs n),
  at_key-add k k ks vs n,
  text_eq_refl k,
  ◌>>=◌,
  values_at-add ks vs (value_or (at_key k n) (leaf k)),
  values_at-value_or ks k (at_key k n),
  values_at-cons k ks n,
)

-- Along a common beginning, `add` is not seen on a path that branches off.
values_at-add_ne :
    (pre : List Text) (j k : Text) (js ks vs : List Text) (n : SettingsNode)
    → text_eq j k ≡ false
    → values_at (pre ++ j ∷ js) (add (pre ++ k ∷ ks) vs n) ≡ values_at (pre ++ j ∷ js) n
values_at-add_ne [] j k js ks vs n h =
    rw (values_at-cons j js (add (k ∷ ks) vs n), at_key-add j k ks vs n, h, values_at-cons j js n)
values_at-add_ne (p ∷ pre) j k js ks vs n h = rw (
  values_at-cons p (pre ++ j ∷ js) (add (p ∷ pre ++ k ∷ ks) vs n),
  at_key-add p p (pre ++ k ∷ ks) vs n,
  text_eq_refl p,
  ◌>>=◌,
  values_at-add_ne pre j k js ks vs (value_or (at_key p n) (leaf p)) h,
  values_at-value_or (pre ++ j ∷ js) p (at_key p n),
  values_at-cons p (pre ++ j ∷ js) n,
)

module _ ⦃sys : Platform⦄ where
  -- After adding values at a path, `get` returns the values that were there with the new ones behind
  -- them, also where the path had to be created.
  pub get_values-add :
      (ks vs : List Text) (n : SettingsNode)
      → get_values ks (add ks vs n) ≡ some (value_or (get_values ks n) [] ++ vs)
  get_values-add ks vs n =
      rw (get_values-values_at ks (add ks vs n), get_values-values_at ks n) (values_at-add ks vs n)

  -- Adding at one path changes nothing on a path that branches off from it at some key.
  pub get_values-add_ne :
      (pre : List Text) (j k : Text) (js ks vs : List Text) (n : SettingsNode)
      → text_eq j k ≡ false
      → get_values (pre ++ j ∷ js) (add (pre ++ k ∷ ks) vs n) ≡ get_values (pre ++ j ∷ js) n
  get_values-add_ne pre j k js ks vs n h =
      rw
        (
          get_values-values_at (pre ++ j ∷ js) (add (pre ++ k ∷ ks) vs n),
          get_values-values_at (pre ++ j ∷ js) n,
        )
        (values_at-add_ne pre j k js ks vs n h)
