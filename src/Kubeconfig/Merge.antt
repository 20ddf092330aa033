-- ===== src/Kubeconfig/Merge.antt =====
-- What `MergeKubeconfigEntry` and `RemoveKubeconfigContext` of internal/kubeconfig/merge.go leave
-- in the document.
use hyve.Prelude.{
  String, ◌≡◌, sym, ◌⊎◌, String-cases, str_eq_self, str_eq_of_ne, ◌∙◌, ◌≢◌, refl, Bool, not, some,
  List, [], ◌∷◌, ◌++◌, ◌==◌, eq_iff, arith, keep, if◌then◌else◌, Option-cases, inl, inr,
}
use hyve.Prelude.Maps.{lookup, lookup-insert}
use mathlib.Core.List.{append-nil}
use hyve.Kubeconfig.{
  Entry, text, name_of, is_named, remove_item_by_name, rename_entry, point_context, as_object,
  merge_entry, KubeConfigStructure, remove_context, find_refs, remove_if_named,
}

-- The entries of a list with a given name, and those with another name or none.
abbrev pub named : String → List Entry → List Entry
named name = keep (λ item. is_named name (name_of item))

abbrev pub others : String → List Entry → List Entry
others name = keep (λ item. not (is_named name (name_of item)))

keep-append {ℓ} :
    {A : Type ℓ} (p : A → Bool) (xs ys : List A) → keep p (xs ++ ys) ≡ keep p xs ++ keep p ys
keep-append p [] ys = refl
keep-append p (x ∷ xs) ys = ground (arith, keep-append p xs ys)

keep-keep {ℓ} : {A : Type ℓ} (p : A → Bool) (xs : List A) → keep p (keep p xs) ≡ keep p xs
keep-keep p [] = refl
keep-keep p (x ∷ xs) = ground (arith, keep-keep p xs)

keep-keep-not {ℓ} :
    {A : Type ℓ} (p : A → Bool) (xs : List A) → keep p (keep (λ x. not (p x)) xs) ≡ []
keep-keep-not p [] = refl
keep-keep-not p (x ∷ xs) = ground (arith, keep-keep-not p xs)

named-remove_item_by_name :
    (name : String) (items : List Entry) → named name (remove_item_by_name items name) ≡ []
unfolding remove_item_by_name
named-remove_item_by_name name items = keep-keep-not _ items

others-remove_item_by_name :
    (name : String) (items : List Entry)
    → others name (remove_item_by_name items name) ≡ others name items
unfolding remove_item_by_name
others-remove_item_by_name name items = keep-keep _ items

name_of-rename_entry : (item : Entry) (name : String) → name_of (rename_entry item name) ≡ some name
unfolding name_of rename_entry
name_of-rename_entry item name = ground (arith, lookup-insert "name" "name" (text name) item)

name_of-point_context :
    (item : Entry) (name : String) → name_of (point_context name item) ≡ name_of item
unfolding name_of
name_of-point_context item name = elim (Option-cases (as_object (lookup "context" item))) [
  | inl e ↦ rw (e, point_context) refl
  | inr (body, e) ↦
      rw (e, point_context) (rw lookup-insert (ground (arith, eq_iff "context" "name")))
]

-- `new` is `old` with every entry of that name gone and `entry` put at the end.
pub record Replaces (name : String) (old : List Entry) (entry : Entry) (new : List Entry)
    : Type 0 where
  pub one : named name new ≡ entry ∷ []
  pub rest : others name new ≡ others name old
  pub called : name_of entry ≡ some name

Replaces-append :
    (name : String) (items : List Entry) (entry : Entry)
    → name_of entry ≡ some name
    → Replaces name items entry (remove_item_by_name items name ++ entry ∷ [])
Replaces-append name items entry h = record {
  one = rw (keep-append, named-remove_item_by_name) (ground (arith, h, eq_iff name name));
  rest =
      rw (keep-append, others-remove_item_by_name)
        (ground (arith, h, eq_iff name name, append-nil (others name items)));
  called = h;
}

-- The document after a merge: of each kind one entry of that name, which is the new one, all
-- other entries as they were, and that context current.
pub record IsMerged (name : String) (cluster context user : Entry) (old new : KubeConfigStructure)
    : Type 0 where
  pub clusters : Replaces name old.clusters (rename_entry cluster name) new.clusters
  pub users : Replaces name old.users (rename_entry user name) new.users
  pub contexts :
      Replaces name old.contexts (point_context name (rename_entry context name)) new.contexts
  pub current : new.current_context ≡ name

-- After a merge there is, of each kind, exactly one entry of the given name, which is the new one;
-- all other entries are as they were, and that context is current.
pub merge_entry-IsMerged :
    (name : String) (cluster context user : Entry) (old : KubeConfigStructure)
    → IsMerged name cluster context user old (merge_entry name cluster context user old)
unfolding merge_entry
merge_entry-IsMerged name cluster context user old = record {
  clusters = Replaces-append name old.clusters _ (name_of-rename_entry cluster name);
  users = Replaces-append name old.users _ (name_of-rename_entry user name);
  contexts =
      Replaces-append name old.contexts _ (
        name_of-point_context (rename_entry context name) name ∙ name_of-rename_entry context name);
  current = refl;
}

remove-append :
    (name : String) (items : List Entry) (entry : Entry)
    → name_of entry ≡ some name
    → remove_item_by_name (remove_item_by_name items name ++ entry ∷ []) name
      ≡ remove_item_by_name items name
unfolding remove_item_by_name
remove-append name items entry h =
    rw (keep-append, keep-keep)
      (ground (arith, h, eq_iff name name, append-nil (others name items)))

-- Merging a second time under the same name replaces what the first merge wrote, and leaves all
-- other entries as the first merge found them.
pub merge_entry-merge_entry :
    (name : String) (c x u c' x' u' : Entry) (old : KubeConfigStructure)
    → merge_entry name c' x' u' (merge_entry name c x u old) ≡ merge_entry name c' x' u' old
unfolding merge_entry
merge_entry-merge_entry name c x u c' x' u' old = simp (
  remove-append name old.clusters _ (name_of-rename_entry c name),
  remove-append name old.users _ (name_of-rename_entry u name),
  remove-append name old.contexts _
      (name_of-point_context (rename_entry x name) name ∙ name_of-rename_entry x name),
)

remove_if_named_lem :
    (name : String) (items : List Entry)
    → ((name ≡ "") ⊎ (named name (remove_if_named name items) ≡ []))
      × (others name (remove_if_named name items) ≡ others name items)
remove_if_named_lem name items = ground (
  arith,
  eq_iff name "",
  named-remove_item_by_name name items,
  others-remove_item_by_name name items,
)

-- Removing a context takes out every entry of that name and keeps the other contexts, and it is
-- not the current context any more (unless its name is empty). The clusters and the users lose
-- the entries of the names, where not empty, that the first context of that name refers to, and
-- only those.
pub remove_context_lem :
    (name : String) (config : KubeConfigStructure)
    → let (cluster_name, user_name) = find_refs name config.contexts in
      let after = remove_context name config in
      (named name after.contexts ≡ [])
      × (others name after.contexts ≡ others name config.contexts)
      × ((name ≡ "") ⊎ (after.current_context ≢ name))
      × ((cluster_name ≡ "") ⊎ (named cluster_name after.clusters ≡ []))
      × (others cluster_name after.clusters ≡ others cluster_name config.clusters)
      × ((user_name ≡ "") ⊎ (named user_name after.users ≡ []))
      × (others user_name after.users ≡ others user_name config.users)
unfolding remove_context
remove_context_lem name config = (
  named-remove_item_by_name name config.contexts,
  others-remove_item_by_name name config.contexts,
  elim (String-cases name "") [ inl e ↦ inl e | inr d ↦ inr (current_ne d) ],
  (remove_if_named_lem _ config.clusters).0,
  (remove_if_named_lem _ config.clusters).1,
  (remove_if_named_lem _ config.users).0,
  (remove_if_named_lem _ config.users).1,
)
  where
    current_ne :
        name ≢ "" → (if config.current_context == name then "" else config.current_context) ≢ name
    current_ne d e = elim (String-cases config.current_context name) [
      | inl same ↦ d (sym (rw (str_eq_self name) at (rw same at e)))
      | inr other ↦ other (rw (str_eq_of_ne other) at e)
    ]
