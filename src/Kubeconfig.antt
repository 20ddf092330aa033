-- ===== src/Kubeconfig.antt =====
-- internal/kubeconfig/merge.go: the kubeconfig document and the functions on its entry lists.
-- Files.antt has the operations on files; the laws are in the other children.
pub mod Files
pub mod Dedupe
pub mod Merge
use hyve.Prelude.{
  ℕ, ◌+◌, String, Bool, true, false, not, Option, none, some, List, [], ◌∷◌, ◌++◌, ◌==◌, nat_eq,
  keep, if◌then◌else◌,
}
use hyve.Prelude.Maps.{Map, lookup, insert}

-- A YAML value: a text, a mapping, or anything else.
mutual
  pub data Value : Type 0 where
    text : String → Value
    object : Fields → Value
    opaque : ℕ → Value

  pub data Fields : Type 0 where
    end : Fields
    field : String → Value → Fields → Fields

-- `map[string]interface{}`
abbrev pub Entry : Type 0
Entry = Map Value

pub record KubeConfigStructure : Type 0 where
  pub api_version : String
  pub kind : String
  pub current_context : String
  pub clusters : List Entry
  pub contexts : List Entry
  pub users : List Entry

abbrev as_text : Option Value → Option String
as_text (some (text s)) = some s
as_text (some (object fs)) = none
as_text (some (opaque n)) = none
as_text none = none

abbrev pub as_object : Option Value → Option Fields
as_object (some (object fs)) = some fs
as_object (some (text s)) = none
as_object (some (opaque n)) = none
as_object none = none

pub get_field : String → Fields → Option Value
get_field k end = none
get_field k (field j v fs) = if j == k then some v else get_field k fs

pub set_field : String → Value → Fields → Fields
set_field k v end = field k v end
set_field k v (field j w fs) = if j == k then field k v fs else field j w (set_field k v fs)

-- item["name"].(string)
pub name_of : Entry → Option String
unfolding lookup
name_of item = as_text (lookup "name" item)

abbrev pub is_named : String → Option String → Bool
is_named name none = false
is_named name (some n) = n == name

pub remove_item_by_name : List Entry → String → List Entry
remove_item_by_name items name = keep (λ item. not (is_named name (name_of item))) items

-- The first loop of `keepLastByName`: lastIdx[name] = i.
pub record_last : ℕ → List Entry → Map ℕ → Map ℕ
record_last i [] last_idx = last_idx
record_last i (item ∷ items) last_idx =
    record_last (i + 1) items
      (elim (name_of item) [ none ↦ last_idx | some name ↦ insert name i last_idx ])

-- `!ok || lastIdx[name] == i`; a missing key reads as 0.
abbrev pub survives : ℕ → Map ℕ → Option String → Bool
survives i last_idx none = true
survives i last_idx (some name) = elim (lookup name last_idx) [
  | none ↦ nat_eq 0 i
  | some j ↦ nat_eq j i
]

-- The second loop.
pub keep_recorded : ℕ → List Entry → Map ℕ → List Entry
keep_recorded i [] last_idx = []
keep_recorded i (item ∷ items) last_idx =
    let rest = keep_recorded (i + 1) items last_idx in
    if survives i last_idx (name_of item) then item ∷ rest else rest

pub keep_last_by_name : List Entry → List Entry
unfolding record_last keep_recorded
keep_last_by_name items = keep_recorded 0 items (record_last 0 items [])

pub rename_entry : Entry → String → Entry
unfolding insert
rename_entry item name = insert "name" (text name) item

-- The loop over `config.Contexts` of `RemoveKubeconfigContext`: the cluster and the user that the
-- first context of that name refers to, "" where it names none.
abbrev text_or_empty : Option Value → String
text_or_empty v = elim (as_text v) [ none ↦ "" | some s ↦ s ]

abbrev context_refs : Entry → String × String
context_refs item = elim (as_object (lookup "context" item)) [
  | none ↦ ("", "")
  | some body ↦ (text_or_empty (get_field "cluster" body), text_or_empty (get_field "user" body))
]

pub find_refs : String → List Entry → String × String
find_refs name [] = ("", "")
find_refs name (item ∷ items) =
    if is_named name (name_of item) then context_refs item else find_refs name items

abbrev pub remove_if_named : String → List Entry → List Entry
remove_if_named name items = if name == "" then items else remove_item_by_name items name

-- `RemoveKubeconfigContext` between parsing and marshalling.
pub remove_context : String → KubeConfigStructure → KubeConfigStructure
unfolding find_refs remove_item_by_name
remove_context name config =
    let (cluster_name, user_name) = find_refs name config.contexts in
    record config {
      contexts = remove_item_by_name config.contexts name;
      clusters = remove_if_named cluster_name config.clusters;
      users = remove_if_named user_name config.users;
      current_context = if config.current_context == name then "" else config.current_context;
    }

pub deduplicate : KubeConfigStructure → KubeConfigStructure
unfolding keep_last_by_name
deduplicate config = record config {
  clusters = keep_last_by_name config.clusters;
  contexts = keep_last_by_name config.contexts;
  users = keep_last_by_name config.users;
}

-- The body of the renamed context refers to the renamed cluster and user.
abbrev pub point_context : String → Entry → Entry
point_context name item = elim (as_object (lookup "context" item)) [
  | none ↦ item
  | some body ↦
      insert "context"
        (object (set_field "user" (text name) (set_field "cluster" (text name) body))) item
]

-- `MergeKubeconfigEntry` between reading the existing file and marshalling.
pub merge_entry : String → Entry → Entry → Entry → KubeConfigStructure → KubeConfigStructure
unfolding rename_entry remove_item_by_name
merge_entry name cluster context user existing = record existing {
  clusters = remove_item_by_name existing.clusters name ++ rename_entry cluster name ∷ [];
  users = remove_item_by_name existing.users name ++ rename_entry user name ∷ [];
  contexts =
      remove_item_by_name existing.contexts name
      ++ point_context name (rename_entry context name) ∷ [];
  current_context = name;
}

-- `ContextNames`, after parsing.
pub context_names : List Entry → List String
unfolding name_of
context_names [] = []
context_names (item ∷ items) =
    let rest = context_names items in elim (name_of item) [ none ↦ rest | some n ↦ n ∷ rest ]
