-- ===== src/Reconcile/Resources.antt =====
-- internal/reconcile/resources.go: the pure functions. Loop.antt has the loops that act.
pub mod Loop
pub mod Pass
pub mod Orphans
pub mod Expanded
pub mod Settled
use Prim.Native.Nat.{Ordering}
use Prim.Native.String.{compare}
use text.Mathlib.Text.{starts_with}
use hyve.Prelude.{
  ℕ, ◌+◌, String, Bool, true, false, not, Option, none, some, List, [], ◌∷◌, ◌++◌, ◌||◌, ◌&&◌, ◌==◌,
  if◌then◌else◌, any, is_some, ltb,
}
use hyve.Prelude.Text.{◌<>◌}
use hyve.Prelude.Maps.{Map}
use hyve.Types.{ResourceRef, AppliedResource}
use hyve.Reconcile.Host.{ResolvedResource, DirEntry}

pub needs_apply : Bool → Bool → Bool
needs_apply config_changed live_diff = config_changed || live_diff

pub record ResourceItem : Type 0 where
  pub ref : ResourceRef
  pub orig_idx : ℕ
  pub pre : Option ResolvedResource

-- `sort.Strings`
insert_sorted : String → List String → List String
insert_sorted s [] = s ∷ []
insert_sorted s (t ∷ ts) =
    let rest = insert_sorted s ts in
    elim (compare s t) [ Ordering.gt ↦ t ∷ rest | _ ↦ s ∷ (t ∷ ts) ]

pub sort_strings : List String → List String
unfolding insert_sorted
sort_strings [] = []
sort_strings (s ∷ ss) = insert_sorted s (sort_strings ss)

-- `name` itself or a child "name/...".
abbrev pub is_child : String → String → Bool
is_child name key = starts_with key (name <> "/")

keys_owned : String → Map AppliedResource → List String
keys_owned name [] = []
keys_owned name ((key, r) ∷ applied) =
    let rest = keys_owned name applied in
    if key == name || is_child name key then key ∷ rest else rest

pub applied_keys_for : Map AppliedResource → String → List String
unfolding keys_owned sort_strings
applied_keys_for applied name = sort_strings (keys_owned name applied)

-- The set of `specResourceNames`, as a test.
unfoldable pub spec_resource_names : List ResourceRef → List ResourceItem → String → Bool
spec_resource_names resources items name =
    any (λ r. r.name == name) resources || any (λ (it : ResourceItem). it.ref.name == name) items

pub orphans : (String → Bool) → List String → Map AppliedResource → List String
orphans in_spec held_prefixes [] = []
orphans in_spec held_prefixes ((name, r) ∷ applied) =
    let rest = orphans in_spec held_prefixes applied in
    if in_spec name || any (λ p. is_child p name) held_prefixes then rest else name ∷ rest

pub find_orphaned_resources : (String → Bool) → List String → Map AppliedResource → List String
unfolding orphans sort_strings
find_orphaned_resources in_spec held_prefixes applied =
    sort_strings (orphans in_spec held_prefixes applied)

abbrev count_set : Bool → ℕ
count_set true = 1
count_set false = 0

-- True if at most one of source, helm and secret is set.
pub validate_resource_ref : ResourceRef → Bool
validate_resource_ref res = not (
    ltb 1 (
      count_set (not (res.source == ""))
      + count_set (is_some res.helm)
      + count_set (is_some res.secret)))

-- The items of a directory's files.
pub children : ResourceRef → ℕ → List DirEntry → List ResourceItem
children res i [] = []
children res i (e ∷ entries) =
    record {
      ref = record res { name = res.name <> ("/" <> e.stem); source = e.resolved.canonical_source };
      orig_idx = i;
      pre = some e.resolved;
    }
    ∷ children res i entries

pub record Expansion : Type 0 where
  pub items : List ResourceItem
  pub held_prefixes : List String
  pub failed : Option String

-- After the first directory that does not resolve, only the directories are noted.
pub hold_dirs : (String → Bool) → List ResourceRef → List String
hold_dirs is_dir [] = []
hold_dirs is_dir (res ∷ resources) =
    let rest = hold_dirs is_dir resources in
    if not (res.source == "") && is_dir res.source then res.name ∷ rest else rest

-- `expandResourceItems`; `resolve` answers for a directory. The order of the items is kept.
unfoldable pub expand_resource_items :
    (String → Bool) → (String → Option (List DirEntry)) → ℕ → List ResourceRef → Expansion
unfolding children hold_dirs
expand_resource_items is_dir resolve i [] = record { items = []; held_prefixes = []; failed = none }
expand_resource_items is_dir resolve i (res ∷ resources) =
    let rest = expand_resource_items is_dir resolve (i + 1) resources in
    if res.delete || res.source == "" || not (is_dir res.source)
    then record rest { items = record { ref = res; orig_idx = i; pre = none } ∷ rest.items }
    else elim (resolve res.source) [
      | none ↦ record {
        items = [];
        held_prefixes = res.name ∷ hold_dirs is_dir resources;
        failed = some res.name;
      }
      | some entries ↦ record rest { items = children res i entries ++ rest.items }
    ]
