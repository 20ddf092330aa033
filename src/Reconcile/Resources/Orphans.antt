-- ===== src/Reconcile/Resources/Orphans.antt =====
-- Which tracked resources are orphans of given names and prefixes, and which belong to a name.
use native.Mathlib.Omega.{arith}
use hyve.Prelude.{
  String, Bool, not, List, [], ◌∷◌, ◌≡◌, refl, ◌==◌, ◌&&◌, ◌||◌, any, is_some, String-cases,
  str_eq_self, str_eq_of_ne, inl, inr,
}
use hyve.Prelude.Maps.{Map, lookup}
use hyve.Types.{AppliedResource}
use hyve.Reconcile.Resources.{
  insert_sorted, sort_strings, is_child, keys_owned, applied_keys_for, orphans,
  find_orphaned_resources,
}

abbrev pub has : String → List String → Bool
has name names = any (λ n. n == name) names

has-insert_sorted :
    (name s : String) (names : List String)
    → has name (insert_sorted s names) ≡ (s == name || has name names)
unfolding insert_sorted
has-insert_sorted name s [] = refl
has-insert_sorted name s (t ∷ names) = ground (arith, has-insert_sorted name s names)

has-sort_strings :
    (name : String) (names : List String) → has name (sort_strings names) ≡ has name names
unfolding sort_strings
has-sort_strings name [] = refl
has-sort_strings name (s ∷ names) =
    ground (arith, has-sort_strings name names, has-insert_sorted name s (sort_strings names))

-- Kept back by a directory whose files could not be listed.
abbrev pub is_held : List String → String → Bool
is_held held_prefixes name = any (λ p. is_child p name) held_prefixes

has-orphans :
    (in_spec : String → Bool) (held : List String) (applied : Map AppliedResource) (name : String)
    → has name (orphans in_spec held applied)
      ≡ (is_some (lookup name applied) && not (in_spec name || is_held held name))
unfolding orphans lookup
has-orphans in_spec held [] name = refl
has-orphans in_spec held ((k, r) ∷ applied) name = elim (String-cases k name) [
  | inl e ↦ grind (arith, e, str_eq_self name, has-orphans in_spec held applied name)
  | inr e ↦ grind (arith, str_eq_of_ne e, has-orphans in_spec held applied name)
]

pub has-find_orphaned :
    (in_spec : String → Bool) (held : List String) (applied : Map AppliedResource) (name : String)
    → has name (find_orphaned_resources in_spec held applied)
      ≡ (is_some (lookup name applied) && not (in_spec name || is_held held name))
unfolding find_orphaned_resources
has-find_orphaned in_spec held applied name = ground (
  arith,
  has-sort_strings name (orphans in_spec held applied),
  has-orphans in_spec held applied name,
)

has-keys_owned :
    (name key : String) (applied : Map AppliedResource)
    → has key (keys_owned name applied)
      ≡ (is_some (lookup key applied) && (key == name || is_child name key))
unfolding keys_owned lookup
has-keys_owned name key [] = refl
has-keys_owned name key ((k, r) ∷ applied) = elim (String-cases k key) [
  | inl e ↦ grind (arith, e, str_eq_self key, has-keys_owned name key applied)
  | inr e ↦ grind (arith, str_eq_of_ne e, has-keys_owned name key applied)
]

-- What a removed resource owns is exactly what is tracked under its name or below it.
pub has-applied_keys_for :
    (name key : String) (applied : Map AppliedResource)
    → has key (applied_keys_for applied name)
      ≡ (is_some (lookup key applied) && (key == name || is_child name key))
unfolding applied_keys_for
has-applied_keys_for name key applied =
    ground (arith, has-sort_strings key (keys_owned name applied), has-keys_owned name key applied)
