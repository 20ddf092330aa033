-- ===== src/Reconcile/Resources/Expanded.antt =====
-- The orphans of a spec, with what the expansion of its directories gives.
use hyve.Prelude.{
  ℕ, ◌+◌, String, Bool, true, false, not, if◌then◌else◌, Option, none, some, List, [], ◌∷◌, ◌++◌,
  ◌≡◌, refl, ◌∙◌, arith, ◌==◌, ◌&&◌, ◌||◌, any, is_some, Option-cases, inl, inr,
}
use hyve.Prelude.Text.{◌<>◌}
use hyve.Prelude.Maps.{Map, lookup}
use hyve.Types.{AppliedResource, ResourceRef}
use hyve.Reconcile.Host.{DirEntry}
use hyve.Reconcile.Resources.{
  ResourceItem, is_child, spec_resource_names, find_orphaned_resources, children, hold_dirs,
  expand_resource_items,
}
use hyve.Reconcile.Resources.Orphans.{has, is_held, has-find_orphaned}

-- The file of a directory is tracked as "resource/file".
abbrev pub is_file_in : String → String → DirEntry → Bool
is_file_in name parent e = (parent <> ("/" <> e.stem)) == name

abbrev pub is_file_of : String → String → Option (List DirEntry) → Bool
is_file_of name parent none = false
is_file_of name parent (some entries) = any (is_file_in name parent) entries

abbrev is_item : String → ResourceItem → Bool
is_item name it = it.ref.name == name

any-append :
    (p : ResourceItem → Bool) (xs ys : List ResourceItem)
    → any p (xs ++ ys) ≡ (any p xs || any p ys)
any-append p [] ys = refl
any-append p (x ∷ xs) ys = ground (arith, any-append p xs ys)

regroup :
    (tracked named listed unlisted : Bool)
    → (tracked && not ((named || listed) || unlisted))
      ≡ (tracked && not (named || (listed || unlisted)))
regroup tracked true listed unlisted = refl
regroup tracked false listed unlisted = refl

module _ (is_dir : String → Bool) (resolve : String → Option (List DirEntry)) where
  abbrev pub is_from_dir : ResourceRef → Bool
  is_from_dir r = not (r.source == "") && is_dir r.source

  -- A directory that is to be listed, and cannot be.
  abbrev pub is_broken : ResourceRef → Bool
  is_broken r = not r.delete && (is_from_dir r && not (is_some (resolve r.source)))

  -- The name is that of a file of a directory before the first broken one.
  abbrev pub is_listed : String → List ResourceRef → Bool
  is_listed name [] = false
  is_listed name (r ∷ resources) =
      not (is_broken r)
      && ((not r.delete && (is_from_dir r && is_file_of name r.name (resolve r.source)))
          || is_listed name resources)

  -- The name is below a directory from the first broken one on.
  abbrev pub is_unlisted : String → List ResourceRef → Bool
  is_unlisted name [] = false
  is_unlisted name (r ∷ resources) =
      if is_broken r
      then any (λ s. is_from_dir s && is_child s.name name) (r ∷ resources)
      else is_unlisted name resources

  has-children :
      (name : String) (r : ResourceRef) (i : ℕ) (entries : List DirEntry)
      → any (is_item name) (children r i entries) ≡ any (is_file_in name r.name) entries
  unfolding children
  has-children name r i [] = refl
  has-children name r i (e ∷ entries) = rw (has-children name r i entries) refl

  has-hold_dirs :
      (name : String) (resources : List ResourceRef)
      → is_held (hold_dirs is_dir resources) name
        ≡ any (λ s. is_from_dir s && is_child s.name name) resources
  unfolding hold_dirs
  has-hold_dirs name [] = refl
  has-hold_dirs name (r ∷ resources) = ground (arith, has-hold_dirs name resources)

  has-items :
      (name : String) (i : ℕ) (resources : List ResourceRef)
      → spec_resource_names resources (expand_resource_items is_dir resolve i resources).items name
        ≡ (any (λ r. r.name == name) resources || is_listed name resources)
  unfolding expand_resource_items spec_resource_names
  has-items name i [] = refl
  has-items name i (r ∷ resources) = elim (Option-cases (resolve r.source)) [
    | inl e ↦ rw e (ground (arith, has-items name (i + 1) resources))
    | inr (entries, e) ↦ rw e (
        ground (
          arith,
          has-items name (i + 1) resources,
          has-children name r i entries,
          any-append (is_item name) (children r i entries)
              (expand_resource_items is_dir resolve (i + 1) resources).items,
        ))
  ]

  is_held-expand :
      (name : String) (i : ℕ) (resources : List ResourceRef)
      → is_held (expand_resource_items is_dir resolve i resources).held_prefixes name
        ≡ is_unlisted name resources
  unfolding expand_resource_items
  is_held-expand name i [] = refl
  is_held-expand name i (r ∷ resources) = elim (Option-cases (resolve r.source)) [
    | inl e ↦
        rw e (ground (arith, has-hold_dirs name resources, is_held-expand name (i + 1) resources))
    | inr (entries, e) ↦ rw e (ground (arith, is_held-expand name (i + 1) resources))
  ]

  -- With the names and the prefixes that the expansion of a spec gives, a tracked resource is
  -- reported as an orphan exactly if its name is not that of a resource of the spec, nor that of a
  -- file in a directory that is expanded (one of a resource not marked for deletion) before the
  -- first such directory that cannot be listed, and it is not below a directory of any resource
  -- from that one on.
  pub has-find_orphaned_resources :
      (i : ℕ) (resources : List ResourceRef) (applied : Map AppliedResource) (name : String)
      → let expansion = expand_resource_items is_dir resolve i resources in
        has name (
          find_orphaned_resources
            (spec_resource_names resources expansion.items)
            expansion.held_prefixes
            applied)
        ≡ (is_some (lookup name applied)
            && not (
                any (λ r. r.name == name) resources
                || (is_listed name resources || is_unlisted name resources)))
  has-find_orphaned_resources i resources applied name =
      let expansion = expand_resource_items is_dir resolve i resources in
      has-find_orphaned (spec_resource_names resources expansion.items) expansion.held_prefixes
        applied name
      ∙ rw (has-items name i resources, is_held-expand name i resources)
          (regroup _ _ (is_listed name resources) (is_unlisted name resources))
