-- ===== src/Kubeconfig/Files/Laws.antt =====
-- What the operations of internal/kubeconfig/merge.go leave in the file.
use hyve.Prelude.{String, ◌≡◌, refl, Option, none, some, List, [], ◌∷◌, arith, ok, >>=-eq-ok}
use mathlib.Core.List.{head?}
use hyve.Kubeconfig.{Entry, KubeConfigStructure, merge_entry}
use hyve.Kubeconfig.Merge.{IsMerged, merge_entry-IsMerged}
use hyve.Kubeconfig.Files.{
  Error, File, write, or_fail, read_existing, merge_first, merge_kubeconfig_entry,
}

abbrev pub Parse : Type 0
Parse = String → Option KubeConfigStructure

abbrev Marshal : Type 0
Marshal = KubeConfigStructure → Option String

-- What the code relies on of yaml.v3: a document that it wrote is read back.
abbrev ReadsBack : Parse → Marshal → Type 0
ReadsBack parse marshal =
    (c : KubeConfigStructure) (text : String) → marshal c ≡ some text → parse text ≡ some c

abbrev Holds : Parse → File → KubeConfigStructure → Type 0
Holds parse file c = (text : String) × (file.content ≡ some text) × (parse text ≡ some c)

or_fail-eq-ok {ℓ} :
    {A : Type ℓ} (e : Error) (o : Option A) {a : A} → or_fail e o ≡ ok a → o ≡ some a
or_fail-eq-ok e none h = cc
or_fail-eq-ok e (some a) h = cc

write-Holds :
    (parse : Parse) (marshal : Marshal) (text : String) (c : KubeConfigStructure)
    (file after : File)
    → parse text ≡ some c
    → write text file ≡ ok after
    → Holds parse after c
unfolding write
write-Holds parse marshal text c file after p h = (text, ground arith, p)

-- The file after a successful merge of the first of `cs`, of `xs` and of `us`.
pub record Merged (parse : Parse) (marshal : Marshal) (cs xs us : List Entry) (name : String)
    (before after : File) : Type 0 where
  pub old : KubeConfigStructure
  pub new : KubeConfigStructure
  pub cluster : Entry
  pub context : Entry
  pub user : Entry
  pub first_cluster : head? cs ≡ some cluster
  pub first_context : head? xs ≡ some context
  pub first_user : head? us ≡ some user
  pub read : read_existing parse marshal before ≡ ok old
  pub written : Holds parse after new
  pub merged : IsMerged name cluster context user old new

module _ (parse : Parse) (marshal : Marshal) (yaml : ReadsBack parse marshal) where
  merge_first-Merged :
      (cs xs us : List Entry) (name : String) (file after : File)
      → merge_first parse marshal cs xs us name file ≡ ok after
      → Merged parse marshal cs xs us name file after
  unfolding merge_first
  merge_first-Merged (c ∷ cs) (x ∷ xs) (u ∷ us) name file after h =
      let (old, read, h₁) = >>=-eq-ok (read_existing parse marshal file) _ h in
      let (text, made, h₂) = >>=-eq-ok (or_fail _ (marshal (merge_entry name c x u old))) _ h₁ in
      record {
        old = old;
        new = merge_entry name c x u old;
        cluster = c;
        context = x;
        user = u;
        first_cluster = refl;
        first_context = refl;
        first_user = refl;
        read = read;
        written =
            write-Holds parse marshal text _ file after (yaml _ text (or_fail-eq-ok _ _ made))
              (ground (arith, h₂));
        merged = merge_entry-IsMerged name c x u old;
      }
  merge_first-Merged [] xs us name file after h = cc
  merge_first-Merged (c ∷ cs) [] us name file after h = cc
  merge_first-Merged (c ∷ cs) (x ∷ xs) [] name file after h = cc

-- If merging succeeds, and YAML that was written is read back, the fetched document has a first
-- cluster, context and user, and the file holds the existing document (an empty one if there was
-- no file) with these, renamed, as its only entries of that name, all other entries unchanged,
-- and that context current.
merge_kubeconfig_entry-Merged :
    (parse : Parse) (marshal : Marshal) (text name : String) (file after : File)
    → ReadsBack parse marshal
    → merge_kubeconfig_entry parse marshal text name file ≡ ok after
    → (incoming : KubeConfigStructure) × (parse text ≡ some incoming)
      × Merged parse marshal incoming.clusters incoming.contexts incoming.users name file after
unfolding merge_kubeconfig_entry
merge_kubeconfig_entry-Merged parse marshal text name file after yaml h =
    let (incoming, read, h₁) = >>=-eq-ok (or_fail _ (parse text)) _ h in
    (
      incoming,
      or_fail-eq-ok _ _ read,
      merge_first-Merged parse marshal yaml incoming.clusters incoming.contexts incoming.users name
          file after h₁,
    )
