-- ===== src/Kubeconfig/Files.antt =====
-- internal/kubeconfig/merge.go: the operations on a kubeconfig file. The YAML library is a pair
-- of parameters, the file is its content with what a read and a write of it answer.
pub mod Laws
use hyve.Prelude.{
  ◌+◌, String, Bool, true, false, Option, none, some, List, [], ◌∷◌, length, nat_eq, Result, ok,
  err, ◌>>=◌, if◌then◌else◌,
}
use hyve.Kubeconfig.{
  Entry, KubeConfigStructure, remove_context, deduplicate, merge_entry, context_names,
}

pub data Error : Type 0 where
  parse_failed no_entries read_failed marshal_failed mkdir_failed write_failed : Error

-- `content` is `none` if the file does not exist.
pub record File : Type 0 where
  pub content : Option String
  pub readable : Bool
  pub has_directory : Bool
  pub writable : Bool

pub write : String → File → Result Error File
write text file =
    if file.writable then ok (record file { content = some text }) else err write_failed

abbrev pub or_fail {ℓ} : {A : Type ℓ} → Error → Option A → Result Error A
or_fail e none = err e
or_fail e (some a) = ok a

-- The entry counts before and after are equal.
abbrev same_size : KubeConfigStructure → KubeConfigStructure → Bool
same_size c d =
    nat_eq (length c.clusters + length c.contexts + length c.users)
      (length d.clusters + length d.contexts + length d.users)

abbrev empty_config : KubeConfigStructure
empty_config = record {
  api_version = "v1";
  kind = "Config";
  current_context = "";
  clusters = [];
  contexts = [];
  users = [];
}

module _ (parse : String → Option KubeConfigStructure)
    (marshal : KubeConfigStructure → Option String) where
  unfoldable remove_kubeconfig_context : String → String → File → Result Error File
  unfolding remove_context write
  remove_kubeconfig_context config_content context_name file = do
    config ← or_fail parse_failed (parse config_content)
    result ← or_fail marshal_failed (marshal (remove_context context_name config))
    write result file

  deduplicate_content : String → File → Result Error File
  unfolding deduplicate write
  deduplicate_content text file = do
    config ← or_fail parse_failed (parse text)
    let rewritten = or_fail marshal_failed (marshal (deduplicate config)) >>= λ r. write r file
    if same_size (deduplicate config) config then ok file else rewritten

  unfoldable deduplicate_kubeconfig_entries : File → Result Error File
  unfolding deduplicate_content
  deduplicate_kubeconfig_entries file = elim file.content [
    | none ↦ if file.readable then ok file else err read_failed
    | some text ↦ if file.readable then deduplicate_content text file else err read_failed
  ]

  -- The `switch` on the error of reading the existing file.
  pub read_existing : File → Result Error KubeConfigStructure
  read_existing file =
      if file.readable
      then elim file.content [
        | none ↦ ok empty_config
        | some text ↦ or_fail parse_failed (parse text)
      ]
      else err read_failed

  pub merge_first : List Entry → List Entry → List Entry → String → File → Result Error File
  unfolding read_existing merge_entry write
  merge_first (cluster ∷ _) (context ∷ _) (user ∷ _) entry_name file = do
    existing ← read_existing file
    result ← or_fail marshal_failed (marshal (merge_entry entry_name cluster context user existing))
    if file.has_directory then write result file else err mkdir_failed
  merge_first _ _ _ entry_name file = err no_entries

  pub merge_kubeconfig_entry : String → String → File → Result Error File
  unfolding merge_first
  merge_kubeconfig_entry new_config_content entry_name file = do
    incoming ← or_fail parse_failed (parse new_config_content)
    merge_first incoming.clusters incoming.contexts incoming.users entry_name file

  unfoldable context_names_of : String → Result Error (List String)
  unfolding context_names
  context_names_of config_content = do
    config ← or_fail parse_failed (parse config_content)
    ok (context_names config.contexts)
