-- ===== src/Types/Refs.antt =====
-- The methods of internal/types/types.go and internal/types/resource.go: local and remote
-- references, and their YAML forms (a bare string or a mapping).
pub mod RoundTrip
use Prim.Native.String
use hyve.Prelude.{
  String, Bool, not, ◌&&◌, ◌||◌, Option, none, some, List, [], ◌∷◌, ◌++◌, ◌==◌, if◌then◌else◌,
}
use hyve.Prelude.Maps.{Map, get_or_empty, insert}
use text.Mathlib.Text.{starts_with}
use hyve.Types.{WorkflowRef, WorkflowsSpec, ResourceRef, SecretKeyRef}

-- What yaml.v3 hands to an `unmarshal` callback: a scalar, which decodes into a string, a mapping
-- with scalar values, or a node that decodes as neither.
pub data Node : Type 0 where
  scalar : String → Node
  mapping : Map String → Node
  other : Node

unfoldable pub is_remote : WorkflowRef → Bool
is_remote r = not (r.source == "")

unfoldable pub label : WorkflowRef → String
unfolding is_remote
label r =
    if not (is_remote r)
    then r.name
    else if not (r.path == "")
    then String.◌++◌ r.source (String.◌++◌ " (path: " (String.◌++◌ r.path ")"))
    else r.source

-- `none` is an error: a node of another kind, or a mapping without `source`.
pub unmarshal_ref : Node → Option WorkflowRef
unfolding get_or_empty
unmarshal_ref (scalar name) = some (record { name = name; source = ""; path = "" })
unmarshal_ref (mapping m) =
    if get_or_empty "source" m == ""
    then none
    else some (record { name = ""; source = get_or_empty "source" m; path = get_or_empty "path" m })
unmarshal_ref other = none

-- `yaml:"path,omitempty"`: an empty path is left out.
pub marshal_ref : WorkflowRef → Node
unfolding is_remote
marshal_ref r =
    if not (is_remote r)
    then scalar r.name
    else if r.path == ""
    then mapping (("source", r.source) ∷ [])
    else mapping (("source", r.source) ∷ ("path", r.path) ∷ [])

-- The `raw` struct of `WorkflowsSpec.UnmarshalYAML`, with the deprecated `onDestroy`.
pub record RawWorkflows : Type 0 where
  pub before_create : List WorkflowRef
  pub on_create : List WorkflowRef
  pub after_create : List WorkflowRef
  pub on_delete : List WorkflowRef
  pub on_destroy : List WorkflowRef
  pub after_delete : List WorkflowRef
  pub pre_reconcile : List WorkflowRef

abbrev pub is_empty {ℓ} : {A : Type ℓ} → List A → Bool
is_empty [] = Bool.true
is_empty (x ∷ xs) = Bool.false

unfoldable unmarshal_workflows : RawWorkflows → WorkflowsSpec
unmarshal_workflows r = record {
  before_create = r.before_create;
  on_create = r.on_create;
  after_create = r.after_create;
  on_delete =
      if is_empty r.on_delete && not (is_empty r.on_destroy) then r.on_destroy else r.on_delete;
  after_delete = r.after_delete;
  pre_reconcile = r.pre_reconcile;
}

-- `ResourceRef.IsRemote`: neither empty nor a local path.
unfoldable pub is_remote_resource : ResourceRef → Bool
is_remote_resource r =
    not (r.source == "")
    && not (starts_with r.source "./")
    && not (starts_with r.source "../")
    && not (starts_with r.source "/")

pub unmarshal_key : Node → Option SecretKeyRef
unfolding get_or_empty
unmarshal_key (scalar name) = some (record { env = name; key = name })
unmarshal_key (mapping m) =
    if get_or_empty "env" m == ""
    then none
    else some (record {
      env = get_or_empty "env" m;
      key = if get_or_empty "key" m == "" then get_or_empty "env" m else get_or_empty "key" m;
    })
unmarshal_key other = none

pub marshal_key : SecretKeyRef → Node
marshal_key k =
    if k.key == "" || k.key == k.env
    then scalar k.env
    else mapping (("env", k.env) ∷ ("key", k.key) ∷ [])
