-- ===== src/Workflowref.antt =====
-- internal/workflowref/parse.go and types.go: references to workflow files in remote repositories.
pub mod Slashes
pub mod Parse
pub mod Install
use hyve.Prelude.{
  String, Bool, true, false, not, Option, none, some, List, [], ◌∷◌, ◌||◌, ◌==◌, if◌then◌else◌,
  Result, ok, err,
}
use hyve.Prelude.Text.{◌<>◌, cut_last, cut_double_slash, split_on, ends_with}

pub record ParsedSource : Type 0 where
  pub host : String
  pub org : String
  pub repo : String
  pub path : String
  pub version : String

pub repo_source : ParsedSource → String
repo_source p = p.host <> ("/" <> (p.org <> ("/" <> p.repo)))

unfoldable pub canonical_source : ParsedSource → String
unfolding repo_source
canonical_source p = repo_source p <> ("//" <> p.path)

pub data PathKind : Type 0 where
  file dir : PathKind

pub data Error : Type 0 where
  invalid_source ambiguous_path : String → Error

-- `if idx := strings.LastIndex(source, "@"); idx > 0`
pub cut_version : String → String × String
unfolding cut_last
cut_version source = elim (cut_last b'@' source) [
  | none ↦ (source, "")
  | some (before, version) ↦ if before == "" then (source, "") else (before, version)
]

pub cut_path : String → String × String
unfolding cut_double_slash
cut_path source = elim (cut_double_slash source) [ none ↦ (source, "") | some parts ↦ parts ]

from_segments : String → String × List String → String → String → Result Error ParsedSource
from_segments source (host, org ∷ repo ∷ more) path version =
    ok (record { host = host; org = org; repo = repo; path = path; version = version })
from_segments source (host, _) path version = err (invalid_source source)

unfoldable pub parse_source : String → Result Error ParsedSource
unfolding cut_version cut_path split_on from_segments
parse_source text =
    let (source, version) = cut_version text in
    let (repo_part, path) = cut_path source in
    from_segments repo_part (split_on b'/' repo_part) path version

unfoldable pub apply_path_override : ParsedSource → String → ParsedSource × Bool
apply_path_override ps path_override =
    if path_override == ""
    then (ps, false)
    else (record ps { path = path_override }, not (ps.path == ""))

unfoldable pub classify_path : String → Result Error PathKind
unfolding ends_with
classify_path path =
    if path == "" || ends_with path "/"
    then ok dir
    else if ends_with path ".yaml" || ends_with path ".yml"
    then ok file
    else err (ambiguous_path path)
