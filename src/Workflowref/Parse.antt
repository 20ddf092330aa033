-- ===== src/Workflowref/Parse.antt =====
-- `ParseSource` of internal/workflowref/parse.go reads what is written for a parsed source.
use text.Mathlib.TextLemmas.{nil-append, cons-append, append-ne-nil_of_right_ne-nil}
use hyve.Prelude.{String, ◌≡◌, ◌≢◌, refl, [], ◌∷◌, arith, ok, eq_iff}
use hyve.Prelude.Text.{◌<>◌, HasNo, cut_last-append, split_on, split_on-append, split_on_of_HasNo}
use hyve.Workflowref.{
  ParsedSource, repo_source, canonical_source, cut_version, cut_path, parse_source,
}
use hyve.Workflowref.Slashes.{
  NoDoubleSlash, StartsPlain-of_HasNo, StartsPlain-append, NoDoubleSlash-of_HasNo,
  NoDoubleSlash-append, cut_double_slash-append,
}

-- The parts of a reference: no "/" in host, organization and repository, the last two not empty,
-- and no "@" in the version. The path is any text.
pub record IsSource (p : ParsedSource) : Type 0 where
  pub host_plain : HasNo b'/' p.host
  pub org_plain : HasNo b'/' p.org
  pub org_given : p.org ≢ ""
  pub repo_plain : HasNo b'/' p.repo
  pub repo_given : p.repo ≢ ""
  pub version_plain : HasNo b'@' p.version

-- "host/org/repo//path@version"
abbrev pub print_source : ParsedSource → String
print_source p = canonical_source p <> ("@" <> p.version)

slash : (t : String) → ("/" <> t) ≡ String.◌∷◌ "/" t
slash t = rw cons-append (rw nil-append refl)

double_slash : (t : String) → ("//" <> t) ≡ String.◌∷◌ "/" (String.◌∷◌ "/" t)
double_slash t = rw cons-append (rw cons-append (rw nil-append refl))

at_sign : (t : String) → ("@" <> t) ≡ String.◌∷◌ "@" t
at_sign t = rw cons-append (rw nil-append refl)

double_slash-ne : (t : String) → ("//" <> t) ≢ ""
double_slash-ne t e = cc (double_slash t, e)

module _ (p : ParsedSource) (h : IsSource p) where
  segments : split_on b'/' (repo_source p) ≡ (p.host, p.org ∷ p.repo ∷ [])
  unfolding repo_source
  segments =
      rw (slash p.repo, slash (p.org <> String.◌∷◌ "/" p.repo))
        (ground (
          arith,
          split_on-append b'/' "/" p.host (p.org <> String.◌∷◌ "/" p.repo) refl h.host_plain,
          split_on-append b'/' "/" p.org p.repo refl h.org_plain,
          split_on_of_HasNo b'/' p.repo h.repo_plain,
        ))

  repo_source-NoDoubleSlash : NoDoubleSlash (repo_source p)
  unfolding repo_source
  repo_source-NoDoubleSlash =
      rw (slash p.repo, slash (p.org <> String.◌∷◌ "/" p.repo))
        (NoDoubleSlash-append p.host _ h.host_plain
          (StartsPlain-append p.org _ (StartsPlain-of_HasNo p.org h.org_given h.org_plain))
          (NoDoubleSlash-append p.org p.repo h.org_plain
            (StartsPlain-of_HasNo p.repo h.repo_given h.repo_plain)
            (NoDoubleSlash-of_HasNo p.repo h.repo_plain)))

  path_cut : cut_path (canonical_source p) ≡ (repo_source p, p.path)
  unfolding cut_path canonical_source
  path_cut = rw (double_slash p.path) (
      ground (
        arith,
        cut_double_slash-append "/" "/" (repo_source p) p.path refl refl repo_source-NoDoubleSlash,
      ))

  canonical_source-ne : canonical_source p ≢ ""
  unfolding canonical_source
  canonical_source-ne = append-ne-nil_of_right_ne-nil (repo_source p) (double_slash-ne p.path)

  version_cut : cut_version (print_source p) ≡ (canonical_source p, p.version)
  unfolding cut_version
  version_cut = rw (at_sign p.version) (
      ground (
        arith,
        cut_last-append b'@' "@" (canonical_source p) p.version refl h.version_plain,
        eq_iff (canonical_source p) "",
        canonical_source-ne,
      ))

-- A reference that is written as "host/org/repo//path@version" is parsed into its parts, if host,
-- organization and repository have no "/" in them, the last two are not empty, and the version
-- has no "@"; the path may be any text.
pub parse_source-print_source :
    (p : ParsedSource) → IsSource p → parse_source (print_source p) ≡ ok p
unfolding parse_source
parse_source-print_source p h = ground (arith, version_cut p h, path_cut p h, segments p h)
