-- ===== src/Lock/Names.antt =====
-- `CRName` of internal/module/lock.go: the name of the custom resource that records a reference.
pub mod Bounds
use Prim.Native.Char.{Char, code}
use Prim.Native.String
use hyve.Prelude.{
  ℕ, zero, suc, String, Bool, true, false, ◌&&◌, ◌||◌, not, ◌==◌, if◌then◌else◌, nat_eq, ltb,
}
use hyve.Prelude.Text.{◌<>◌, to_lower}

-- r >= 'a' && r <= 'z', r >= '0' && r <= '9'
unfoldable is_plain : Char → Bool
is_plain ch =
    (not (ltb (code ch) b'a') && not (ltb b'z' (code ch)))
    || (not (ltb (code ch) b'0') && not (ltb b'9' (code ch)))

-- The loop over the characters, with `lastDash`: a run of others becomes one dash.
unfoldable slug : Bool → String → String
unfolding is_plain
slug last_dash String.[] = ""
slug last_dash (String.◌∷◌ ch s) =
    let further = slug (not (is_plain ch)) s in
    if is_plain ch
    then String.◌∷◌ ch further
    else if last_dash
    then further
    else String.◌∷◌ "-" further

-- strings.TrimLeft(s, "-")
unfoldable trim_left : String → String
trim_left String.[] = ""
trim_left (String.◌∷◌ ch s) =
    let trimmed = trim_left s in if nat_eq (code ch) b'-' then trimmed else String.◌∷◌ ch s

-- strings.TrimRight(s, "-")
unfoldable trim_right : String → String
trim_right String.[] = ""
trim_right (String.◌∷◌ ch s) =
    let trimmed = trim_right s in
    if nat_eq (code ch) b'-' && trimmed == "" then "" else String.◌∷◌ ch trimmed

-- s[:n], and len(s), of a text whose characters are bytes, as `slug` leaves it.
unfoldable take : ℕ → String → String
take zero s = ""
take (suc n) String.[] = ""
take (suc n) (String.◌∷◌ ch s) = String.◌∷◌ ch (take n s)

unfoldable pub length : String → ℕ
length String.[] = 0
length (String.◌∷◌ ch s) = suc (length s)

unfoldable shorten : String → String
unfolding trim_right take length
shorten name = if ltb 253 (length name) then trim_right (take 253 name) else name

or_module : String → String
or_module name = if name == "" then "module" else name

-- strings.Trim(s, "-") of the slug.
trimmed_slug : String → String
unfolding slug trim_left trim_right
trimmed_slug raw = trim_right (trim_left (slug false raw))

unfoldable pub cr_name : String → String → String
unfolding to_lower trimmed_slug shorten or_module
cr_name source version = or_module (shorten (trimmed_slug (to_lower (source <> ("-" <> version)))))
