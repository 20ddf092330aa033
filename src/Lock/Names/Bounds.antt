-- ===== src/Lock/Names/Bounds.antt =====
-- The names that `CRName` of internal/module/lock.go derives are names Kubernetes accepts.
use Prim.Native.Char.{Char, code}
use hyve.Prelude.{
  ℕ, zero, suc, String, Bool, true, false, ◌&&◌, ◌||◌, not, ◌==◌, if◌then◌else◌, nat_eq, ltb, ◌≡◌,
  ◌≤◌, refl, arith, Bool-cases, inl, inr, ◌⊎◌,
}
use hyve.Prelude.Text.{to_lower, ◌<>◌}
use hyve.Lock.Names.{
  is_plain, slug, trim_left, trim_right, take, length, shorten, or_module, trimmed_slug, cr_name,
}

abbrev is_between : ℕ → ℕ → ℕ → Bool
is_between low high n = not (ltb n low) && not (ltb high n)

-- a to z, 0 to 9, and the dash.
is_name_char : Char → Bool
is_name_char ch =
    is_between b'a' b'z' (code ch) || (is_between b'0' b'9' (code ch) || nat_eq (code ch) b'-')

is_name_char-plain : (ch : Char) → is_plain ch ≡ true → is_name_char ch ≡ true
unfolding is_name_char is_plain
is_name_char-plain ch h = ground (arith, h)

are_name_chars : String → Bool
unfolding is_name_char
are_name_chars String.[] = true
are_name_chars (String.◌∷◌ ch s) = is_name_char ch && are_name_chars s

starts_with_dash : String → Bool
starts_with_dash String.[] = false
starts_with_dash (String.◌∷◌ ch s) = nat_eq (code ch) b'-'

ends_with_dash : String → Bool
ends_with_dash String.[] = false
ends_with_dash (String.◌∷◌ ch s) =
    let further = ends_with_dash s in if s == "" then nat_eq (code ch) b'-' else further

-- At most 253 lower-case letters, digits and dashes, at least one, and no dash at an end.
pub is_object_name : String → Bool
unfolding are_name_chars starts_with_dash ends_with_dash length
is_object_name s =
    not (s == "")
    && not (ltb 253 (length s))
    && are_name_chars s
    && not (starts_with_dash s)
    && not (ends_with_dash s)

slug-chars : (last_dash : Bool) (s : String) → are_name_chars (slug last_dash s) ≡ true
unfolding slug are_name_chars is_name_char
slug-chars last_dash String.[] = refl
slug-chars last_dash (String.◌∷◌ ch s) =
    ground (arith, slug-chars (not (is_plain ch)) s, is_name_char-plain ch)

trim_left-chars : (s : String) → are_name_chars s ≡ true → are_name_chars (trim_left s) ≡ true
unfolding trim_left are_name_chars
trim_left-chars String.[] h = refl
trim_left-chars (String.◌∷◌ ch s) h = ground (arith, h, trim_left-chars s)

trim_left-start : (s : String) → starts_with_dash (trim_left s) ≡ false
unfolding trim_left starts_with_dash
trim_left-start String.[] = refl
trim_left-start (String.◌∷◌ ch s) = ground (arith, trim_left-start s)

trim_right-cases :
    (ch : Char) (s : String)
    → (trim_right (String.◌∷◌ ch s) ≡ "")
      ⊎ ((trim_right (String.◌∷◌ ch s) ≡ String.◌∷◌ ch (trim_right s))
          × ((nat_eq (code ch) b'-' && trim_right s == "") ≡ false))
unfolding trim_right
trim_right-cases ch s = elim (Bool-cases (nat_eq (code ch) b'-' && trim_right s == "")) [
  | inl e ↦ inl (rw e refl)
  | inr e ↦ inr (rw e refl, e)
]

trim_right-chars : (s : String) → are_name_chars s ≡ true → are_name_chars (trim_right s) ≡ true
unfolding trim_right are_name_chars
trim_right-chars String.[] h = refl
trim_right-chars (String.◌∷◌ ch s) h = elim (trim_right-cases ch s) [
  | inl e ↦ rw e refl
  | inr (e, _) ↦ rw e (ground (arith, h, trim_right-chars s))
]

trim_right-start :
    (s : String) → starts_with_dash s ≡ false → starts_with_dash (trim_right s) ≡ false
unfolding trim_right starts_with_dash
trim_right-start String.[] h = refl
trim_right-start (String.◌∷◌ ch s) h = elim (trim_right-cases ch s) [
  | inl e ↦ rw e refl
  | inr (e, _) ↦ rw e h
]

trim_right-end : (s : String) → ends_with_dash (trim_right s) ≡ false
unfolding trim_right ends_with_dash
trim_right-end String.[] = refl
trim_right-end (String.◌∷◌ ch s) = elim (trim_right-cases ch s) [
  | inl e ↦ rw e refl
  | inr (e, d) ↦ rw e (ground (arith, d, trim_right-end s))
]

trim_right-length : (s : String) → length (trim_right s) ≤ length s
unfolding trim_right length
trim_right-length String.[] = omega arith
trim_right-length (String.◌∷◌ ch s) = elim (trim_right-cases ch s) [
  | inl e ↦ rw e (omega arith)
  | inr (e, _) ↦ rw e (omega (arith, trim_right-length s))
]

take-chars : (n : ℕ) (s : String) → are_name_chars s ≡ true → are_name_chars (take n s) ≡ true
unfolding take are_name_chars
take-chars zero s h = refl
take-chars (suc n) String.[] h = refl
take-chars (suc n) (String.◌∷◌ ch s) h = ground (arith, h, take-chars n s)

take-start : (n : ℕ) (s : String) → starts_with_dash s ≡ false → starts_with_dash (take n s) ≡ false
unfolding take starts_with_dash
take-start zero s h = refl
take-start (suc n) String.[] h = refl
take-start (suc n) (String.◌∷◌ ch s) h = h

take-length : (n : ℕ) (s : String) → length (take n s) ≤ n
unfolding take length
take-length zero s = omega arith
take-length (suc n) String.[] = omega arith
take-length (suc n) (String.◌∷◌ ch s) = omega (arith, take-length n s)

module _ (s : String) (chars : are_name_chars s ≡ true) (start : starts_with_dash s ≡ false) where
  shorten-chars : are_name_chars (shorten s) ≡ true
  unfolding shorten
  shorten-chars = elim (Bool-cases (ltb 253 (length s))) [
    | inl e ↦ rw e (trim_right-chars _ (take-chars 253 s chars))
    | inr e ↦ rw e chars
  ]

  shorten-start : starts_with_dash (shorten s) ≡ false
  unfolding shorten
  shorten-start = elim (Bool-cases (ltb 253 (length s))) [
    | inl e ↦ rw e (trim_right-start _ (take-start 253 s start))
    | inr e ↦ rw e start
  ]

shorten-end : (s : String) → ends_with_dash s ≡ false → ends_with_dash (shorten s) ≡ false
unfolding shorten
shorten-end s h = elim (Bool-cases (ltb 253 (length s))) [
  | inl e ↦ rw e (trim_right-end (take 253 s))
  | inr e ↦ rw e h
]

shorten-length : (s : String) → ltb 253 (length (shorten s)) ≡ false
unfolding shorten
shorten-length s = elim (Bool-cases (ltb 253 (length s))) [
  | inl e ↦ rw e (ground (arith, trim_right-length (take 253 s), take-length 253 s))
  | inr e ↦ rw e e
]

or_module-is_object_name :
    (s : String)
    → are_name_chars s ≡ true
    → starts_with_dash s ≡ false
    → ends_with_dash s ≡ false
    → ltb 253 (length s) ≡ false
    → is_object_name (or_module s) ≡ true
unfolding or_module is_object_name are_name_chars starts_with_dash ends_with_dash length
    is_name_char
or_module-is_object_name s chars start stop len = elim (Bool-cases (s == "")) [
  | inl e ↦ rw e refl
  | inr e ↦ rw e (ground (arith, e, len, chars, start, stop))
]

module _ (raw : String) where
  trimmed_slug-chars : are_name_chars (trimmed_slug raw) ≡ true
  unfolding trimmed_slug
  trimmed_slug-chars = trim_right-chars _ (trim_left-chars _ (slug-chars false raw))

  trimmed_slug-start : starts_with_dash (trimmed_slug raw) ≡ false
  unfolding trimmed_slug
  trimmed_slug-start = trim_right-start _ (trim_left-start (slug false raw))

  trimmed_slug-end : ends_with_dash (trimmed_slug raw) ≡ false
  unfolding trimmed_slug
  trimmed_slug-end = trim_right-end (trim_left (slug false raw))

  shortened-is_object_name : is_object_name (or_module (shorten (trimmed_slug raw))) ≡ true
  shortened-is_object_name =
      or_module-is_object_name (shorten (trimmed_slug raw))
        (shorten-chars (trimmed_slug raw) trimmed_slug-chars trimmed_slug-start)
        (shorten-start (trimmed_slug raw) trimmed_slug-chars trimmed_slug-start)
        (shorten-end (trimmed_slug raw) trimmed_slug-end) (shorten-length (trimmed_slug raw))

-- Whatever the source and the version, the name is one that Kubernetes accepts for an object.
pub cr_name-is_object_name :
    (source version : String) → is_object_name (cr_name source version) ≡ true
unfolding cr_name
cr_name-is_object_name source version =
    shortened-is_object_name (to_lower (source <> ("-" <> version)))
