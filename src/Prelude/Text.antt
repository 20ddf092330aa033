-- ===== src/Prelude/Text.antt =====
-- Go's `strings` functions on separators, over the characters of a text. The separators are
-- ASCII, so that characters and bytes agree on where they stand.
use Prim.Native.Char.{Char, code}
use Prim.Native.String
use Prim.Native.String.{String}
use Prim.Native.Nat.{ℕ}
use mathlib.Core.Path.{◌≡◌, refl}
use mathlib.Core.Logic.{◌≢◌}
use mathlib.Core.Bool.{Bool, ◌&&◌, ◌||◌}
use mathlib.Core.Option.{Option, none, some}
use mathlib.Core.List.{List, [], ◌∷◌}
use native.Mathlib.Omega.{arith}
use text.Mathlib.Text.{◌==◌}
use text.Mathlib.TextLemmas.{nil-append, cons-append}
use hyve.Prelude.Tests.{nat_eq, if◌then◌else◌}

infixr 66 ◌<>◌
abbrev pub ◌<>◌ : String → String → String
s <> t = String.◌++◌ s t

-- The parts before and after the last `c`: strings.LastIndex and the two slices.
unfoldable pub cut_last : ℕ → String → Option (String × String)
cut_last c String.[] = none
cut_last c (String.◌∷◌ ch s) = elim (cut_last c s) [
  | some (before, after) ↦ some (String.◌∷◌ ch before, after)
  | none ↦ if nat_eq (code ch) c then some ("", s) else none
]

-- strings.SplitN(s, "//", 2), `none` if there is no "//".
unfoldable pub cut_double_slash : String → Option (String × String)
cut_double_slash String.[] = none
cut_double_slash (String.◌∷◌ a String.[]) = none
cut_double_slash (String.◌∷◌ a (String.◌∷◌ b s)) =
    let rest = cut_double_slash (String.◌∷◌ b s) in
    if nat_eq (code a) b'/' && nat_eq (code b) b'/'
    then some ("", s)
    else elim rest [ none ↦ none | some (before, after) ↦ some (String.◌∷◌ a before, after) ]

-- The first part and the further parts of strings.Split(s, c).
unfoldable pub split_on : ℕ → String → String × List String
split_on c String.[] = ("", [])
split_on c (String.◌∷◌ ch s) =
    let (part, parts) = split_on c s in
    if nat_eq (code ch) c then ("", part ∷ parts) else (String.◌∷◌ ch part, parts)

abbrev pub HasNo : ℕ → String → Type 0
HasNo c String.[] = Unit
HasNo c (String.◌∷◌ ch s) = (code ch ≢ c) × HasNo c s

cut_last_of_HasNo : (c : ℕ) (s : String) → HasNo c s → cut_last c s ≡ none
unfolding cut_last
cut_last_of_HasNo c String.[] h = refl
cut_last_of_HasNo c (String.◌∷◌ ch s) h = ground (arith, cut_last_of_HasNo c s)

-- A text without `c` behind the last one.
pub cut_last-append :
    (c : ℕ) (ch : Char) (s t : String)
    → code ch ≡ c
    → HasNo c t
    → cut_last c (s <> String.◌∷◌ ch t) ≡ some (s, t)
unfolding cut_last
cut_last-append c ch String.[] t e h = rw nil-append (ground (arith, cut_last_of_HasNo c t))
cut_last-append c ch (String.◌∷◌ a s) t e h =
    rw cons-append (ground (arith, cut_last-append c ch s t))

-- strings.HasSuffix
unfoldable pub ends_with : String → String → Bool
ends_with String.[] t = String.[] == t
ends_with (String.◌∷◌ c s) t = String.◌∷◌ c s == t || ends_with s t

-- A part without `c` in front of the first one.
pub split_on-append :
    (c : ℕ) (ch : Char) (s t : String)
    → code ch ≡ c
    → HasNo c s
    → split_on c (s <> String.◌∷◌ ch t) ≡ (s, (split_on c t).0 ∷ (split_on c t).1)
unfolding split_on
split_on-append c ch String.[] t e h = rw nil-append (ground arith)
split_on-append c ch (String.◌∷◌ a s) t e h =
    rw cons-append (ground (arith, split_on-append c ch s t))

pub split_on_of_HasNo : (c : ℕ) (s : String) → HasNo c s → split_on c s ≡ (s, [])
unfolding split_on
split_on_of_HasNo c String.[] h = refl
split_on_of_HasNo c (String.◌∷◌ a s) h = ground (arith, split_on_of_HasNo c s)

-- The rest behind a prefix: strings.HasPrefix and the slice after it.
unfoldable pub strip_prefix : String → String → Option String
strip_prefix String.[] s = some s
strip_prefix (String.◌∷◌ a p) String.[] = none
strip_prefix (String.◌∷◌ a p) (String.◌∷◌ b s) =
    let rest = strip_prefix p s in if nat_eq (code a) (code b) then rest else none

-- The parts before and after the first `c`: strings.IndexByte and the two slices.
unfoldable pub cut_first : ℕ → String → Option (String × String)
cut_first c String.[] = none
cut_first c (String.◌∷◌ ch s) =
    let rest = cut_first c s in
    if nat_eq (code ch) c
    then some ("", s)
    else elim rest [ none ↦ none | some (before, after) ↦ some (String.◌∷◌ ch before, after) ]

-- The letter of the second alphabet that stands where the character is in the first.
unfoldable pub shift_letter : String → String → Char → Char
shift_letter (String.◌∷◌ a from) (String.◌∷◌ b to) ch =
    let further = shift_letter from to ch in if nat_eq (code ch) (code a) then b else further
shift_letter _ _ ch = ch

-- strings.ToLower on ASCII letters, which is what the code passes.
unfoldable pub to_lower : String → String
unfolding shift_letter
to_lower String.[] = ""
to_lower (String.◌∷◌ ch s) =
    String.◌∷◌ (shift_letter "ABCDEFGHIJKLMNOPQRSTUVWXYZ" "abcdefghijklmnopqrstuvwxyz" ch)
      (to_lower s)

-- A text without `c` before the first one.
pub cut_first-append :
    (c : ℕ) (ch : Char) (s t : String)
    → code ch ≡ c
    → HasNo c s
    → cut_first c (s <> String.◌∷◌ ch t) ≡ some (s, t)
unfolding cut_first
cut_first-append c ch String.[] t e h = rw nil-append (ground arith)
cut_first-append c ch (String.◌∷◌ a s) t e h =
    rw cons-append (ground (arith, cut_first-append c ch s t))

pub append_dot : (s : String) → "." <> s ≡ String.◌∷◌ "." s
append_dot s = rw (cons-append, nil-append) refl
