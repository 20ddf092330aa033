-- ===== src/Workflow/Requirements/Versions.antt =====
-- The comparison of versions of internal/workflow/requirements.go as an order.
use Prim.Native.String as Text
use Prim.Native.Char.{code}
use text.Mathlib.TextEquality.{Char-path}
use hyve.Prelude.{
  String, true, false, List, [], ◌∷◌, ◌||◌, ◌≡◌, refl, arith, Bool, ◌==◌, if◌then◌else◌,
  String-cases, str_eq_self, str_eq_of_ne, inl, inr,
}
use hyve.Workflow.Requirements.{string_lt, parts_satisfy, version_satisfies, trim_v, dotted}

string_lt_asymmetric : (s t : String) → string_lt s t ≡ true → string_lt t s ≡ false
unfolding string_lt
string_lt_asymmetric s Text.[] h = ground arith
string_lt_asymmetric Text.[] (Text.◌∷◌ d t) h = refl
string_lt_asymmetric (Text.◌∷◌ c s) (Text.◌∷◌ d t) h = ground (arith, string_lt_asymmetric s t)

-- What lies between two texts is on one side of each text.
string_lt_between : (s t u : String) → string_lt s u ≡ true → string_lt s t || string_lt t u ≡ true
unfolding string_lt
string_lt_between s t Text.[] h = ground arith
string_lt_between Text.[] Text.[] (Text.◌∷◌ e u) h = refl
string_lt_between Text.[] (Text.◌∷◌ d t) (Text.◌∷◌ e u) h = refl
string_lt_between (Text.◌∷◌ c s) Text.[] (Text.◌∷◌ e u) h = refl
string_lt_between (Text.◌∷◌ c s) (Text.◌∷◌ d t) (Text.◌∷◌ e u) h =
    ground (arith, string_lt_between s t u)

parts_satisfy_total : (xs ys : List String) → parts_satisfy xs ys || parts_satisfy ys xs ≡ true
unfolding parts_satisfy
parts_satisfy_total xs [] = refl
parts_satisfy_total [] (b ∷ ys) = refl
parts_satisfy_total (a ∷ xs) (b ∷ ys) = ground (arith, parts_satisfy_total xs ys)

parts_satisfy_trans :
    (xs ys zs : List String)
    → parts_satisfy xs ys ≡ true
    → parts_satisfy ys zs ≡ true
    → parts_satisfy xs zs ≡ true
unfolding parts_satisfy
parts_satisfy_trans xs ys [] h k = refl
parts_satisfy_trans xs [] (c ∷ zs) h k = ground arith
parts_satisfy_trans [] (b ∷ ys) (c ∷ zs) h k = ground arith
parts_satisfy_trans (a ∷ xs) (b ∷ ys) (c ∷ zs) h k = ground (
  arith,
  parts_satisfy_trans xs ys zs,
  string_lt_asymmetric a b,
  string_lt_asymmetric b c,
  string_lt_asymmetric a c,
  string_lt_between a c b,
  string_lt_between b a c,
  string_lt_between c a b,
  string_lt_between b c a,
  string_lt_between a b c,
  string_lt_between c b a,
)

-- Of two versions at least one satisfies the other as a requirement.
pub version_satisfies_total : (a b : String) → version_satisfies a b || version_satisfies b a ≡ true
unfolding version_satisfies
version_satisfies_total a b = parts_satisfy_total (dotted (trim_v a)) (dotted (trim_v b))

-- A version that satisfies another one satisfies all that the other one satisfies.
pub version_satisfies_trans :
    (a b c : String)
    → version_satisfies a b ≡ true
    → version_satisfies b c ≡ true
    → version_satisfies a c ≡ true
unfolding version_satisfies
version_satisfies_trans a b c =
    parts_satisfy_trans (dotted (trim_v a)) (dotted (trim_v b)) (dotted (trim_v c))

string_lt_irreflexive : (s : String) → string_lt s s ≡ false
unfolding string_lt
string_lt_irreflexive Text.[] = refl
string_lt_irreflexive (Text.◌∷◌ c s) = ground (arith, string_lt_irreflexive s)

string_lt_connected : (s t : String) → string_lt s t ≡ false → string_lt t s ≡ false → s ≡ t
unfolding string_lt
string_lt_connected Text.[] Text.[] h k = refl
string_lt_connected Text.[] (Text.◌∷◌ d t) h k = cc
string_lt_connected (Text.◌∷◌ c s) Text.[] h k = cc
string_lt_connected (Text.◌∷◌ c s) (Text.◌∷◌ d t) h k =
    let same : code c ≡ code d = ground (arith, h, k) in
    rw (Char-path c d same, string_lt_connected s t (ground (arith, h, k)) (ground (arith, h, k)))
      refl

-- The first parts that differ decide, as texts. If none do, the second list must have ended.
abbrev pub is_at_least : List String → List String → Bool
is_at_least xs [] = true
is_at_least [] (y ∷ ys) = false
is_at_least (x ∷ xs) (y ∷ ys) =
    let further = is_at_least xs ys in if x == y then further else string_lt y x

-- The loop of versionSatisfies decides at the first parts that differ.
pub parts_satisfy-is_at_least : (xs ys : List String) → parts_satisfy xs ys ≡ is_at_least xs ys
unfolding parts_satisfy
parts_satisfy-is_at_least xs [] = refl
parts_satisfy-is_at_least [] (y ∷ ys) = refl
parts_satisfy-is_at_least (x ∷ xs) (y ∷ ys) = elim (String-cases x y) [
  | inl e ↦
      rw e (ground (arith, string_lt_irreflexive y, str_eq_self y, parts_satisfy-is_at_least xs ys))
  | inr e ↦ ground (
    arith,
    str_eq_of_ne e,
    λ (h : string_lt x y ≡ false) (k : string_lt y x ≡ false). e (string_lt_connected x y h k),
    string_lt_asymmetric x y,
  )
]
