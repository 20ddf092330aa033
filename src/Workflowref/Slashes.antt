-- ===== src/Workflowref/Slashes.antt =====
-- Where "//" stands in a source: the repository part has none and does not end in "/".
use Prim.Native.Char.{Char, code}
use text.Mathlib.TextLemmas.{nil-append, cons-append}
use hyve.Prelude.{String, ◌≡◌, ◌≢◌, ◌⊎◌, inl, inr, refl, some, arith}
use hyve.Prelude.Text.{◌<>◌, HasNo, cut_double_slash}

abbrev pub NoDoubleSlash : String → Type 0
NoDoubleSlash String.[] = Unit
NoDoubleSlash (String.◌∷◌ a String.[]) = code a ≢ b'/'
NoDoubleSlash (String.◌∷◌ a (String.◌∷◌ b s)) =
    ((code a ≢ b'/') ⊎ (code b ≢ b'/')) × NoDoubleSlash (String.◌∷◌ b s)

pub cut_double_slash-append :
    (a b : Char) (s t : String)
    → code a ≡ b'/'
    → code b ≡ b'/'
    → NoDoubleSlash s
    → cut_double_slash (s <> String.◌∷◌ a (String.◌∷◌ b t)) ≡ some (s, t)
unfolding cut_double_slash
cut_double_slash-append a b String.[] t e f h = rw nil-append (ground arith)
cut_double_slash-append a b (String.◌∷◌ c String.[]) t e f h =
    rw cons-append (rw nil-append (ground arith))
cut_double_slash-append a b (String.◌∷◌ c (String.◌∷◌ d s)) t e f h =
    let ih = rw cons-append at (cut_double_slash-append a b (String.◌∷◌ d s) t e f h.1) in
    rw cons-append (rw cons-append (ground (arith, ih)))

-- A text that does not start with "/".
abbrev StartsPlain : String → Type 0
StartsPlain String.[] = ⊥
StartsPlain (String.◌∷◌ c s) = code c ≢ b'/'

pub StartsPlain-of_HasNo : (s : String) → s ≢ "" → HasNo b'/' s → StartsPlain s
StartsPlain-of_HasNo String.[] d h = d refl
StartsPlain-of_HasNo (String.◌∷◌ c s) d h = h.0

pub StartsPlain-append : (s t : String) → StartsPlain s → StartsPlain (s <> t)
StartsPlain-append String.[] t h = absurd h
StartsPlain-append (String.◌∷◌ c s) t h = rw cons-append h

pub NoDoubleSlash-of_HasNo : (s : String) → HasNo b'/' s → NoDoubleSlash s
NoDoubleSlash-of_HasNo String.[] h = tt
NoDoubleSlash-of_HasNo (String.◌∷◌ a String.[]) h = h.0
NoDoubleSlash-of_HasNo (String.◌∷◌ a (String.◌∷◌ b s)) h =
    (inl h.0, NoDoubleSlash-of_HasNo (String.◌∷◌ b s) h.1)

NoDoubleSlash-cons_slash :
    (t : String) → StartsPlain t → NoDoubleSlash t → NoDoubleSlash (String.◌∷◌ "/" t)
NoDoubleSlash-cons_slash String.[] p h = absurd p
NoDoubleSlash-cons_slash (String.◌∷◌ c t) p h = (inr p, h)

-- A part without "/", then "/", then a text that does not start with one.
pub NoDoubleSlash-append :
    (s t : String)
    → HasNo b'/' s
    → StartsPlain t
    → NoDoubleSlash t
    → NoDoubleSlash (s <> String.◌∷◌ "/" t)
NoDoubleSlash-append String.[] t h p k = rw nil-append (NoDoubleSlash-cons_slash t p k)
NoDoubleSlash-append (String.◌∷◌ a String.[]) t h p k =
    rw cons-append (rw nil-append (inl h.0, NoDoubleSlash-cons_slash t p k))
NoDoubleSlash-append (String.◌∷◌ a (String.◌∷◌ b s)) t h p k =
    let ih = rw cons-append at (NoDoubleSlash-append (String.◌∷◌ b s) t h.1 p k) in
    rw cons-append (rw cons-append (inl h.0, ih))
