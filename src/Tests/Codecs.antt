-- ===== src/Tests/Codecs.antt =====
-- Encodings that lose nothing, for the theorems on internal/api/token.go.
use Prim.Native.Char.{code}
use Prim.Native.String as Text
use hyve.Prelude.{ℕ, suc, zero, String, Option, none, some, ◌≡◌, refl, arith, if◌then◌else◌, nat_eq}
use text.Mathlib.TextEquality.{Char-path}
use hyve.Prelude.Text.{◌<>◌, HasNo, cut_first, cut_first-append, append_dot}
use hyve.Api.Token.{TokenPayload, Codec, IsLossless}

-- A dot becomes "yd", and every other character has an "x" before it.
pub escape : String → String
escape Text.[] = ""
escape (Text.◌∷◌ c s) =
    let rest = escape s in
    if nat_eq (code c) b'.'
    then Text.◌∷◌ "y" (Text.◌∷◌ "d" rest)
    else Text.◌∷◌ "x" (Text.◌∷◌ c rest)

pub unescape : String → Option String
unescape Text.[] = some ""
unescape (Text.◌∷◌ a Text.[]) = none
unescape (Text.◌∷◌ a (Text.◌∷◌ c s)) =
    let dot = nat_eq (code a) b'y' in
    elim (unescape s) [ none ↦ none | some rest ↦ some (Text.◌∷◌ (if dot then "." else c) rest) ]

pub escape-HasNo : (s : String) → HasNo b'.' (escape s)
unfolding escape
escape-HasNo Text.[] = tt
escape-HasNo (Text.◌∷◌ c s) = grind (arith, escape-HasNo s)

pub unescape-escape : (s : String) → unescape (escape s) ≡ some s
unfolding escape unescape
unescape-escape Text.[] = refl
unescape-escape (Text.◌∷◌ c s) = grind (arith, unescape-escape s, Char-path c ".")

tally : ℕ → String
tally zero = ""
tally (suc n) = Text.◌∷◌ "1" (tally n)

count : String → ℕ
count Text.[] = 0
count (Text.◌∷◌ c s) = suc (count s)

count-tally : (n : ℕ) → count (tally n) ≡ n
unfolding count tally
count-tally zero = refl
count-tally (suc n) = ground (arith, count-tally n)

-- The payload as three parts with dots between.
pub write_payload : TokenPayload → String
write_payload p = escape p.subject <> ("." <> (escape p.namespace <> ("." <> tally p.expires)))

read_parts : Option String → Option String → String → Option TokenPayload
read_parts (some subject) (some namespace) expires =
    some (record { subject = subject; namespace = namespace; expires = count expires })
read_parts _ _ expires = none

read_rest : String → Option (String × String) → Option TokenPayload
unfolding unescape
read_rest subject none = none
read_rest subject (some (namespace, expires)) =
    read_parts (unescape subject) (unescape namespace) expires

read_cut : Option (String × String) → Option TokenPayload
unfolding cut_first read_rest
read_cut none = none
read_cut (some (subject, rest)) = read_rest subject (cut_first b'.' rest)

pub read_payload : String → Option TokenPayload
unfolding cut_first read_cut
read_payload text = read_cut (cut_first b'.' text)

cut_dot : (s t : String) → HasNo b'.' s → cut_first b'.' (s <> ("." <> t)) ≡ some (s, t)
cut_dot s t plain = rw (append_dot t) (cut_first-append b'.' "." s t refl plain)

pub read_payload-write_payload : (p : TokenPayload) → read_payload (write_payload p) ≡ some p
unfolding read_payload write_payload read_cut read_rest read_parts
read_payload-write_payload p =
    rw
      (
        cut_dot (escape p.subject) (escape p.namespace <> ("." <> tally p.expires))
            (escape-HasNo p.subject),
        cut_dot (escape p.namespace) (tally p.expires) (escape-HasNo p.namespace),
        unescape-escape p.subject,
        unescape-escape p.namespace,
        count-tally p.expires,
      )
      refl

abbrev pub codec : Codec
codec = record {
  marshal = λ p. some (write_payload p);
  unmarshal = read_payload;
  encode = escape;
  decode = unescape;
  mac = λ key text. key <> text;
}

abbrev pub codec_IsLossless : IsLossless codec
codec_IsLossless = record {
  marshalled = λ p. (write_payload p, refl, read_payload-write_payload p);
  decoded = unescape-escape;
  dotless = escape-HasNo;
}
