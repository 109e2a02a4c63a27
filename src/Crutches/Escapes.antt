-- ===== src/Crutches/Escapes.antt =====
-- otasker/crutches.go: what encodeFilename does to a name that it has encoded.
use Prim.Native.Nat.{◌/◌, ◌%◌}
use iplsgo.Prelude.{
  ℕ, ◌+◌, ◌*◌, ◌<◌, ◌≡◌, ap, sym, ◌∙◌, refl, Bool, true, false, Option, none, some, [], ◌∷◌, arith,
  Str, bytes, eqb, if◌then◌else◌,
}
use mathlib.Core.Path.{subst}
use mathlib.Core.Option.{some-injective}
use iplsgo.Gostd.{has_prefix}
use iplsgo.Crutches.{
  is_unreserved, hex_digit, unhex, query_escape, query_unescape, after, hex_byte, plus_to_space,
  encode_filename, escape_again,
}

-- A Go string: every element is a byte.
abbrev pub IsBytes : Str → Type 0
IsBytes [] = Unit
IsBytes (c ∷ cs) = (c < 256) × IsBytes cs

unhex-hex_digit : (n : ℕ) → n < 16 → unhex (hex_digit n) ≡ some n
unfolding unhex hex_digit
unhex-hex_digit n h = ground arith

unescape_plain :
    (c : ℕ) (cs : Str)
    → eqb c b'%' ≡ false
    → query_unescape (c ∷ cs) ≡ after (plus_to_space c) (query_unescape cs)
unfolding query_unescape
unescape_plain c [] h = ground (arith, h)
unescape_plain c (a ∷ []) h = ground (arith, h)
unescape_plain c (a ∷ b ∷ cs) h = ground (arith, h)

unescape_hex :
    (c : ℕ) (cs : Str)
    → c < 256
    → query_unescape (b'%' ∷ hex_digit (c / 16) ∷ hex_digit (c % 16) ∷ cs)
      ≡ after c (query_unescape cs)
unfolding query_unescape
unescape_hex c cs h =
    ground (arith, unhex-hex_digit (c / 16) (omega arith), unhex-hex_digit (c % 16) (omega arith))

unreserved_plain : (c : ℕ) → is_unreserved c ≡ true → (eqb c b'%' ≡ false) × (plus_to_space c ≡ c)
unfolding is_unreserved
unreserved_plain c h = (ground arith, ground arith)

escaped :
    (c : ℕ) (cs : Str)
    → c < 256
    → query_unescape (query_escape cs) ≡ some cs
    → query_unescape (query_escape (c ∷ cs)) ≡ some (c ∷ cs)
unfolding query_escape
escaped c cs h e = ground (
  arith,
  e,
  unreserved_plain c,
  unescape_plain c (query_escape cs),
  unescape_plain b'+' (query_escape cs),
  unescape_hex c (query_escape cs),
)

-- An escaped text of bytes is read back as it was.
pub query_unescape-query_escape : (s : Str) → IsBytes s → query_unescape (query_escape s) ≡ some s
unfolding query_escape
query_unescape-query_escape [] h = unfold query_unescape in refl
query_unescape-query_escape (c ∷ cs) h = escaped c cs h.0 (query_unescape-query_escape cs h.1)

unhex_bound : (c n : ℕ) → unhex c ≡ some n → n < 16
unfolding unhex
unhex_bound c n h = ground arith

-- An escaped text has no mark of an encoded name.
unmarked : (s : Str) → has_prefix (query_escape s) (bytes "=?utf-8?") ≡ false
unfolding query_escape has_prefix is_unreserved
unmarked [] = refl
unmarked (c ∷ cs) = ground arith

after-IsBytes :
    (c : ℕ) (o : Option Str) (t : Str)
    → c < 256
    → ((u : Str) → o ≡ some u → IsBytes u)
    → after c o ≡ some t
    → IsBytes t
after-IsBytes c none t h k e = cc
after-IsBytes c (some u) t h k e = subst IsBytes (some-injective _ _ e) (h, k u refl)

hex_byte-IsBytes :
    (a b : Option ℕ) (o : Option Str) (t : Str)
    → ((n : ℕ) → a ≡ some n → n < 16)
    → ((n : ℕ) → b ≡ some n → n < 16)
    → ((u : Str) → o ≡ some u → IsBytes u)
    → hex_byte a b o ≡ some t
    → IsBytes t
hex_byte-IsBytes none b o t p q k e = cc
hex_byte-IsBytes (some x) none o t p q k e = cc
hex_byte-IsBytes (some x) (some y) o t p q k e =
    after-IsBytes (x * 16 + y) o t (omega (arith, p x refl, q y refl)) k e

plain_bound : (c : ℕ) → c < 256 → plus_to_space c < 256
plain_bound c h = ground arith

-- A branch of the two whose results are texts of bytes.
either-IsBytes :
    (b : Bool) (o p : Option Str) (t : Str)
    → (o ≡ some t → IsBytes t)
    → (p ≡ some t → IsBytes t)
    → (if b then o else p) ≡ some t
    → IsBytes t
either-IsBytes true o p t h k e = h e
either-IsBytes false o p t h k e = k e

unescaped-IsBytes : (s t : Str) → IsBytes s → query_unescape s ≡ some t → IsBytes t
unfolding query_unescape
unescaped-IsBytes [] t h e = subst IsBytes (some-injective _ _ e) tt
unescaped-IsBytes (c ∷ []) t h e =
    either-IsBytes (eqb c b'%') none (some (plus_to_space c ∷ [])) t (λ f. cc)
      (λ f. subst IsBytes (some-injective _ _ f) (plain_bound c h.0, tt)) e
unescaped-IsBytes (c ∷ a ∷ []) t h e =
    either-IsBytes (eqb c b'%') none (after (plus_to_space c) (query_unescape (a ∷ []))) t (λ f. cc)
      (after-IsBytes _ _ t (plain_bound c h.0) (λ u. unescaped-IsBytes (a ∷ []) u h.1)) e
unescaped-IsBytes (c ∷ a ∷ b ∷ cs) t h e =
    either-IsBytes (eqb c b'%') (hex_byte (unhex a) (unhex b) (query_unescape cs))
      (after (plus_to_space c) (query_unescape (a ∷ b ∷ cs))) t
      (hex_byte-IsBytes (unhex a) (unhex b) _ t (unhex_bound a) (unhex_bound b)
        (λ u. unescaped-IsBytes cs u h.1.1.1))
      (after-IsBytes _ _ t (plain_bound c h.0) (λ u. unescaped-IsBytes (a ∷ b ∷ cs) u h.1)) e

encode_escaped : (s : Str) → IsBytes s → encode_filename (query_escape s) ≡ query_escape s
unfolding encode_filename
encode_escaped s h = ground (arith, unmarked s, query_unescape-query_escape s h)

encode_unmarked :
    (name : Str)
    → has_prefix name (bytes "=?utf-8?") ≡ false
    → encode_filename name ≡ escape_again (query_unescape name) name
unfolding encode_filename
encode_unmarked name p = ground (arith, p)

encode_marked :
    (name : Str) → has_prefix name (bytes "=?utf-8?") ≡ true → encode_filename name ≡ name
unfolding encode_filename
encode_marked name p = ground (arith, p)

encode_at :
    (b : Bool) (o : Option Str) (name : Str)
    → IsBytes name
    → has_prefix name (bytes "=?utf-8?") ≡ b
    → query_unescape name ≡ o
    → encode_filename (encode_filename name) ≡ encode_filename name
encode_at true o name h p e = ap encode_filename (encode_marked name p)
encode_at false none name h p e =
    let e1 : encode_filename name ≡ query_escape name =
      encode_unmarked name p ∙ ap (λ o. escape_again o name) e in
    ap encode_filename e1 ∙ encode_escaped name h ∙ sym e1
encode_at false (some t) name h p e =
    let e1 : encode_filename name ≡ query_escape t =
      encode_unmarked name p ∙ ap (λ o. escape_again o name) e in
    ap encode_filename e1 ∙ encode_escaped t (unescaped-IsBytes name t h e) ∙ sym e1

-- Encoding an encoded file name changes nothing, for every name made of bytes.
pub encode_filename-encode_filename :
    (name : Str) → IsBytes name → encode_filename (encode_filename name) ≡ encode_filename name
encode_filename-encode_filename name h = encode_at _ _ name h refl refl
