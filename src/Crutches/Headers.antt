-- ===== src/Crutches/Headers.antt =====
-- otasker/crutches.go: parseHeaders and fixContentType. Unicode's lower case and white space, and
-- the parsing and printing of media types, are parameters.
use iplsgo.Prelude.{
  suc, Bool, true, false, ◌||◌, Option, none, some, List, [], ◌∷◌, ◌++◌, Str, bytes, str_Eq, ◌==◌,
  if◌then◌else◌, is_empty, drop,
}
use iplsgo.Gostd.{has_prefix, replace_all, split, index_byte, take}
use iplsgo.Gostd.Maps.{Map, lookup, insert}
use iplsgo.Http.{Header, add}
use iplsgo.Crutches.{encode_filename}

-- strings.ToLower, strings.TrimSpace, mime.ParseMediaType (none for an error),
-- mime.FormatMediaType and http.DetectContentType
pub record Mime : Type 0 where
  pub to_lower : Str → Str
  pub trim_space : Str → Str
  pub parse : Str → Option (Str × Map Str Str)
  pub format : Str → Map Str Str → Str
  pub detect : Str → Str

-- A part of a Content-Disposition: the name of a file is encoded and put into quotes.
unfoldable pub fix_part : Str → Str
unfolding has_prefix replace_all encode_filename
fix_part p =
    if has_prefix p (bytes "filename=")
    then bytes "filename=\""
      ++ (encode_filename (replace_all (replace_all p (bytes "filename=") []) (bytes "\"") [])
          ++ bytes "\";")
    else p ++ bytes ";"

unfoldable pub fix_parts : List Str → Str
unfolding fix_part
fix_parts [] = []
fix_parts (p ∷ ps) = fix_part p ++ fix_parts ps

-- The name and the value of a line; without a colon, the line is the name.
unfoldable pub header_line : (Str → Str) → Str → Str × Str
unfolding index_byte take
header_line trim_space s = elim (index_byte s b':') [
  | none ↦ (trim_space s, [])
  | some i ↦ (trim_space (take i s), trim_space (drop (suc i) s))
]

module _ (m : Mime) where
  open m use {to_lower, trim_space, parse, format}

  abbrev pub header_value : Str × Str → Str
  header_value (name, value) =
      if to_lower name == bytes "content-disposition"
      then fix_parts (split value (bytes "; "))
      else value

  unfoldable pub add_lines : List Str → Header → Header
  unfolding add header_line split fix_parts
  add_lines [] h = h
  add_lines (s ∷ rest) h =
      let line = header_line trim_space s in
      add_lines rest (if is_empty s then h else add line.0 (header_value line) h)

  -- parseHeaders
  unfoldable pub parse_headers : Str → Header
  unfolding add_lines split
  parse_headers headers = if is_empty headers then [] else add_lines (split headers (bytes "\n")) []

  abbrev pub is_text : Str → Bool
  is_text mt =
      has_prefix mt (bytes "text")
      || (has_prefix mt (bytes "application/json")
          || (has_prefix mt (bytes "application/x-sql")
              || has_prefix mt (bytes "application/javascript")))

  abbrev pub charset_of : Option Str → Str
  charset_of none = []
  charset_of (some s) = s

  -- fixContentType: the type with the charset of the answer, the charset before, and whether it is
  -- a text
  unfoldable pub fix_content_type : Str → Str × Str × Bool
  unfolding has_prefix
  fix_content_type content_type = elim (parse content_type) [
    | none ↦ (content_type, [], false)
    | some (mt, prms) ↦
        if is_text mt
        then (
          format mt (insert (bytes "charset") (bytes "utf-8") prms),
          charset_of (lookup (bytes "charset") prms),
          true,
        )
        else (content_type, [], false)
  ]
