-- ===== src/Multipart/Requests.antt =====
-- otasker/oraparsemultipart.go: ParseMultipartFormEx and makeFileItems.
use iplsgo.Prelude.{
  Bool, Option, none, some, ◌⊎◌, inl, inr, List, [], ◌∷◌, ◌++◌, ◌>>=◌, ℕ, Str, str_Eq,
  if◌then◌else◌,
}
use iplsgo.Gostd.Maps.{Map, lookup, insert}
use iplsgo.Multipart.{
  Message, Form, Disk, System, Result, read, refused, read_form_ex, read_file_items,
}

-- What ParseMultipartFormEx looks at of a request; none is a nil map. `has_form` says that
-- r.MultipartForm is there.
pub record FormRequest : Type 0 where
  pub has_form : Bool
  pub form : Option (Map Str (List Str))
  pub post_form : Option (Map Str (List Str))

-- r.ParseForm and r.MultipartReader
pub record Requests : Type 0 where
  pub parse_form : FormRequest → FormRequest × Option Str
  pub multipart_reader : FormRequest → Str ⊎ Message

-- m[k] = append(m[k], vs...), for each key
unfoldable pub append_all : Map Str (List Str) → Map Str (List Str) → Map Str (List Str)
append_all [] m = m
append_all ((key, vs) ∷ more) m =
    append_all more (insert key (elim (lookup key m) [ none ↦ [] | some old ↦ old ] ++ vs) m)

-- A write into a nil map panics; an empty loop writes nothing.
unfoldable pub merged :
    Map Str (List Str) → Option (Map Str (List Str)) → Option (Option (Map Str (List Str)))
unfolding append_all
merged [] m = some m
merged (kv ∷ more) none = none
merged (kv ∷ more) (some m) = some (some (append_all (kv ∷ more) m))

abbrev pub Parsed : Type 0
Parsed = Option ((Str ⊎ Form) × FormRequest × Disk)

-- The text of the error that the request was parsed before, in Russian.
abbrev pub parsed_before : Str
parsed_before =
    208 ∷ 148 ∷ 208 ∷ 187 ∷ 209 ∷ 143 ∷ 32 ∷ 209 ∷ 128 ∷ 208 ∷ 176 ∷ 208 ∷ 183 ∷ 208 ∷ 177 ∷ 208
    ∷ 190 ∷ 209 ∷ 128 ∷ 208 ∷ 176 ∷ 32 ∷ 208 ∷ 183 ∷ 208 ∷ 176 ∷ 208 ∷ 191 ∷ 209 ∷ 128 ∷ 208 ∷ 190
    ∷ 209 ∷ 129 ∷ 208 ∷ 176 ∷ 32 ∷ 208 ∷ 189 ∷ 208 ∷ 181 ∷ 208 ∷ 190 ∷ 208 ∷ 177 ∷ 209 ∷ 133 ∷ 208
    ∷ 190 ∷ 208 ∷ 180 ∷ 208 ∷ 184 ∷ 208 ∷ 188 ∷ 208 ∷ 190 ∷ 32 ∷ 208 ∷ 184 ∷ 209 ∷ 129 ∷ 208 ∷ 191
    ∷ 208 ∷ 190 ∷ 208 ∷ 187 ∷ 209 ∷ 140 ∷ 208 ∷ 183 ∷ 208 ∷ 190 ∷ 208 ∷ 178 ∷ 208 ∷ 176 ∷ 209 ∷ 130
    ∷ 209 ∷ 140 ∷ 32 ∷ 82 ∷ 101 ∷ 97 ∷ 100 ∷ 70 ∷ 111 ∷ 114 ∷ 109 ∷ 69 ∷ 120 ∷ []

abbrev pub with_values : Form → FormRequest → Disk → Parsed
with_values f r d = do
  form ← merged f.value r.form
  post_form ← merged f.value r.post_form
  some (inr f, record r { form = form; post_form = post_form }, d)

abbrev pub answered : Result → FormRequest → Parsed
answered (refused e d) r = some (inl e, r, d)
answered (read f d) r = with_values f r d

abbrev pub with_reader : System → Str ⊎ Message → ℕ → FormRequest → Disk → Parsed
with_reader o (inl e) max_memory r d = some (inl e, r, d)
with_reader o (inr m) max_memory r d = answered (read_form_ex o m max_memory d) r

abbrev pub after_form : System → Requests → FormRequest × Option Str → ℕ → Disk → Parsed
after_form o q (r, some e) max_memory d = some (inl e, r, d)
after_form o q (r, none) max_memory d = with_reader o (q.multipart_reader r) max_memory r d

-- ParseMultipartFormEx
unfoldable pub parse_multipart_form_ex : System → Requests → FormRequest → ℕ → Disk → Parsed
unfolding read_form_ex merged
parse_multipart_form_ex o q r max_memory d =
    if r.has_form
    then some (inl parsed_before, r, d)
    else after_form o q (elim r.form [ none ↦ q.parse_form r | some m ↦ (r, none) ]) max_memory d

-- makeFileItems
unfoldable pub make_file_items : Requests → FormRequest → Str ⊎ Map Str (List Str)
unfolding read_file_items
make_file_items q r = elim (q.multipart_reader r) [ inl e ↦ inl e | inr m ↦ read_file_items m ]
