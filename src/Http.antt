-- ===== src/Http.antt =====
-- What the program uses of net/http: header maps, requests as their handlers see them, responses.
pub mod Laws
use iplsgo.Prelude.{
  ◌≡◌, refl, ℕ, ◌+◌, ◌-◌, Bool, true, false, ◌&&◌, ◌||◌, Option, none, some, List, [], ◌∷◌, ◌++◌,
  Str, bytes, eqb, leb, str_Eq, if◌then◌else◌,
}
use iplsgo.Gostd.{contains_byte}
use iplsgo.Gostd.Maps.{Map, lookup, insert, delete}

is_upper : ℕ → Bool
is_upper c = leb b'A' c && leb c b'Z'

is_lower : ℕ → Bool
is_lower c = leb b'a' c && leb c b'z'

-- A byte of a header field's name.
is_token : ℕ → Bool
unfolding is_upper is_lower contains_byte
is_token c =
    is_upper c
    || (is_lower c || ((leb b'0' c && leb c b'9') || contains_byte (bytes "!#$%&'*+-.^_`|~") c))

all_tokens : Str → Bool
unfolding is_token
all_tokens [] = true
all_tokens (c ∷ cs) = is_token c && all_tokens cs

recase : Bool → Str → Str
unfolding is_upper is_lower
recase first [] = []
recase first (c ∷ cs) =
    (if first && is_lower c then c - 32 else if first then c else if is_upper c then c + 32 else c)
    ∷ recase (eqb c b'-') cs

-- http.CanonicalHeaderKey
unfoldable pub canonical : Str → Str
unfolding all_tokens recase
canonical key = if all_tokens key then recase true key else key

abbrev pub Header : Type 0
Header = Map Str (List Str)

abbrev pub values : Option (List Str) → List Str
values none = []
values (some vs) = vs

abbrev pub first_value : List Str → Str
first_value [] = []
first_value (v ∷ vs) = v

-- h.Add(key, value)
unfoldable pub add : Str → Str → Header → Header
add key v h = insert (canonical key) (values (lookup (canonical key) h) ++ v ∷ []) h

-- h.Set(key, value)
unfoldable pub set : Str → Str → Header → Header
set key v h = insert (canonical key) (v ∷ []) h

-- h.Get(key)
unfoldable pub get : Str → Header → Str
get key h = first_value (values (lookup (canonical key) h))

-- h.Del(key)
unfoldable pub del : Str → Header → Header
del key h = delete (canonical key) h

-- `basic_auth` is what r.BasicAuth() returns. `files` has, for each file part of the form, its
-- Content-Disposition, where the form is multipart.
pub record HttpRequest : Type 0 where
  pub method : Str
  pub url_path : Str
  pub raw_query : Str
  pub proto : Str
  pub tls : Bool
  pub host : Str
  pub remote_addr : Str
  pub header : Header
  pub basic_auth : Option (Str × Str)
  pub form : Map Str (List Str)
  pub post_form : Map Str (List Str)
  pub files : Option (Map Str (List Str))

-- r.FormValue(key), after the form was parsed
unfoldable pub form_value : Str → HttpRequest → Str
form_value key r = first_value (values (lookup key r.form))

-- `status` is 0 until it is written.
pub record Response : Type 0 where
  pub status : ℕ
  pub header : Header
  pub body : Str

abbrev pub fresh : Response
fresh = record { status = 0; header = []; body = [] }

-- WriteHeader keeps the first status.
unfoldable pub write_header : ℕ → Response → Response
write_header code w = record w { status = if eqb w.status 0 then code else w.status }

-- Write sends status 200 if none was written.
unfoldable pub write : Str → Response → Response
unfolding write_header
write b w = let w' = write_header 200 w in record w' { body = w'.body ++ b }

unfoldable pub set_header : Str → Str → Response → Response
set_header key v w = record w { header = set key v w.header }

-- http.Error
unfoldable pub error : Str → ℕ → Response → Response
unfolding write write_header set_header
error msg code w = write (msg ++ 10 ∷ []) (
    write_header code (
      set_header (bytes "X-Content-Type-Options") (bytes "nosniff")
        (set_header (bytes "Content-Type") (bytes "text/plain; charset=utf-8") w)))

canonical_test : canonical (bytes "x-LoginUserName") ≡ bytes "X-Loginusername"
unfolding canonical
canonical_test = refl
