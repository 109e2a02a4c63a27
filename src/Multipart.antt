-- ===== src/Multipart.antt =====
-- otasker/oraparsemultipart.go: reading a multipart form, with its file parts in memory or in
-- temporary files. What multipart.Reader gives is the data `Message`, the disk is a map from names
-- to contents, and what the disk may refuse is a parameter. `maxMemory` is less than 2 ^ 63 - 1.
pub mod Kept
pub mod Bounds
pub mod Cleanup
pub mod Items
pub mod Requests
pub mod Fields
pub mod Uploads
mod Tests
use iplsgo.Prelude.{
  ℕ, ◌+◌, ◌-◌, ◌≡◌, refl, Bool, Option, none, some, ◌⊎◌, inl, inr, List, [], ◌∷◌, ◌++◌, ◌>>=◌, Str,
  bytes, str_Eq, ◌==◌, if◌then◌else◌, is_empty, length, drop, eqb, leb, ltb,
}
use iplsgo.Gostd.{take}
use iplsgo.Gostd.Maps.{Map, lookup, insert, delete}
use iplsgo.Http.{Header, values}

-- `broken` is the error that ends the part's bytes, if it is not io.EOF.
pub record Part : Type 0 where
  pub form_name : Str
  pub file_name : Str
  pub header : Header
  pub body : Str
  pub broken : Option Str

-- What NextPart returns, call by call.
pub data Message : Type 0 where
  eof : Message
  failed : Str → Message
  part : Part → Message → Message

-- `content` is none for nil.
pub record FileHeader : Type 0 where
  pub filename : Str
  pub header : Header
  pub content : Option Str
  pub tmpfile : Str
  pub last_arg : Str

pub record Form : Type 0 where
  pub value : Map Str (List Str)
  pub file : Map Str (List FileHeader)

abbrev pub Disk : Type 0
Disk = Map Str Str

-- What the operating system answers: TempFile's name or its error, the error of writing a content,
-- and the error of os.Remove.
pub record System : Type 0 where
  pub temp_file : Disk → Str ⊎ Str
  pub write_error : Str → Option Str
  pub remove_error : Str → Option Str

-- m[key] = append(m[key], v)
abbrev pub append {ℓ} : {A : Type ℓ} → Str → A → Map Str (List A) → Map Str (List A)
append key v m = insert key (elim (lookup key m) [ none ↦ [] | some vs ↦ vs ] ++ v ∷ []) m

-- io.CopyN(&b, p, n): what is written into the buffer, and the error, if it is not io.EOF
abbrev pub copied : ℕ → Part → Str
copied n p = take n p.body

abbrev pub copy_error : ℕ → Part → Option Str
copy_error n p = if leb n (length p.body) then none else p.broken

-- The variables of ReadFormEx, and the disk.
pub record Reading : Type 0 where
  pub form : Form
  pub last_arg_names : Str
  pub max_value_bytes : ℕ
  pub max_memory : ℕ
  pub disk : Disk

pub data Outcome : Type 0 where
  went : Reading → Outcome
  stopped : Str → Reading → Outcome

abbrev pub too_large : Str
too_large = bytes "multipart: message too large"

abbrev pub arg_names : Str
arg_names = bytes "p_arg_names"

-- 10 << 20
abbrev pub value_limit : ℕ
value_limit = 10485760

-- ReadFormEx, a part without a file name
unfoldable pub read_value : Part → Reading → Outcome
unfolding take
read_value p s = elim (copy_error s.max_value_bytes p) [
  | some e ↦ stopped e s
  | none ↦
      let b = copied s.max_value_bytes p in
      let left = s.max_value_bytes - length b in
      if eqb left 0
      then stopped too_large (record s { max_value_bytes = left })
      else went (record s {
        form = record s.form { value = append p.form_name b s.form.value };
        last_arg_names = if p.form_name == arg_names then b else s.last_arg_names;
        max_value_bytes = left;
      })
]

abbrev pub with_file : Str → FileHeader → Reading → Reading
with_file name fh s = record s { form = record s.form { file = append name fh s.form.file } }

abbrev pub on_disk : Part → Str → Str → FileHeader
on_disk p name last = record {
  filename = p.file_name;
  header = p.header;
  content = none;
  tmpfile = name;
  last_arg = last;
}

abbrev pub in_memory : Part → Str → Str → FileHeader
in_memory p b last = record {
  filename = p.file_name;
  header = p.header;
  content = some b;
  tmpfile = [];
  last_arg = last;
}

abbrev pub removed : System → Str → Disk → Disk
removed o name d = elim (o.remove_error name) [ none ↦ delete name d | some e ↦ d ]

abbrev pub either_error : Option Str → Option Str → Option Str
either_error (some e) other = some e
either_error none other = other

-- io.Copy(file, io.MultiReader(&b, p)): the whole part, or an error of it or of the disk
abbrev pub store_error : System → Part → Option Str
store_error o p = either_error p.broken (o.write_error p.body)

-- ReadFormEx, a file that does not fit into the memory that is left
unfoldable pub store_file : System → Part → Str ⊎ Str → Reading → Outcome
store_file o p (inr e) s = stopped e s
store_file o p (inl name) s = elim (store_error o p) [
  | some e ↦ stopped e (record s { disk = removed o name (insert name p.body s.disk) })
  | none ↦ went (
      with_file p.form_name (on_disk p name s.last_arg_names)
        (record s { disk = insert name p.body s.disk }))
]

-- ReadFormEx, a part with a file name
unfoldable pub read_file : System → Part → Reading → Outcome
unfolding store_file take
read_file o p s = elim (copy_error (s.max_memory + 1) p) [
  | some e ↦ stopped e s
  | none ↦
      let b = copied (s.max_memory + 1) p in
      if ltb s.max_memory (length b)
      then store_file o p (o.temp_file s.disk) s
      else went (
          with_file p.form_name (in_memory p b s.last_arg_names)
            (record s { max_memory = s.max_memory - length b }))
]

unfoldable pub read_part : System → Part → Reading → Outcome
unfolding read_value read_file
read_part o p s =
    if is_empty p.form_name
    then went s
    else if is_empty p.file_name
    then read_value p s
    else read_file o p s

-- The loop of ReadFormEx.
unfoldable pub read_parts : System → Message → Reading → Outcome
unfolding read_part
read_parts o eof s = went s
read_parts o (failed e) s = stopped e s
read_parts o (part p rest) s = elim (read_part o p s) [
  | went t ↦ read_parts o rest t
  | stopped e t ↦ stopped e t
]

-- RemoveAll: the disk and the first error
unfoldable pub remove_files : System → List FileHeader → Disk × Option Str → Disk × Option Str
remove_files o [] r = r
remove_files o (fh ∷ rest) (d, e) =
    let next : Disk × Option Str =
      if is_empty fh.tmpfile
      then (d, e)
      else (removed o fh.tmpfile d, either_error e (o.remove_error fh.tmpfile)) in
    remove_files o rest next

unfoldable pub remove_all :
    System → Map Str (List FileHeader) → Disk × Option Str → Disk × Option Str
unfolding remove_files
remove_all o [] r = r
remove_all o ((key, fhs) ∷ m) r = remove_all o m (remove_files o fhs r)

abbrev pub start : ℕ → Disk → Reading
start max_memory d = record {
  form = record { value = []; file = [] };
  last_arg_names = [];
  max_value_bytes = value_limit;
  max_memory = max_memory;
  disk = d;
}

-- The form, or the error, and the disk. After an error, what was stored is removed.
pub data Result : Type 0 where
  read : Form → Disk → Result
  refused : Str → Disk → Result

abbrev pub finished : System → Outcome → Result
finished o (went s) = read s.form s.disk
finished o (stopped e s) = refused e (remove_all o s.form.file (s.disk, none)).0

-- ReadFormEx
unfoldable pub read_form_ex : System → Message → ℕ → Disk → Result
unfolding read_parts remove_all
read_form_ex o m max_memory d = finished o (read_parts o m (start max_memory d))

-- Open, and reading all that it gives; none for the error of os.Open
unfoldable pub open_file : FileHeader → Disk → Option Str
open_file fh d = elim fh.content [ some b ↦ some b | none ↦ lookup fh.tmpfile d ]

-- readFileItems: its variables
pub record ItemReading : Type 0 where
  pub file_items : Map Str (List Str)
  pub last_arg_names : Str
  pub max_value_bytes : ℕ

unfoldable pub read_item : Part → ItemReading → Str ⊎ ItemReading
unfolding take
read_item p s =
    if is_empty p.form_name
    then inr s
    else if is_empty p.file_name
    then elim (copy_error s.max_value_bytes p) [
      | some e ↦ inl e
      | none ↦
          let b = copied s.max_value_bytes p in
          let left = s.max_value_bytes - length b in
          if eqb left 0
          then inl too_large
          else inr (record s {
            last_arg_names = if p.form_name == arg_names then b else s.last_arg_names;
            max_value_bytes = left;
          })
    ]
    else inr (record s { file_items = append p.form_name s.last_arg_names s.file_items })

unfoldable pub read_items : Message → ItemReading → Str ⊎ Map Str (List Str)
unfolding read_item
read_items eof s = inr s.file_items
read_items (failed e) s = inl e
read_items (part p rest) s = elim (read_item p s) [ inl e ↦ inl e | inr t ↦ read_items rest t ]

-- readFileItems
unfoldable pub read_file_items : Message → Str ⊎ Map Str (List Str)
unfolding read_items
read_file_items m =
    read_items m (record { file_items = []; last_arg_names = []; max_value_bytes = value_limit })
