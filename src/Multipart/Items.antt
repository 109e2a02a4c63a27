-- ===== src/Multipart/Items.antt =====
-- otasker/oraparsemultipart.go: readFileItems against ReadFormEx.
use iplsgo.Prelude.{
  ℕ, ◌+◌, ◌≡◌, ◌⊎◌, refl, Option, none, some, inl, inr, List, [], ◌∷◌, ◌++◌, Str, arith, str_Eq,
}
use iplsgo.Gostd.{take}
use iplsgo.Gostd.Maps.{Map, lookup, insert}
use iplsgo.Multipart.{
  on_disk, in_memory, Part, Message, eof, failed, part, FileHeader, Form, Disk, System, append,
  Reading, Outcome, went, stopped, start, read_value, store_file, read_file, read_part, read_parts,
  read, finished, read_form_ex, ItemReading, read_item, read_items, read_file_items,
}

-- The argument names that the headers have, under the same keys.
abbrev pub args : List FileHeader → List Str
args [] = []
args (fh ∷ fhs) = fh.last_arg ∷ args fhs

abbrev pub all_args : Map Str (List FileHeader) → Map Str (List Str)
all_args [] = []
all_args ((key, fhs) ∷ m) = (key, args fhs) ∷ all_args m

args-append :
    (fhs : List FileHeader) (fh : FileHeader) → args (fhs ++ fh ∷ []) ≡ args fhs ++ fh.last_arg ∷ []
args-append [] fh = refl
args-append (x ∷ fhs) fh = ground (arith, args-append fhs fh)

abbrev found_args : Option (List FileHeader) → Option (List Str)
found_args none = none
found_args (some fhs) = some (args fhs)

lookup-all_args :
    (key : Str) (m : Map Str (List FileHeader))
    → lookup key (all_args m) ≡ found_args (lookup key m)
unfolding lookup
lookup-all_args key [] = refl
lookup-all_args key ((k, fhs) ∷ m) = ground (arith, lookup-all_args key m)

insert-all_args :
    (key : Str) (fhs : List FileHeader) (m : Map Str (List FileHeader))
    → insert key (args fhs) (all_args m) ≡ all_args (insert key fhs m)
unfolding insert
insert-all_args key fhs [] = refl
insert-all_args key fhs ((k, old) ∷ m) = ground (arith, insert-all_args key fhs m)

append-all_args :
    (key : Str) (fh : FileHeader) (m : Map Str (List FileHeader))
    → append key fh.last_arg (all_args m) ≡ all_args (append key fh m)
append-all_args key fh m = at (lookup key m) refl
  where
    at :
        (o : Option (List FileHeader))
        → lookup key m ≡ o
        → append key fh.last_arg (all_args m)
          ≡ all_args (insert key (elim o [ none ↦ [] | some vs ↦ vs ] ++ fh ∷ []) m)
    at none e = ground (arith, e, lookup-all_args key m, insert-all_args key (fh ∷ []) m)
    at (some fhs) e = ground (
      arith,
      e,
      lookup-all_args key m,
      args-append fhs fh,
      insert-all_args key (fhs ++ fh ∷ []) m,
    )

abbrev items_of : Reading → ItemReading
items_of s = record {
  file_items = all_args s.form.file;
  last_arg_names = s.last_arg_names;
  max_value_bytes = s.max_value_bytes;
}

store_file-items :
    (o : System) (p : Part) (r : Str ⊎ Str) (s t : Reading)
    → store_file o p r s ≡ went t
    → items_of t ≡ record (items_of s) {
      file_items = append p.form_name s.last_arg_names (all_args s.form.file);
    }
unfolding store_file
store_file-items o p (inr e) s t h = cc
store_file-items o p (inl name) s t h =
    ground (arith, append-all_args p.form_name (on_disk p name s.last_arg_names) s.form.file)

read_file-items :
    (o : System) (p : Part) (s t : Reading)
    → read_file o p s ≡ went t
    → items_of t ≡ record (items_of s) {
      file_items = append p.form_name s.last_arg_names (all_args s.form.file);
    }
unfolding read_file
read_file-items o p s t h = ground (
  arith,
  store_file-items o p (o.temp_file s.disk) s t,
  append-all_args p.form_name (in_memory p (take (s.max_memory + 1) p.body) s.last_arg_names)
      s.form.file,
)

read_part-items :
    (o : System) (p : Part) (s t : Reading)
    → read_part o p s ≡ went t
    → read_item p (items_of s) ≡ inr (items_of t)
unfolding read_part read_item read_value
read_part-items o p s t h = ground (arith, read_file-items o p s t)

read_parts-items :
    (o : System) (m : Message) (s t : Reading)
    → read_parts o m s ≡ went t
    → read_items m (items_of s) ≡ inr (all_args t.form.file)
unfolding read_parts read_items
read_parts-items o eof s t h = ground arith
read_parts-items o (failed e) s t h = cc
read_parts-items o (part p rest) s t h =
    later (read_part o p s) (read_part-items o p s) (λ u. read_parts-items o rest u t) h
  where
    later :
        (r : Outcome)
        → ((u : Reading) → r ≡ went u → read_item p (items_of s) ≡ inr (items_of u))
        → ((u : Reading)
            → read_parts o rest u ≡ went t
            → read_items rest (items_of u) ≡ inr (all_args t.form.file))
        → elim r [ went u ↦ read_parts o rest u | stopped e u ↦ stopped e u ] ≡ went t
        → elim (read_item p (items_of s)) [ inl e ↦ inl e | inr u ↦ read_items rest u ]
          ≡ inr (all_args t.form.file)
    later (went u) a k e = ground (arith, a u, k u)
    later (stopped f u) a k e = cc

-- Whenever ReadFormEx reads a message, readFileItems reads it too, and gives for every file of the
-- form, under the same keys and in the same order, the argument names that the file's header has.
pub read_file_items-read_form_ex :
    (o : System) (m : Message) (max_memory : ℕ) (d d' : Disk) (f : Form)
    → read_form_ex o m max_memory d ≡ read f d'
    → read_file_items m ≡ inr (all_args f.file)
unfolding read_form_ex read_file_items
read_file_items-read_form_ex o m max_memory d d' f h =
    ended (read_parts o m (start max_memory d)) refl h
  where
    ended :
        (r : Outcome)
        → read_parts o m (start max_memory d) ≡ r
        → finished o r ≡ read f d'
        → read_items m (items_of (start max_memory d)) ≡ inr (all_args f.file)
    ended (went s) e k = ground (arith, read_parts-items o m (start max_memory d) s e)
    ended (stopped e s) c k = cc
