-- ===== src/Multipart/Tests.antt =====
-- Multipart forms at concrete messages.
use iplsgo.Prelude.{
  ◌≤◌, ◌<◌, ◌≡◌, ◌≢◌, ◌⊎◌, refl, Option, none, some, inl, inr, [], ◌∷◌, Str, bytes, arith, str_Eq,
  str_eq, length,
}
use iplsgo.Gostd.Maps.{lookup, insert, delete}
use iplsgo.Multipart.{
  Part, Message, eof, failed, part, Form, Disk, System, value_limit, read, refused, read_form_ex,
  read_file_items, on_disk, in_memory,
}
use iplsgo.Multipart.Bounds.{total, held, read_form_ex-bounds}
use iplsgo.Multipart.Cleanup.{read_form_ex-restores}
use iplsgo.Multipart.Items.{all_args, read_file_items-read_form_ex}
use iplsgo.Multipart.Fields.{texts, uploads, Gives, found}
use iplsgo.Multipart.Uploads.{read_form_ex-Gives}

abbrev made : Str → Str → Str → Part
made name file text = record {
  form_name = name;
  file_name = file;
  header = [];
  body = text;
  broken = none;
}

abbrev name_part : Part
name_part = made (bytes "p_arg_names") [] (bytes "doc")

abbrev small_part : Part
small_part = made (bytes "f") (bytes "a.txt") (bytes "ab")

abbrev large_part : Part
large_part = made (bytes "f") (bytes "b.txt") (bytes "abcdef")

-- One temporary file at a time.
abbrev named : Option Str → Str ⊎ Str
named none = inl (bytes "t")
named (some text) = inr (bytes "file exists")

abbrev system : System
system = record {
  temp_file = λ d. named (lookup (bytes "t") d);
  write_error = λ text. none;
  remove_error = λ name. none;
}

named_new :
    (d : Disk) (n : Str) (r : Option Str)
    → lookup (bytes "t") d ≡ r
    → named r ≡ inl n
    → (n ≢ []) × (lookup n d ≡ none)
named_new d n none e h = (λ k. cc, ground (arith, e))
named_new d n (some text) e h = cc

temporary : (d : Disk) (n : Str) → system.temp_file d ≡ inl n → (n ≢ []) × (lookup n d ≡ none)
temporary d n h = named_new d n (lookup (bytes "t") d) refl h

abbrev message : Message
message = part name_part (part small_part (part large_part eof))

abbrev form : Form
form = record {
  value = (bytes "p_arg_names", bytes "doc" ∷ []) ∷ [];
  file =
      (
        bytes "f",
        in_memory small_part (bytes "ab") (bytes "doc")
            ∷ on_disk large_part (bytes "t") (bytes "doc")
            ∷ [],
      )
      ∷ [];
}

abbrev disk : Disk
disk = (bytes "t", bytes "abcdef") ∷ []

is_read : read_form_ex system message 4 [] ≡ read form disk
unfolding read_form_ex lookup insert str_eq
is_read = refl

read_form_ex-bounds_example :
    (total {A = Str} length form.value < value_limit) × (total held form.file ≤ 4)
read_form_ex-bounds_example = read_form_ex-bounds system message 4 [] disk form is_read

read_file_items-read_form_ex_example : read_file_items message ≡ inr (all_args form.file)
read_file_items-read_form_ex_example =
    read_file_items-read_form_ex system message 4 [] disk form is_read

read_form_ex-Gives_example :
    (found (bytes "f") form.value ≡ texts message (bytes "f"))
    × Gives disk (found (bytes "f") form.file) (uploads [] message (bytes "f"))
read_form_ex-Gives_example =
    read_form_ex-Gives system (λ d n h. (temporary d n h).1) (bytes "f") message 4 [] disk form
      is_read

-- The message breaks off after the second file.
abbrev cut_message : Message
cut_message = part small_part (part large_part (failed (bytes "unexpected EOF")))

abbrev other_files : Disk
other_files = (bytes "x", bytes "y") ∷ []

is_refused :
    read_form_ex system cut_message 4 other_files ≡ refused (bytes "unexpected EOF") other_files
unfolding read_form_ex lookup insert delete str_eq
is_refused = refl

read_form_ex-restores_example : lookup (bytes "t") other_files ≡ lookup (bytes "t") other_files
read_form_ex-restores_example =
    read_form_ex-restores system (λ n. refl) other_files temporary cut_message 4
      (bytes "unexpected EOF") other_files is_refused (bytes "t")
