-- ===== src/Multipart/Fields.antt =====
-- otasker/oraparsemultipart.go: the values and the files that a message has, field by field, and
-- headers that open to them.
use iplsgo.Prelude.{
  ℕ, zero, suc, ◌<◌, ◌≡◌, refl, sym, Bool, true, false, none, some, List, [], ◌∷◌, ◌++◌, Str, arith,
  str_Eq, str_eq_iff, ◌==◌, if◌then◌else◌, length, is_empty,
}
use mathlib.Core.Path.{subst}
use mathlib.Core.List.{append-nil}
use iplsgo.Gostd.{take}
use iplsgo.Gostd.Maps.{Map, lookup, insert, lookup-insert}
use iplsgo.Http.{Header}
use iplsgo.Multipart.{
  Part, Message, eof, failed, part, FileHeader, Disk, append, arg_names, open_file,
}

pub record Upload : Type 0 where
  pub filename : Str
  pub header : Header
  pub arg_name : Str
  pub text : Str

abbrev pub upload : Part → Str → Upload
upload p last = record { filename = p.file_name; header = p.header; arg_name = last; text = p.body }

-- The values of a field, in order.
abbrev pub text_of : Part → Str → List Str
text_of p key =
    if is_empty p.form_name
    then []
    else if is_empty p.file_name
    then (if p.form_name == key then p.body ∷ [] else [])
    else []

abbrev pub texts : Message → Str → List Str
texts eof key = []
texts (failed e) key = []
texts (part p rest) key = text_of p key ++ texts rest key

-- The last value of p_arg_names, with one more part.
abbrev pub next_arg : Str → Part → Str
next_arg last p =
    if is_empty p.form_name
    then last
    else if is_empty p.file_name
    then (if p.form_name == arg_names then p.body else last)
    else last

-- The files of a field, in order, each with the value of p_arg_names that came last before it.
abbrev pub upload_of : Str → Part → Str → List Upload
upload_of last p key =
    if is_empty p.form_name
    then []
    else if is_empty p.file_name
    then []
    else if p.form_name == key
    then upload p last ∷ []
    else []

abbrev pub uploads : Str → Message → Str → List Upload
uploads last eof key = []
uploads last (failed e) key = []
uploads last (part p rest) key = upload_of last p key ++ uploads (next_arg last p) rest key

-- A header that opens to an upload.
abbrev pub Opens : Disk → FileHeader → Upload → Type 0
Opens d fh u =
    (fh.filename ≡ u.filename)
    × (fh.header ≡ u.header)
    × (fh.last_arg ≡ u.arg_name)
    × (open_file fh d ≡ some u.text)

abbrev pub Gives : Disk → List FileHeader → List Upload → Type 0
Gives d [] [] = Unit
Gives d [] (u ∷ us) = ⊥
Gives d (fh ∷ fhs) [] = ⊥
Gives d (fh ∷ fhs) (u ∷ us) = Opens d fh u × Gives d fhs us

-- What a key has in a form; nothing for a key that is not there.
abbrev pub found : {A : Type 0} → Str → Map Str (List A) → List A
found key m = elim (lookup key m) [ none ↦ [] | some vs ↦ vs ]

pub found-append :
    {A : Type 0} (key k : Str) (v : A) (m : Map Str (List A))
    → found k (append key v m) ≡ (if key == k then found k m ++ v ∷ [] else found k m)
found-append key k v m =
    ground (arith, lookup-insert key k (found key m ++ v ∷ []) m, str_eq_iff key k)

pub take_all : (n : ℕ) (xs : Str) → length (take n xs) < n → take n xs ≡ xs
unfolding take
take_all zero xs h = absurd (omega arith)
take_all (suc n) [] h = refl
take_all (suc n) (x ∷ xs) h = ground (arith, take_all n xs)

open_file-insert :
    (fh : FileHeader) (name text b : Str) (d : Disk)
    → lookup name d ≡ none
    → open_file fh d ≡ some b
    → open_file fh (insert name text d) ≡ some b
unfolding open_file
open_file-insert fh name text b d f h =
    ground (arith, lookup-insert name fh.tmpfile text d, str_eq_iff name fh.tmpfile)

-- A new file changes nothing of the others.
pub Gives-insert :
    (name text : Str) (d : Disk) (fhs : List FileHeader) (us : List Upload)
    → lookup name d ≡ none
    → Gives d fhs us
    → Gives (insert name text d) fhs us
Gives-insert name text d [] [] f h = tt
Gives-insert name text d [] (u ∷ us) f h = absurd h
Gives-insert name text d (fh ∷ fhs) [] f h = absurd h
Gives-insert name text d (fh ∷ fhs) (u ∷ us) f h = (
  (h.0.0, h.0.1, h.0.2, open_file-insert fh name text u.text d f h.0.3),
  Gives-insert name text d fhs us f h.1,
)

Gives-append :
    (d : Disk) (fhs : List FileHeader) (us : List Upload) (fh : FileHeader) (u : Upload)
    → Gives d fhs us
    → Opens d fh u
    → Gives d (fhs ++ fh ∷ []) (us ++ u ∷ [])
Gives-append d [] [] fh u h k = (k, tt)
Gives-append d [] (v ∷ us) fh u h k = absurd h
Gives-append d (x ∷ fhs) [] fh u h k = absurd h
Gives-append d (x ∷ fhs) (v ∷ us) fh u h k = (h.0, Gives-append d fhs us fh u h.1 k)

-- A file is added, whatever the field is that is looked at.
pub Gives-found :
    (name k : Str) (fh : FileHeader) (u : Upload) (m : Map Str (List FileHeader)) (d : Disk)
    (us : List Upload)
    → Opens d fh u
    → Gives d (found k m) us
    → Gives d (found k (append name fh m)) (us ++ (if name == k then u ∷ [] else []))
Gives-found name k fh u m d us o h =
    subst (λ fhs. Gives d fhs (us ++ (if name == k then u ∷ [] else [])))
      (sym (found-append name k fh m)) (at (name == k))
  where
    at :
        (b : Bool)
        → Gives d (if b then found k m ++ fh ∷ [] else found k m) (us ++ (if b then u ∷ [] else []))
    at true = Gives-append d (found k m) us fh u h o
    at false = rw (append-nil us) h
