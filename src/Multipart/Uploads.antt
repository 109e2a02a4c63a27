-- ===== src/Multipart/Uploads.antt =====
-- otasker/oraparsemultipart.go: what a form has of a message.
use iplsgo.Prelude.{
  ℕ, ◌+◌, ◌≡◌, ◌⊎◌, refl, ap, ◌∙◌, true, false, none, inl, inr, List, [], ◌∷◌, ◌++◌, Str, arith,
  str_Eq, str_eq_iff, ◌==◌, if◌then◌else◌, is_empty,
}
use mathlib.Core.Path.{subst}
use mathlib.Core.List.{append-nil, append_assoc}
use iplsgo.Gostd.Maps.{lookup, insert, lookup-insert}
use iplsgo.Multipart.Fields.{
  Upload, text_of, texts, next_arg, upload_of, upload, uploads, Gives, found, found-append,
  take_all, Gives-insert, Gives-found,
}
use iplsgo.Multipart.{
  on_disk, in_memory, Part, Message, eof, failed, part, Form, Disk, System, append, Reading,
  Outcome, went, stopped, start, read_value, store_file, read_file, read_part, read_parts, read,
  finished, read_form_ex, open_file,
}

module _ (o : System) (temporary : (d : Disk) (n : Str) → o.temp_file d ≡ inl n → lookup n d ≡ none)
    (k : Str) where
  -- What one part adds under the key.
  record Adds (p : Part) (us : List Upload) (s t : Reading) : Type 0 where
    arg : t.last_arg_names ≡ next_arg s.last_arg_names p
    value : found k t.form.value ≡ found k s.form.value ++ text_of p k
    file : Gives t.disk (found k t.form.file) (us ++ upload_of s.last_arg_names p k)

  abbrev Holds : List Upload → Reading → Type 0
  Holds us s = Gives s.disk (found k s.form.file) us

  read_value-Adds :
      (p : Part) (us : List Upload) (s t : Reading)
      → is_empty p.form_name ≡ false
      → is_empty p.file_name ≡ true
      → Holds us s
      → read_value p s ≡ went t
      → Adds p us s t
  unfolding read_value
  read_value-Adds p us s t a b h e = ground (
    arith,
    take_all s.max_value_bytes p.body,
    found-append p.form_name k p.body s.form.value,
    append-nil (found k s.form.value),
    append-nil us,
  )

  stored-Gives :
      (p : Part) (name : Str) (us : List Upload) (s : Reading)
      → lookup name s.disk ≡ none
      → Holds us s
      → Gives
          (insert name p.body s.disk)
          (found k (append p.form_name (on_disk p name s.last_arg_names) s.form.file))
          (us ++ (if p.form_name == k then upload p s.last_arg_names ∷ [] else []))
  unfolding open_file
  stored-Gives p name us s f h =
      Gives-found p.form_name k _ _ s.form.file (insert name p.body s.disk) us
        (
          refl,
          refl,
          refl,
          ground (arith, lookup-insert name name p.body s.disk, str_eq_iff name name),
        )
        (Gives-insert name p.body s.disk (found k s.form.file) us f h)

  store_file-Adds :
      (p : Part) (r : Str ⊎ Str) (us : List Upload) (s t : Reading)
      → o.temp_file s.disk ≡ r
      → is_empty p.form_name ≡ false
      → is_empty p.file_name ≡ false
      → Holds us s
      → store_file o p r s ≡ went t
      → Adds p us s t
  unfolding store_file
  store_file-Adds p (inr x) us s t w a b h e = cc
  store_file-Adds p (inl name) us s t w a b h e = ground (
    arith,
    append-nil (found k s.form.value),
    stored-Gives p name us s (temporary s.disk name w) h,
  )

  kept-Gives :
      (p : Part) (us : List Upload) (s : Reading)
      → Holds us s
      → Gives s.disk
          (found k (append p.form_name (in_memory p p.body s.last_arg_names) s.form.file))
          (us ++ (if p.form_name == k then upload p s.last_arg_names ∷ [] else []))
  unfolding open_file
  kept-Gives p us s h =
      Gives-found p.form_name k _ _ s.form.file s.disk us (refl, refl, refl, refl) h

  read_file-Adds :
      (p : Part) (us : List Upload) (s t : Reading)
      → is_empty p.form_name ≡ false
      → is_empty p.file_name ≡ false
      → Holds us s
      → read_file o p s ≡ went t
      → Adds p us s t
  unfolding read_file
  read_file-Adds p us s t a b h e = ground (
    arith,
    store_file-Adds p (o.temp_file s.disk) us s t refl a b h,
    take_all (s.max_memory + 1) p.body,
    append-nil (found k s.form.value),
    kept-Gives p us s h,
  )

  read_part-Adds :
      (p : Part) (us : List Upload) (s t : Reading)
      → Holds us s
      → read_part o p s ≡ went t
      → Adds p us s t
  unfolding read_part
  read_part-Adds p us s t h e = ground (
    arith,
    read_value-Adds p us s t,
    read_file-Adds p us s t,
    append-nil (found k s.form.value),
    append-nil us,
  )

  record Reads (m : Message) (us : List Upload) (s t : Reading) : Type 0 where
    value : found k t.form.value ≡ found k s.form.value ++ texts m k
    file : Gives t.disk (found k t.form.file) (us ++ uploads s.last_arg_names m k)

  one_more :
      (p : Part) (rest : Message) (us : List Upload) (s u t : Reading)
      → Adds p us s u
      → Reads rest (us ++ upload_of s.last_arg_names p k) u t
      → Reads (part p rest) us s t
  one_more p rest us s u t a r = record {
    value = r.value ∙ ap (λ vs. vs ++ texts rest k) a.value ∙ append_assoc _ (text_of p k) _;
    file =
        subst (Gives t.disk (found k t.form.file))
          (append_assoc us (upload_of s.last_arg_names p k) _)
          (subst
            (λ last.
              Gives t.disk (found k t.form.file)
                ((us ++ upload_of s.last_arg_names p k) ++ uploads last rest k))
            a.arg r.file);
  }

  read_parts-Reads :
      (m : Message) (us : List Upload) (s t : Reading)
      → Holds us s
      → read_parts o m s ≡ went t
      → Reads m us s t
  unfolding read_parts
  read_parts-Reads eof us s t h e = ground (arith, append-nil (found k s.form.value), append-nil us)
  read_parts-Reads (failed x) us s t h e = cc
  read_parts-Reads (part p rest) us s t h e =
      later (read_part o p s) (λ u. read_part-Adds p us s u h)
        (λ u. read_parts-Reads rest (us ++ upload_of s.last_arg_names p k) u t) e
    where
      later :
          (r : Outcome)
          → ((u : Reading) → r ≡ went u → Adds p us s u)
          → ((u : Reading)
              → Holds (us ++ upload_of s.last_arg_names p k) u
              → read_parts o rest u ≡ went t
              → Reads rest (us ++ upload_of s.last_arg_names p k) u t)
          → elim r [ went u ↦ read_parts o rest u | stopped x u ↦ stopped x u ] ≡ went t
          → Reads (part p rest) us s t
      later (went u) a r q = one_more p rest us s u t (a u refl) (r u (a u refl).file q)
      later (stopped x u) a r q = cc

  ended :
      (m : Message) (max_memory : ℕ) (d d' : Disk) (f : Form) (r : Outcome)
      → ((t : Reading) → r ≡ went t → Reads m [] (start max_memory d) t)
      → finished o r ≡ read f d'
      → (found k f.value ≡ texts m k) × Gives d' (found k f.file) (uploads [] m k)
  unfolding lookup
  ended m max_memory d d' f (went s) a e = ground (arith, (a s refl).value, (a s refl).file)
  ended m max_memory d d' f (stopped x s) a e = cc

  -- A form that is read has for every field the values of the message's parts in their order, and
  -- headers that open to its files in their order, whole, in memory or on the disk, each with the
  -- value of p_arg_names that came last before it, provided that ioutil.TempFile gives new names.
  pub read_form_ex-Gives :
      (m : Message) (max_memory : ℕ) (d d' : Disk) (f : Form)
      → read_form_ex o m max_memory d ≡ read f d'
      → (found k f.value ≡ texts m k) × Gives d' (found k f.file) (uploads [] m k)
  unfolding read_form_ex
  read_form_ex-Gives m max_memory d d' f h =
      ended m max_memory d d' f (read_parts o m (start max_memory d))
        (λ t. read_parts-Reads m [] (start max_memory d) t (unfold lookup in tt)) h
