-- ===== src/Multipart/Cleanup.antt =====
-- otasker/oraparsemultipart.go: what an error of ReadFormEx leaves on the disk.
use iplsgo.Prelude.{
  ℕ, ◌+◌, ◌<◌, ◌≡◌, ◌≢◌, ◌⊎◌, refl, ◌&&◌, not, Option, none, inl, inr, List, [], ◌∷◌, Str, arith,
  str_Eq, str_eq_iff, eqb, ◌==◌, if◌then◌else◌, is_empty,
}
use iplsgo.Gostd.{take}
use iplsgo.Gostd.Maps.{Map, lookup, insert, delete, lookup-insert, lookup-delete}
use iplsgo.Multipart.{
  on_disk, in_memory, Part, Message, FileHeader, Disk, System, append, Reading, went, stopped,
  start, read_value, store_file, read_file, read_part, read_parts, remove_files, remove_all,
  removed, either_error, refused, finished, read_form_ex, Outcome,
}
use iplsgo.Multipart.Kept.{Keeps, read_parts_inv}
use iplsgo.Multipart.Bounds.{weights, total, total-append}

-- How often a temporary file is named by the headers.
abbrev marks : Str → FileHeader → ℕ
marks n fh = if not (is_empty fh.tmpfile) && (fh.tmpfile == n) then 1 else 0

abbrev held : Str → Map Str (List FileHeader) → ℕ
held n m = total (marks n) m

module _ (o : System) (removes : (n : Str) → o.remove_error n ≡ none) where
  removed_lem : (n : Str) (d : Disk) → removed o n d ≡ delete n d
  removed_lem n d = ground (arith, removes n)

  remove_files_lem :
      (n : Str) (fhs : List FileHeader) (d : Disk) (e : Option Str)
      → lookup n (remove_files o fhs (d, e)).0
        ≡ (if eqb (weights (marks n) fhs) 0 then lookup n d else none)
  unfolding remove_files
  remove_files_lem n [] d e = refl
  remove_files_lem n (fh ∷ rest) d e = ground (
    arith,
    removes fh.tmpfile,
    remove_files_lem n rest d e,
    remove_files_lem n rest (delete fh.tmpfile d) (either_error e none),
    lookup-delete fh.tmpfile n d,
    str_eq_iff fh.tmpfile n,
  )

  remove_all_lem :
      (n : Str) (m : Map Str (List FileHeader)) (d : Disk) (e : Option Str)
      → lookup n (remove_all o m (d, e)).0 ≡ (if eqb (held n m) 0 then lookup n d else none)
  unfolding remove_all
  remove_all_lem n [] d e = refl
  remove_all_lem n ((key, fhs) ∷ m) d e = ground (
    arith,
    remove_files_lem n fhs d e,
    remove_all_lem n m (remove_files o fhs (d, e)).0 (remove_files o fhs (d, e)).1,
  )

  module _ (d0 : Disk)
      (temporary : (d : Disk) (n : Str)
        → o.temp_file d ≡ inl n
        → (n ≢ []) × (lookup n d ≡ none)) where
    -- The disk is as it was, up to the temporary files that the headers name.
    record IsOwned (m : Map Str (List FileHeader)) (d : Disk) : Type 0 where
      same : (n : Str) → held n m ≡ 0 → lookup n d ≡ lookup n d0
      new : (n : Str) → 0 < held n m → lookup n d0 ≡ none

    abbrev Owns : Outcome → Type 0
    Owns = Keeps (λ s. IsOwned s.form.file s.disk) (λ e s. IsOwned s.form.file s.disk)

    -- A header without a temporary file, and one with a new one.
    in_memory-IsOwned :
        (key : Str) (fh : FileHeader) (m : Map Str (List FileHeader)) (d : Disk)
        → fh.tmpfile ≡ []
        → IsOwned m d
        → IsOwned (append key fh m) d
    in_memory-IsOwned key fh m d t h = record {
      same = λ n k. h.same n (ground (arith, total-append (marks n) key fh m));
      new = λ n k. h.new n (ground (arith, total-append (marks n) key fh m));
    }

    unknown :
        (name : Str) (m : Map Str (List FileHeader)) (d : Disk)
        → lookup name d ≡ none
        → IsOwned m d
        → lookup name d0 ≡ none
    unknown name m d f h = ground (arith, h.same name, h.new name)

    on_disk-IsOwned :
        (key text : Str) (fh : FileHeader) (m : Map Str (List FileHeader)) (d : Disk)
        → (fh.tmpfile ≢ []) × (lookup fh.tmpfile d ≡ none)
        → IsOwned m d
        → IsOwned (append key fh m) (insert fh.tmpfile text d)
    on_disk-IsOwned key text fh m d f h = record {
      same = λ n k. ground (
        arith,
        f,
        total-append (marks n) key fh m,
        h.same n,
        lookup-insert fh.tmpfile n text d,
        str_eq_iff fh.tmpfile n,
      );
      new = λ n k. ground (
        arith,
        f,
        total-append (marks n) key fh m,
        h.new n,
        unknown fh.tmpfile m d f.1 h,
        str_eq_iff fh.tmpfile n,
      );
    }

    given_up-IsOwned :
        (name text : Str) (m : Map Str (List FileHeader)) (d : Disk)
        → lookup name d ≡ none
        → IsOwned m d
        → IsOwned m (delete name (insert name text d))
    given_up-IsOwned name text m d f h = record {
      same = λ n k. ground (
        arith,
        h.same n,
        lookup-delete name n (insert name text d),
        lookup-insert name n text d,
        str_eq_iff name n,
      );
      new = h.new;
    }

    read_value-IsOwned :
        (p : Part) (s : Reading) → IsOwned s.form.file s.disk → Owns (read_value p s)
    unfolding read_value
    read_value-IsOwned p s h = ground arith

    store_file-IsOwned :
        (p : Part) (r : Str ⊎ Str) (s : Reading)
        → o.temp_file s.disk ≡ r
        → IsOwned s.form.file s.disk
        → Owns (store_file o p r s)
    unfolding store_file
    store_file-IsOwned p (inr e) s t h = h
    store_file-IsOwned p (inl name) s t h = ground (
      arith,
      removes name,
      on_disk-IsOwned p.form_name p.body (on_disk p name s.last_arg_names) s.form.file s.disk
          (temporary s.disk name t) h,
      given_up-IsOwned name p.body s.form.file s.disk (temporary s.disk name t).1 h,
    )

    read_file-IsOwned :
        (p : Part) (s : Reading) → IsOwned s.form.file s.disk → Owns (read_file o p s)
    unfolding read_file
    read_file-IsOwned p s h = ground (
      arith,
      store_file-IsOwned p (o.temp_file s.disk) s refl h,
      in_memory-IsOwned p.form_name (in_memory p (take (s.max_memory + 1) p.body) s.last_arg_names)
          s.form.file s.disk refl h,
    )

    read_part-IsOwned :
        (p : Part) (s : Reading) → IsOwned s.form.file s.disk → Owns (read_part o p s)
    unfolding read_part
    read_part-IsOwned p s h = ground (arith, read_value-IsOwned p s h, read_file-IsOwned p s h)

    cleaned :
        (r : Outcome) (e : Str) (d' : Disk) (n : Str)
        → Owns r
        → finished o r ≡ refused e d'
        → lookup n d' ≡ lookup n d0
    cleaned (went s) e d' n h k = cc
    cleaned (stopped e s) e' d' n h k =
        ground (arith, remove_all_lem n s.form.file s.disk none, h.same n, h.new n)

    -- After an error the disk has the files that it had before, provided that os.Remove works and that
    -- ioutil.TempFile gives names that are new and not empty.
    pub read_form_ex-restores :
        (m : Message) (max_memory : ℕ) (e : Str) (d' : Disk)
        → read_form_ex o m max_memory d0 ≡ refused e d'
        → (n : Str) → lookup n d' ≡ lookup n d0
    unfolding read_form_ex
    read_form_ex-restores m max_memory e d' h n =
        cleaned (read_parts o m (start max_memory d0)) e d' n
          (read_parts_inv (λ s. IsOwned s.form.file s.disk) (λ e s. IsOwned s.form.file s.disk) o
            read_part-IsOwned (λ e s k. k) m (start max_memory d0)
            (record { same = λ n k. refl; new = λ n k. absurd (omega arith) }))
          h
