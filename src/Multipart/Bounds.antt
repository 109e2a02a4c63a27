-- ===== src/Multipart/Bounds.antt =====
-- otasker/oraparsemultipart.go: how much a form holds in memory.
use iplsgo.Prelude.{
  ℕ, zero, suc, ◌+◌, ◌≤◌, ◌<◌, ◌≡◌, ◌⊎◌, refl, Option, none, some, inl, inr, List, [], ◌∷◌, ◌++◌,
  Str, arith, str_Eq, length,
}
use iplsgo.Gostd.{take}
use iplsgo.Gostd.Maps.{Map, lookup, insert}
use iplsgo.Multipart.Kept.{Keeps, read_parts_inv}
use iplsgo.Multipart.{
  on_disk, in_memory, Part, Message, FileHeader, Form, Disk, System, append, Reading, Outcome, went,
  stopped, value_limit, start, read_value, store_file, read_file, read_part, read_parts, read,
  finished, read_form_ex,
}

module _ {A : Type 0} (weight : A → ℕ) where
  abbrev pub weights : List A → ℕ
  weights [] = 0
  weights (x ∷ xs) = weight x + weights xs

  abbrev pub total : Map Str (List A) → ℕ
  total [] = 0
  total ((k, xs) ∷ m) = weights xs + total m

  abbrev weights_at : Option (List A) → ℕ
  weights_at none = 0
  weights_at (some xs) = weights xs

  weights-append : (xs : List A) (x : A) → weights (xs ++ x ∷ []) ≡ weights xs + weight x
  weights-append [] x = omega arith
  weights-append (y ∷ xs) x = omega (arith, weights-append xs x)

  total-insert :
      (key : Str) (xs : List A) (m : Map Str (List A))
      → total (insert key xs m) + weights_at (lookup key m) ≡ total m + weights xs
  unfolding insert lookup
  total-insert key xs [] = omega arith
  total-insert key xs ((k, ys) ∷ m) = ground (arith, total-insert key xs m)

  total-append_at :
      (o : Option (List A)) (key : Str) (x : A) (m : Map Str (List A))
      → lookup key m ≡ o
      → total (insert key (elim o [ none ↦ [] | some vs ↦ vs ] ++ x ∷ []) m) ≡ total m + weight x
  total-append_at none key x m h = ground (arith, total-insert key (x ∷ []) m)
  total-append_at (some xs) key x m h =
      ground (arith, total-insert key (xs ++ x ∷ []) m, weights-append xs x)

  pub total-append :
      (key : Str) (x : A) (m : Map Str (List A)) → total (append key x m) ≡ total m + weight x
  total-append key x m = total-append_at (lookup key m) key x m refl

length-take : (n : ℕ) (xs : Str) → length (take n xs) ≤ n
unfolding take
length-take zero xs = omega arith
length-take (suc n) [] = omega arith
length-take (suc n) (x ∷ xs) = omega (arith, length-take n xs)

abbrev pub held : FileHeader → ℕ
held fh = elim fh.content [ none ↦ 0 | some b ↦ length b ]

-- What is read and what may still be read make up the limits; some text may always be read.
record IsWithin (limit memory : ℕ) (s : Reading) : Type 0 where
  texts : total {A = Str} length s.form.value + s.max_value_bytes ≡ limit
  files : total held s.form.file + s.max_memory ≡ memory
  room : 0 < s.max_value_bytes

module _ (limit memory : ℕ) where
  abbrev Within : Outcome → Type 0
  Within = Keeps (IsWithin limit memory) (λ e s. Unit {0})

  read_value-IsWithin : (p : Part) (s : Reading) → IsWithin limit memory s → Within (read_value p s)
  unfolding read_value
  read_value-IsWithin p s h = ground (
    arith,
    total-append length p.form_name (take s.max_value_bytes p.body) s.form.value,
    length-take s.max_value_bytes p.body,
  )

  store_file-IsWithin :
      (o : System) (p : Part) (n : Str ⊎ Str) (s : Reading)
      → IsWithin limit memory s
      → Within (store_file o p n s)
  unfolding store_file
  store_file-IsWithin o p (inr e) s h = tt
  store_file-IsWithin o p (inl name) s h =
      ground (arith, total-append held p.form_name (on_disk p name s.last_arg_names) s.form.file)

  read_file-IsWithin :
      (o : System) (p : Part) (s : Reading) → IsWithin limit memory s → Within (read_file o p s)
  unfolding read_file
  read_file-IsWithin o p s h = ground (
    arith,
    store_file-IsWithin o p (o.temp_file s.disk) s h,
    total-append held p.form_name (in_memory p (take (s.max_memory + 1) p.body) s.last_arg_names)
        s.form.file,
  )

  read_part-IsWithin :
      (o : System) (p : Part) (s : Reading) → IsWithin limit memory s → Within (read_part o p s)
  unfolding read_part
  read_part-IsWithin o p s h = ground (arith, read_value-IsWithin p s h, read_file-IsWithin o p s h)

-- A form that is read has less than 10 MB of texts, and no more bytes of files in memory than
-- `maxMemory`, whatever the message and the disk.
pub read_form_ex-bounds :
    (o : System) (m : Message) (max_memory : ℕ) (d d' : Disk) (f : Form)
    → read_form_ex o m max_memory d ≡ read f d'
    → (total {A = Str} length f.value < value_limit) × (total held f.file ≤ max_memory)
unfolding read_form_ex
read_form_ex-bounds o m max_memory d d' f h =
    within (read_parts o m (start max_memory d))
      (read_parts_inv (IsWithin value_limit max_memory) (λ e s. Unit {0}) o
        (read_part-IsWithin value_limit max_memory o) (λ e s k. tt) m (start max_memory d)
        (record { texts = omega arith; files = omega arith; room = omega arith }))
      h
  where
    within :
        (r : Outcome)
        → Within value_limit max_memory r
        → finished o r ≡ read f d'
        → (total {A = Str} length f.value < value_limit) × (total held f.file ≤ max_memory)
    within (went s) k e = ground arith
    within (stopped e s) k c = cc
