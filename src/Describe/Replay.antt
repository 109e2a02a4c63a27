-- ===== src/Describe/Replay.antt =====
-- otasker/describe.go: what ProcedureInfo and ArgumentInfo answer after any descriptions.
use iplsgo.Prelude.{
  is_some, ℕ, ◌≡◌, ◌⊎◌, inl, inr, refl, ◌∙◌, ap, true, false, Option, none, some, List, [], ◌∷◌,
  Str, ℤ, pos, arith, str_Eq, nat_eq, ◌==◌, if◌then◌else◌,
}
use iplsgo.Gostd.Maps.{lookup}
use iplsgo.Tasker.{Error, Driver}
use iplsgo.Describe.{
  Cache, no_cache, Row, store, Missing, no_procedure, procedure_key, argument_or, argument_info,
  procedure_info, DescribeCalls, Short, typed_rows, stored_rows, fetched, checked, describe,
}
use iplsgo.Describe.Release.{Separated}
use iplsgo.Describe.Refines.{Description, view, describes, store-Stores}

-- What one description stores: the key, the timestamp, the package and the rows.
abbrev pub Update : Type 0
Update = Str × Option ℕ × Str × List (Row × Option ℕ)

-- The critical sections of Describe, in the order in which they take the lock.
unfoldable pub store_all : List Update → Cache → Cache
unfolding store
store_all [] c = c
store_all ((key, timestamp, package_name, rows) ∷ us) c =
    store_all us (store key timestamp package_name rows c)

-- The same on functions of names.
abbrev pub replay : List Update → (Str → Option Description) → Str → Option Description
replay [] f = f
replay ((key, timestamp, package_name, rows) ∷ us) f =
    replay us (describes key timestamp package_name rows f)

store_all-replay :
    (us : List Update) (c : Cache) → Separated c → view (store_all us c) ≡ replay us (view c)
unfolding store_all
store_all-replay [] c s = refl
store_all-replay ((key, timestamp, package_name, rows) ∷ us) c s =
    let h = store-Stores key timestamp package_name rows c s in
    store_all-replay us (store key timestamp package_name rows c) h.separated
    ∙ ap (replay us) h.shows

pub no_cache-Separated : Separated no_cache
unfolding lookup
no_cache-Separated = record {
  once = λ a. omega arith;
  pooled = λ key n a h. refl;
  apart = λ k1 k2 n1 n2 a h. cc;
  below_free = λ a h. absurd (omega arith);
  below = λ key n a h. cc;
}

view-no_cache : view no_cache ≡ (λ k. none)
unfolding lookup
view-no_cache = refl

module _ (up : Str → Str) where
  -- What is answered by a description.
  abbrev pub argument_from : Str → Str → Option Description → (ℤ × Str) × Option Missing
  argument_from proc arg none = ((pos 0, []), some (no_procedure proc))
  argument_from proc arg (some e) = argument_or up proc arg (e.1 (up arg))

  abbrev pub procedure_from : Str → Option Description → (Option ℕ × Str) × Option Missing
  procedure_from proc none = ((none, []), some (no_procedure proc))
  procedure_from proc (some e) = (e.0, none)

  argument_info-view :
      (db proc arg : Str) (c : Cache)
      → argument_info up db proc arg c ≡ argument_from proc arg (view c (procedure_key up db proc))
  unfolding argument_info
  argument_info-view db proc arg c = ground arith

  procedure_info-view :
      (db proc : Str) (c : Cache)
      → procedure_info up db proc c ≡ procedure_from proc (view c (procedure_key up db proc))
  unfolding procedure_info
  procedure_info-view db proc c = ground arith

  -- Whatever was described before, by whatever taskers, and whatever arguments the pool gave again,
  -- ProcedureInfo and ArgumentInfo answer by the last description of that procedure alone: its
  -- timestamp and package, and the type of its last row with the argument's name.
  pub store_all-refines :
      (us : List Update) (db proc arg : Str)
      → (argument_info up db proc arg (store_all us no_cache)
          ≡ argument_from proc arg (replay us (λ k. none) (procedure_key up db proc)))
        × (procedure_info up db proc (store_all us no_cache)
            ≡ procedure_from proc (replay us (λ k. none) (procedure_key up db proc)))
  store_all-refines us db proc arg =
      let key = procedure_key up db proc in
      let h : view (store_all us no_cache) key ≡ replay us (λ k. none) key =
        ap (λ f. f key)
          (store_all-replay us no_cache no_cache-Separated ∙ ap (replay us) view-no_cache) in
      (
        argument_info-view db proc arg (store_all us no_cache) ∙ ap (argument_from proc arg) h,
        procedure_info-view db proc (store_all us no_cache) ∙ ap (procedure_from proc) h,
      )

  module _ (d : Driver) (k : DescribeCalls up d) where
    open d use {World, Conn}

    -- The cache is as it was, or has one procedure described anew.
    abbrev pub Changed : Str → Option Error → Cache → Cache → Type 0
    Changed key e c c' =
        (c' ≡ c)
        ⊎ ((u : Option ℕ × Str × List (Row × Option ℕ)) × (e ≡ none)
            × (view c' ≡ describes key u.0 u.1 u.2 (view c)))

    abbrev pub Typed : Type 0
    Typed =
        (conn : Conn) (id : ℕ) (name : Str) (x : World) (cells : List (Option Row))
        → (k.long conn id name x).1 ≡ inr cells
        → is_some (typed_rows cells) ≡ true

    -- The database may give a row whose columns do not have their types.
    abbrev pub Untyped : Type 0
    Untyped =
        (conn : Conn) × (id : ℕ) × (name : Str) × (x : World) × (cells : List (Option Row))
        × ((k.long conn id name x).1 ≡ inr cells)
        × (typed_rows cells ≡ none)

    -- What Describe does, unless it panics on such a row.
    abbrev pub Describes : Str → Cache → Option (Option Error × Cache × World) → Type 0
    Describes key c r =
        ((r ≡ none) × Untyped)
        ⊎ ((q : Option Error × Cache × World) × (r ≡ some q)
            × Separated q.1
            × Changed key q.0 c q.1)

    same-Describes :
        (key : Str) (e : Option Error) (c : Cache) (x : World)
        → Separated c
        → Describes key c (some (e, c, x))
    same-Describes key e c x h = inr ((e, c, x), refl, h, inl refl)

    stored_rows-Describes :
        (key : Str) (s : Short up d) (x : World) (o : Option (List Row)) (c : Cache)
        → (o ≡ none → Untyped)
        → Separated c
        → Describes key c (stored_rows up d k key s x o c)
    stored_rows-Describes key s x none c u h = inl (refl, u refl)
    stored_rows-Describes key s x (some rows) c u h =
        let r = store-Stores key s.timestamp s.package_name (k.choices x rows) c h in
        inr (
          (none, store key s.timestamp s.package_name (k.choices x rows) c, x),
          refl,
          r.separated,
          inr ((s.timestamp, s.package_name, k.choices x rows), refl, r.shows),
        )

    fetched-Describes :
        (key : Str) (s : Short up d) (r : World × (Error ⊎ List (Option Row))) (c : Cache)
        → ((cells : List (Option Row)) → r.1 ≡ inr cells → typed_rows cells ≡ none → Untyped)
        → Separated c
        → Describes key c (fetched up d k key s r c)
    fetched-Describes key s (x, inl e) c u h = same-Describes key (some e) c x h
    fetched-Describes key s (x, inr cells) c u h =
        stored_rows-Describes key s x (typed_rows cells) c (u cells refl) h

    checked-Describes :
        (conn : Conn) (key : Str) (r : World × (Error ⊎ Short up d)) (c : Cache)
        → Separated c
        → Describes key c (checked up d k conn key r c)
    checked-Describes conn key (x, inl e) c h = same-Describes key (some e) c x h
    checked-Describes conn key (x, inr s) c h =
        elim (s.updated == 1)
          as (λ b. Describes key c (
            if b
            then fetched up d k key s (k.long conn s.object_id s.procedure_name x) c
            else some (none, c, x))) [
              | true ↦
                  fetched-Describes key s (k.long conn s.object_id s.procedure_name x) c
                    (λ cells e n. (conn, s.object_id, s.procedure_name, x, cells, e, n)) h
              | false ↦ same-Describes key none c x h
            ]

    -- Describe keeps every argument at one owner, and leaves the cache as it is or, if it has no error,
    -- describes its procedure anew and no other; after an error the cache is as it was. It panics
    -- only where the database gives a row whose columns do not have their types.
    pub describe_lem :
        (conn : Conn) (db proc : Str) (c : Cache) (x : World)
        → Separated c
        → Describes (procedure_key up db proc) c (describe up d k conn db proc c x)
    unfolding describe
    describe_lem conn db proc c x h =
        let key = procedure_key up db proc in
        let known = (procedure_info up db proc c).0 in
        let r = k.short conn proc known.0 known.1 x in
        elim (k.new_variables conn x)
          as (λ o.
            Describes key c
              (elim o [ some e ↦ some (some e, c, x) | none ↦ checked up d k conn key r c ])) [
                | none ↦ checked-Describes conn key r c h
                | some e ↦ same-Describes key (some e) c x h
              ]

    typed-is_some :
        (key : Str) (s : Short up d) (r : World × (Error ⊎ List (Option Row))) (c : Cache)
        → ((cells : List (Option Row)) → r.1 ≡ inr cells → is_some (typed_rows cells) ≡ true)
        → is_some (fetched up d k key s r c) ≡ true
    typed-is_some key s (x, inl e) c h = refl
    typed-is_some key s (x, inr cells) c h =
        elim (typed_rows cells)
            as (λ o. is_some o ≡ true → is_some (stored_rows up d k key s x o c) ≡ true) [
              | none ↦ λ e. e
              | some rows ↦ λ e. refl
            ]
          (h cells refl)

    -- Describe of a procedure that the database has as it is stored.
    abbrev unchanged : Cache → World → Option (Option Error × Cache × World)
    unchanged c x = some (none, c, x)

    checked-is_some :
        (conn : Conn) (key : Str) (r : World × (Error ⊎ Short up d)) (c : Cache)
        → Typed
        → is_some (checked up d k conn key r c) ≡ true
    checked-is_some conn key (x, inl e) c h = refl
    checked-is_some conn key (x, inr s) c h =
        elim (s.updated == 1)
          as (λ b.
            is_some (
              if b
              then fetched up d k key s (k.long conn s.object_id s.procedure_name x) c
              else unchanged c x)
            ≡ true) [
              | true ↦
                  typed-is_some key s (k.long conn s.object_id s.procedure_name x) c
                    (h conn s.object_id s.procedure_name x)
              | false ↦ refl
            ]

    -- Describe does not panic where the columns of every row have their types.
    pub describe-is_some :
        (conn : Conn) (db proc : Str) (c : Cache) (x : World)
        → Typed
        → is_some (describe up d k conn db proc c x) ≡ true
    unfolding describe
    describe-is_some conn db proc c x h =
        let key = procedure_key up db proc in
        let known = (procedure_info up db proc c).0 in
        let r = k.short conn proc known.0 known.1 x in
        elim (k.new_variables conn x)
          as (λ o.
            is_some (elim o [ some e ↦ some (some e, c, x) | none ↦ checked up d k conn key r c ])
            ≡ true) [ none ↦ checked-is_some conn key r c h | some e ↦ refl ]
