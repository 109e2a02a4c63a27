-- ===== src/Describe/Fill.antt =====
-- otasker/describe.go: the rows that describe a procedure become its arguments.
use iplsgo.Prelude.{
  ℕ, ◌+◌, ◌<◌, ◌≡◌, ◌∙◌, refl, true, ◌&&◌, Option, none, some, List, [], ◌∷◌, Str, arith, str_Eq,
  str_eq_iff, nat_eq, eqb, ◌==◌, if◌then◌else◌, is_some,
}
use iplsgo.Gostd.Maps.{lookup, insert, lookup-insert, Map}
use iplsgo.Describe.{
  Argument, Procedure, Cache, Row, address, value_at, stored, remove_at, taken, get_free, put_row,
  fill, known,
}
use iplsgo.Describe.Separate.{
  count, remove_at-count, put_row-IsSeparate, updated_rest, updated_there, known-updated,
}
use iplsgo.Describe.Release.{Separated}

-- What aFree.Get gives: an address that nothing has.
record IsFresh (c : Cache) (r : ℕ × Cache) : Type 0 where
  separated : Separated r.1
  unpooled : count r.0 r.1.free ≡ 0
  unowned : (key n : Str) → address key n c ≡ some r.0 → ⊥
  given : r.0 < r.1.next
  plist : r.1.plist ≡ c.plist
  memory : r.1.memory ≡ c.memory

taken-IsFresh :
    (o : Option (ℕ × List ℕ)) (c : Cache)
    → ((a x : ℕ) (rest : List ℕ)
        → o ≡ some (a, rest)
        → count x c.free ≡ (if eqb a x then 1 else 0) + count x rest)
    → Separated c
    → IsFresh c (taken o c)
taken-IsFresh none c h s = record {
  separated = record {
    once = s.once;
    pooled = s.pooled;
    apart = s.apart;
    below_free = λ a p. ground (arith, s.below_free a);
    below = λ key n a p. ground (arith, s.below key n a);
  };
  unpooled = ground (arith, s.below_free c.next);
  unowned = λ key n p. ground (arith, s.below key n c.next);
  given = omega arith;
  plist = refl;
  memory = refl;
}
taken-IsFresh (some (a, rest)) c h s = record {
  separated = record {
    once = λ x. ground (arith, h a x rest refl, s.once x);
    pooled = λ key n x p. ground (arith, h a x rest refl, s.pooled key n x);
    apart = s.apart;
    below_free = λ x p. ground (arith, h a x rest refl, s.below_free x);
    below = s.below;
  };
  unpooled = ground (arith, h a a rest refl, s.once a);
  unowned = λ key n p. ground (arith, h a a rest refl, s.pooled key n a);
  given = ground (arith, h a a rest refl, s.below_free a);
  plist = refl;
  memory = refl;
}

get_free-IsFresh : (choice : Option ℕ) (c : Cache) → Separated c → IsFresh c (get_free choice c)
get_free-IsFresh none c s = taken-IsFresh none c (λ a x rest e. cc) s
get_free-IsFresh (some i) c s =
    taken-IsFresh (remove_at i c.free) c (λ a x rest e. remove_at-count i c.free rest a x e) s

value_at-insert :
    (a : ℕ) (v : Argument) (o : Option ℕ) (m : Map ℕ Argument)
    → (o ≡ some a → ⊥)
    → value_at o (insert a v m) ≡ value_at o m
value_at-insert a v none m h = refl
value_at-insert a v (some b) m h = ground (arith, lookup-insert a b v m, h)

abbrev pub argument_of : Row → Argument
argument_of row = record { data_type = row.data_type; data_type_name = row.data_type_name }

module _ (key : Str) where
  record Puts (row : Row) (c c' : Cache) : Type 0 where
    separated : Separated c'
    values :
        (key' n' : Str)
        → stored key' n' c'
          ≡ (if (key == key') && (row.name == n') then some (argument_of row) else stored key' n' c)
    there : is_some (lookup key c'.plist) ≡ true
    kept : (k : Str) → known k c' ≡ known k c

  put_row-address :
      (row : Row) (a : ℕ) (p : Procedure) (c : Cache) (k n : Str)
      → lookup key c.plist ≡ some p
      → address k n (put_row key row (a, c))
        ≡ (if (key == k) && (row.name == n) then some a else address k n c)
  put_row-address row a p c k n h = ground (
    arith,
    h,
    lookup-insert key k (record p { arguments = insert row.name a p.arguments }) c.plist,
    lookup-insert row.name n a p.arguments,
    str_eq_iff key k,
  )

  put_row-Puts_at :
      (o : Option Procedure) (row : Row) (a : ℕ) (c1 c : Cache)
      → lookup key c1.plist ≡ o
      → is_some (lookup key c.plist) ≡ true
      → IsFresh c (a, c1)
      → Puts row c (put_row key row (a, c1))
  put_row-Puts_at none row a c1 c e h f = absurd (ground (arith, f.plist))
  put_row-Puts_at (some p) row a c1 c e h f =
      let g : Procedure → Procedure = λ p. record p { arguments = insert row.name a p.arguments } in
      let c2 : Cache = record c1 { memory = insert a (argument_of row) c1.memory } in
      let u = updated_rest g (lookup key c1.plist) key c2 in
      record {
        separated =
            rw (u.0, u.1)
              (put_row-IsSeparate (λ k n. address k n c1)
                (λ k n. address k n (put_row key row (a, c1))) c1.free c1.next key row.name a
                f.unpooled (λ k n q. f.unowned k n (ground (arith, q, f.plist))) f.given
                (λ k n. put_row-address row a p c1 k n e) f.separated);
        values = λ k n. ground (
          arith,
          put_row-address row a p c1 k n e,
          u.2,
          f.plist,
          f.memory,
          f.unowned k n,
          value_at-insert a (argument_of row) (address k n c) c.memory,
          lookup-insert a a (argument_of row) c.memory,
        );
        there = ground (arith, updated_there g (lookup key c1.plist) key c2 refl, f.plist);
        kept =
            λ k. ground (arith, known-updated g (some p) key k c2 e, e, f.plist, str_eq_iff key k);
      }

  put_row-Puts :
      (row : Row) (r : ℕ × Cache) (c : Cache)
      → is_some (lookup key c.plist) ≡ true
      → IsFresh c r
      → Puts row c (put_row key row r)
  put_row-Puts row (a, c1) c h f = put_row-Puts_at (lookup key c1.plist) row a c1 c refl h f

  -- The last row of a name, over what was there before.
  abbrev pub last_row : List (Row × Option ℕ) → Str → Option Argument → Option Argument
  last_row [] n old = old
  last_row ((row, choice) ∷ rest) n old =
      last_row rest n (if row.name == n then some (argument_of row) else old)

  pub record Fills (rows : List (Row × Option ℕ)) (c c' : Cache) : Type 0 where
    pub separated : Separated c'
    pub values :
        (key' n : Str)
        → stored key' n c'
          ≡ (if key == key' then last_row rows n (stored key' n c) else stored key' n c)
    pub kept : (k : Str) → known k c' ≡ known k c

  pub fill-Fills :
      (rows : List (Row × Option ℕ)) (c : Cache)
      → is_some (lookup key c.plist) ≡ true
      → Separated c
      → Fills rows c (fill rows key c)
  unfolding fill
  fill-Fills [] c h s = record { separated = s; values = λ k n. ground arith; kept = λ k. refl }
  fill-Fills ((row, choice) ∷ rest) c h s =
      let p = put_row-Puts row (get_free choice c) c h (get_free-IsFresh choice c s) in
      let r = fill-Fills rest (put_row key row (get_free choice c)) p.there p.separated in
      record {
        separated = r.separated;
        values = λ k n. ground (arith, r.values k n, p.values k n);
        kept = λ k. r.kept k ∙ p.kept k;
      }
