-- ===== src/Describe/Refines.antt =====
-- otasker/describe.go: the cache of descriptions as a function of names.
use iplsgo.Prelude.{
  ℕ, ◌≡◌, refl, sym, ◌∙◌, ap, Bool, true, false, Option, none, some, List, Str, arith, str_Eq,
  str_eq_iff, ◌==◌, if◌then◌else◌, is_some,
}
use mathlib.Core.Path.{fun_ext}
use iplsgo.Gostd.Maps.{lookup}
use iplsgo.Describe.{
  Argument, Procedure, Cache, Row, address, stored, known, updated, emptied, stamp, value_at, store,
}
use iplsgo.Describe.Separate.{same-IsSeparate, updated_there, address-updated, known-updated}
use iplsgo.Describe.Release.{Separated, emptied-Empties}
use iplsgo.Describe.Fill.{last_row, fill-Fills}

-- A description: the timestamp, the package, and the arguments by their names.
abbrev pub Description : Type 0
Description = (Option ℕ × Str) × (Str → Option Argument)

abbrev pub with_arguments : Option (Option ℕ × Str) → (Str → Option Argument) → Option Description
with_arguments none f = none
with_arguments (some h) f = some (h, f)

-- What the cache says of a procedure.
abbrev pub view : Cache → Str → Option Description
view c key = with_arguments (known key c) (λ n. stored key n c)

-- A store in the view: one procedure has a new description, with the last row of each name.
abbrev pub describes :
    Str
    → Option ℕ
    → Str
    → List (Row × Option ℕ)
    → (Str → Option Description)
    → Str
    → Option Description
describes key timestamp package_name rows f k =
    if key == k then some ((timestamp, package_name), λ n. last_row key rows n none) else f k

if_apply :
    (b : Bool) (f g : Str → Option Argument) (n : Str)
    → (if b then f else g) n ≡ (if b then f n else g n)
if_apply true f g n = refl
if_apply false f g n = refl

with_arguments-if :
    (b : Bool) (h : Option ℕ × Str) (o : Option (Option ℕ × Str)) (f g : Str → Option Argument)
    → with_arguments (if b then some h else o) (if b then f else g)
      ≡ (if b then some (h, f) else with_arguments o g)
with_arguments-if true h o f g = refl
with_arguments-if false h o f g = refl

with_arguments-both :
    {o o' : Option (Option ℕ × Str)} {f f' : Str → Option Argument}
    → o ≡ o'
    → f ≡ f'
    → with_arguments o f ≡ with_arguments o' f'
with_arguments-both p q = λ i. with_arguments (p i) (q i)

module _ (key : Str) (timestamp : Option ℕ) (package_name : Str) where
  abbrev stamped : Option Procedure → Cache → Cache
  stamped o c = updated (stamp timestamp package_name) o key c

  record Stamps (c c' : Cache) : Type 0 where
    separated : Separated c → Separated c'
    values : (k n : Str) → stored k n c' ≡ stored k n c
    headings :
        (k : Str) → known k c' ≡ (if key == k then some (timestamp, package_name) else known k c)
    there : is_some (lookup key c'.plist) ≡ true

  stamped_at :
      (o : Option Procedure) (c : Cache)
      → lookup key c.plist ≡ o
      → is_some o ≡ true
      → Stamps c (stamped o c)
  stamped_at none c e h = cc
  stamped_at (some p) c e h =
      let a : (k n : Str) → address k n (stamped (some p) c) ≡ address k n c = λ k n. ground (
        arith,
        address-updated (stamp timestamp package_name) (some p) key k n c e,
        e,
        str_eq_iff key k,
      ) in
      record {
        separated =
            same-IsSeparate (λ k n. address k n c) (λ k n. address k n (stamped (some p) c)) c.free
              c.next (λ k n. sym (a k n));
        values = λ k n. ap (λ o. value_at o c.memory) (a k n);
        headings = λ k. known-updated (stamp timestamp package_name) (some p) key k c e;
        there = ground (arith, updated_there (stamp timestamp package_name) (some p) key c e, e);
      }

  value_at-emptied :
      (c c1 : Cache) (k n : Str)
      → c1.memory ≡ c.memory
      → address k n c1 ≡ (if key == k then none else address k n c)
      → stored k n c1 ≡ (if key == k then none else stored k n c)
  value_at-emptied c c1 k n m a = ground (arith, m, a)

  pub record Stores (rows : List (Row × Option ℕ)) (c c' : Cache) : Type 0 where
    pub separated : Separated c'
    pub shows : view c' ≡ describes key timestamp package_name rows (view c)

  pub store-Stores :
      (rows : List (Row × Option ℕ)) (c : Cache)
      → Separated c
      → Stores rows c (store key timestamp package_name rows c)
  unfolding store
  store-Stores rows c s =
      let c1 = emptied (lookup key c.plist) key c in
      let e = emptied-Empties key c in
      let c2 = stamped (lookup key c1.plist) c1 in
      let m = stamped_at (lookup key c1.plist) c1 refl e.there in
      let f = fill-Fills key rows c2 m.there (m.separated (e.separated s)) in
      record {
        separated = f.separated;
        shows = fun_ext λ k.
            with_arguments-both (ground (arith, f.kept k, m.headings k, e.others k)) (
              fun_ext λ n. ground (
                arith,
                f.values k n,
                m.values k n,
                value_at-emptied c c1 k n e.memory (e.addresses k n),
                if_apply (key == k) (λ n. last_row key rows n none) (λ n. stored k n c) n,
              ))
            ∙ with_arguments-if (key == k) (timestamp, package_name) (known k c)
                (λ n. last_row key rows n none) (λ n. stored k n c);
      }
