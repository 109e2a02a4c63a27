-- ===== src/Describe/Separate.antt =====
-- otasker/describe.go: every argument has one owner, a procedure or the pool.
use iplsgo.Prelude.{
  ℕ, zero, suc, ◌+◌, ◌≤◌, ◌<◌, ◌≡◌, refl, ◌&&◌, Option, none, some, List, [], ◌∷◌, Str, arith,
  str_Eq, str_eq_iff, eqb, ◌==◌, if◌then◌else◌, is_some,
}
use mathlib.Core.Path.{subst, fun_ext}
use iplsgo.Gostd.Maps.{lookup, lookup-insert}
use iplsgo.Describe.{Procedure, Cache, address, updated, remove_at, known, heading}

abbrev pub count : ℕ → List ℕ → ℕ
count a [] = 0
count a (b ∷ bs) = (if eqb b a then 1 else 0) + count a bs

-- An address is given out below `next`, is once in the pool or at one place of the map.
pub record IsSeparate (f : Str → Str → Option ℕ) (free : List ℕ) (next : ℕ) : Type 0 where
  pub once : (a : ℕ) → count a free ≤ 1
  pub pooled : (key n : Str) (a : ℕ) → f key n ≡ some a → count a free ≡ 0
  pub apart :
      (key key' n n' : Str) (a : ℕ)
      → f key n ≡ some a
      → f key' n' ≡ some a
      → (key ≡ key') × (n ≡ n')
  pub below_free : (a : ℕ) → 0 < count a free → a < next
  pub below : (key n : Str) (a : ℕ) → f key n ≡ some a → a < next

-- The address at one place goes into the pool.
pub put_back-IsSeparate :
    (f g : Str → Str → Option ℕ) (free : List ℕ) (next : ℕ) (key n : Str) (a : ℕ)
    → f key n ≡ some a
    → ((key' n' : Str) → g key' n' ≡ (if (key == key') && (n == n') then none else f key' n'))
    → IsSeparate f free next
    → IsSeparate g (a ∷ free) next
put_back-IsSeparate f g free next key n a e h s = record {
  once = λ b. ground (arith, s.once b, s.pooled key n a);
  pooled = λ key' n' b k. ground (
    arith,
    h key' n',
    s.pooled key' n' b,
    s.apart key key' n n' b,
    str_eq_iff key key',
    str_eq_iff n n',
  );
  apart = λ k1 k2 n1 n2 b p q. ground (arith, h k1 n1, h k2 n2, s.apart k1 k2 n1 n2 b);
  below_free = λ b p. ground (arith, s.below_free b, s.below key n a);
  below = λ key' n' b p. ground (arith, h key' n', s.below key' n' b);
}

-- The pool without one of its elements.
pub remove_at-count :
    (i : ℕ) (free rest : List ℕ) (a x : ℕ)
    → remove_at i free ≡ some (a, rest)
    → count x free ≡ (if eqb a x then 1 else 0) + count x rest
unfolding remove_at
remove_at-count i [] rest a x h = cc
remove_at-count zero (b ∷ free) rest a x h = ground arith
remove_at-count (suc i) (b ∷ free) rest a x h =
    at (remove_at i free) refl (λ more. remove_at-count i free more a x) h
  where
    at :
        (o : Option (ℕ × List ℕ))
        → remove_at i free ≡ o
        → ((more : List ℕ)
            → remove_at i free ≡ some (a, more)
            → count x free ≡ (if eqb a x then 1 else 0) + count x more)
        → ◌≡◌ {A = Option (ℕ × List ℕ)}
            (elim o [ none ↦ none | some (c, more) ↦ some (c, b ∷ more) ])
            (some (a, rest))
        → count x (b ∷ free) ≡ (if eqb a x then 1 else 0) + count x rest
    at none e ih k = cc
    at (some (c, more)) e ih k = ground (arith, ih more)

-- An address that has no owner goes to one place.
pub put_row-IsSeparate :
    (f g : Str → Str → Option ℕ) (free : List ℕ) (next : ℕ) (key n : Str) (a : ℕ)
    → count a free ≡ 0
    → ((key' n' : Str) → f key' n' ≡ some a → ⊥)
    → a < next
    → ((key' n' : Str) → g key' n' ≡ (if (key == key') && (n == n') then some a else f key' n'))
    → IsSeparate f free next
    → IsSeparate g free next
put_row-IsSeparate f g free next key n a u v w h s = record {
  once = s.once;
  pooled = λ key' n' b k. ground (arith, h key' n', s.pooled key' n' b);
  apart = λ k1 k2 n1 n2 b p q. ground (
    arith,
    h k1 n1,
    h k2 n2,
    s.apart k1 k2 n1 n2 b,
    v k1 n1,
    v k2 n2,
    str_eq_iff key k1,
    str_eq_iff key k2,
    str_eq_iff n n1,
    str_eq_iff n n2,
  );
  below_free = s.below_free;
  below = λ key' n' b p. ground (arith, h key' n', s.below key' n' b);
}

pub address-updated :
    (f : Procedure → Procedure) (o : Option Procedure) (key key' n : Str) (c : Cache)
    → lookup key c.plist ≡ o
    → address key' n (updated f o key c) ≡ elim o [
      | none ↦ address key' n c
      | some p ↦ if key == key' then lookup n (f p).arguments else address key' n c
    ]
address-updated f none key key' n c h = refl
address-updated f (some p) key key' n c h =
    ground (arith, lookup-insert key key' (f p) c.plist, str_eq_iff key key')

-- What `updated` leaves alone.
pub updated_rest :
    (f : Procedure → Procedure) (o : Option Procedure) (key : Str) (c : Cache)
    → ((updated f o key c).free ≡ c.free)
      × ((updated f o key c).next ≡ c.next)
      × ((updated f o key c).memory ≡ c.memory)
updated_rest f none key c = (refl, refl, refl)
updated_rest f (some p) key c = (refl, refl, refl)

pub updated_there :
    (f : Procedure → Procedure) (o : Option Procedure) (key : Str) (c : Cache)
    → lookup key c.plist ≡ o
    → is_some (lookup key (updated f o key c).plist) ≡ is_some (lookup key c.plist)
updated_there f none key c h = refl
updated_there f (some p) key c h =
    ground (arith, lookup-insert key key (f p) c.plist, str_eq_iff key key)

pub same-IsSeparate :
    (f g : Str → Str → Option ℕ) (free : List ℕ) (next : ℕ)
    → ((key n : Str) → f key n ≡ g key n)
    → IsSeparate f free next
    → IsSeparate g free next
same-IsSeparate f g free next h s =
    subst (λ k. IsSeparate k free next) (fun_ext λ key. fun_ext λ n. h key n) s

pub known-updated :
    (f : Procedure → Procedure) (o : Option Procedure) (key k : Str) (c : Cache)
    → lookup key c.plist ≡ o
    → known k (updated f o key c)
      ≡ elim o [ none ↦ known k c | some p ↦ if key == k then heading (some (f p)) else known k c ]
known-updated f none key k c h = refl
known-updated f (some p) key k c h =
    ground (arith, lookup-insert key k (f p) c.plist, str_eq_iff key k)
