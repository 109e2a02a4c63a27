-- ===== src/Describe/Release.antt =====
-- otasker/describe.go: the arguments of a procedure go back to the pool.
use iplsgo.Prelude.{
  ℕ, ◌≡◌, ◌∙◌, refl, Bool, true, false, ◌&&◌, ◌||◌, Option, none, some, List, [], ◌∷◌, Str, arith,
  str_Eq, str_eq_iff, ◌==◌, if◌then◌else◌, is_some,
}
use iplsgo.Gostd.Maps.{lookup, lookup-insert, lookup-delete, Map, delete}
use iplsgo.Describe.{
  Procedure, Cache, argument_at, address, updated, put_back, release, emptied, new_procedure, known,
}
use iplsgo.Describe.Separate.{
  IsSeparate, put_back-IsSeparate, updated_rest, updated_there, known-updated, same-IsSeparate,
}

lookup-new_procedure : (n : Str) → lookup n new_procedure.arguments ≡ none
unfolding lookup
lookup-new_procedure n = refl

abbrev pub Separated : Cache → Type 0
Separated c = IsSeparate (λ key n. address key n c) c.free c.next

put_back-address_at :
    (o : Option Procedure) (r : Option ℕ) (key n key' n' : Str) (c : Cache)
    → lookup key c.plist ≡ o
    → argument_at o n ≡ r
    → address key' n' (put_back r key n c)
      ≡ (if (key == key') && (n == n') then none else address key' n' c)
put_back-address_at none none key n key' n' c e h = ground (arith, str_eq_iff key key')
put_back-address_at none (some a) key n key' n' c e h = cc
put_back-address_at (some p) none key n key' n' c e h =
    ground (arith, str_eq_iff key key', str_eq_iff n n')
put_back-address_at (some p) (some a) key n key' n' c e h = ground (
  arith,
  str_eq_iff key key',
  lookup-insert key key' (record p { arguments = delete n p.arguments }) c.plist,
  lookup-delete n n' p.arguments,
)

put_back-address :
    (key n key' n' : Str) (c : Cache)
    → address key' n' (put_back (address key n c) key n c)
      ≡ (if (key == key') && (n == n') then none else address key' n' c)
put_back-address key n key' n' c =
    put_back-address_at (lookup key c.plist) _ key n key' n' c refl refl

put_back-Separated_at :
    (r : Option ℕ) (key n : Str) (c : Cache)
    → address key n c ≡ r
    → Separated c
    → Separated (put_back r key n c)
put_back-Separated_at none key n c e s = s
put_back-Separated_at (some a) key n c e s =
    let u =
      updated_rest (λ p. record p { arguments = delete n p.arguments }) (lookup key c.plist) key
        (record c { free = a ∷ c.free }) in
    rw (u.0, u.1)
      (put_back-IsSeparate (λ k m. address k m c) (λ k m. address k m (put_back (some a) key n c))
        c.free c.next key n a e
        (λ k m. put_back-address_at (lookup key c.plist) (some a) key n k m c refl e) s)

module _ (key : Str) where
  abbrev has_key : List (Str × ℕ) → Str → Bool
  has_key [] n = false
  has_key ((k, a) ∷ l) n = (k == n) || has_key l n

  -- The procedure is there and has no arguments.
  pub record Empties (c c' : Cache) : Type 0 where
    pub separated : Separated c → Separated c'
    pub memory : c'.memory ≡ c.memory
    pub addresses :
        (key' n' : Str) → address key' n' c' ≡ (if key == key' then none else address key' n' c)
    pub there : is_some (lookup key c'.plist) ≡ true
    pub others : (k : Str) → (key == k) ≡ false → known k c' ≡ known k c

  -- What the loop leaves of the state, after its rounds for a list of entries.
  record Releases (l : List (Str × ℕ)) (c c' : Cache) : Type 0 where
    separated : Separated c → Separated c'
    memory : c'.memory ≡ c.memory
    addresses :
        (key' n' : Str)
        → address key' n' c' ≡ (if (key == key') && has_key l n' then none else address key' n' c)
    there : is_some (lookup key c'.plist) ≡ is_some (lookup key c.plist)
    others : (k : Str) → (key == k) ≡ false → known k c' ≡ known k c

  other_known :
      (f : Procedure → Procedure) (o : Option Procedure) (k : Str) (c : Cache)
      → lookup key c.plist ≡ o
      → (key == k) ≡ false
      → known k (updated f o key c) ≡ known k c
  other_known f none k c e h = refl
  other_known f (some p) k c e h = ground (arith, known-updated f (some p) key k c e)

  put_back_rest :
      (r : Option ℕ) (n : Str) (c : Cache)
      → ((put_back r key n c).memory ≡ c.memory)
        × (is_some (lookup key (put_back r key n c).plist) ≡ is_some (lookup key c.plist))
        × ((k : Str) → (key == k) ≡ false → known k (put_back r key n c) ≡ known k c)
  put_back_rest none n c = (refl, refl, λ k h. refl)
  put_back_rest (some a) n c =
      let f : Procedure → Procedure = λ p. record p { arguments = delete n p.arguments } in
      let c1 = record c { free = a ∷ c.free } in
      (
        (updated_rest f (lookup key c.plist) key c1).2,
        updated_there f (lookup key c.plist) key c1 refl,
        λ k h. other_known f (lookup key c.plist) k c1 refl h,
      )

  put_back-Releases :
      (n : Str) (a : ℕ) (c : Cache) → Releases ((n, a) ∷ []) c (put_back (address key n c) key n c)
  put_back-Releases n a c = record {
    separated = put_back-Separated_at (address key n c) key n c refl;
    memory = (put_back_rest (address key n c) n c).0;
    addresses = λ k m. ground (arith, put_back-address key n k m c);
    there = (put_back_rest (address key n c) n c).1;
    others = λ k h. (put_back_rest (address key n c) n c).2 k h;
  }

  release-Releases : (l : List (Str × ℕ)) (c : Cache) → Releases l c (release l key c)
  unfolding release
  release-Releases [] c = record {
    separated = λ s. s;
    memory = refl;
    addresses = λ k n. ground arith;
    there = refl;
    others = λ k h. refl;
  }
  release-Releases ((n, a) ∷ l) c =
      let c1 = put_back (address key n c) key n c in
      let h = put_back-Releases n a c in
      let r = release-Releases l c1 in
      record {
        separated = λ s. r.separated (h.separated s);
        memory = r.memory ∙ h.memory;
        addresses = λ k m. ground (arith, r.addresses k m, h.addresses k m);
        there = r.there ∙ h.there;
        others = λ k e. r.others k e ∙ h.others k e;
      }

  -- An argument that the procedure has is among its entries.
  has_key_lem : (n : Str) (m : Map Str ℕ) → has_key m n ≡ false → lookup n m ≡ none
  unfolding lookup
  has_key_lem n [] h = refl
  has_key_lem n ((k, a) ∷ m) h = ground (arith, has_key_lem n m)

  emptied_at :
      (o : Option Procedure) (c : Cache) → lookup key c.plist ≡ o → Empties c (emptied o key c)
  emptied_at none c h =
      let addresses : (k n : Str)
          → address k n (emptied none key c) ≡ (if key == k then none else address k n c) =
        λ k n. ground (
          arith,
          lookup-insert key k new_procedure c.plist,
          lookup-new_procedure n,
          str_eq_iff key k,
        ) in
      record {
        separated =
            same-IsSeparate (λ k n. address k n c) (λ k n. address k n (emptied none key c)) c.free
              c.next (λ k n. ground (arith, addresses k n, str_eq_iff key k));
        memory = refl;
        addresses = addresses;
        there = ground (arith, lookup-insert key key new_procedure c.plist, str_eq_iff key key);
        others = λ k e. ground (arith, lookup-insert key k new_procedure c.plist);
      }
  emptied_at (some p) c h =
      let r = release-Releases p.arguments c in
      record {
        separated = r.separated;
        memory = r.memory;
        addresses =
            λ k n. ground (arith, r.addresses k n, has_key_lem n p.arguments, str_eq_iff key k);
        there = ground (arith, r.there);
        others = r.others;
      }

  pub emptied-Empties : (c : Cache) → Empties c (emptied (lookup key c.plist) key c)
  emptied-Empties c = emptied_at (lookup key c.plist) c refl
