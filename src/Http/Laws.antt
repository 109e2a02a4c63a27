-- ===== src/Http/Laws.antt =====
-- Laws of header maps: Add keeps the values that are there, so the first of them stays in front.
use iplsgo.Prelude.{
  ◌≡◌, inl, inr, Bool-cases, str_eq, str_eq_iff, List, [], ◌∷◌, ◌++◌, some, arith, Str, str_Eq,
}
use iplsgo.Gostd.Maps.{lookup, lookup-insert}
use iplsgo.Http.{Header, canonical, add, get, values}

-- `v` is the first value of the canonical key `k`.
abbrev pub IsFront : Str → Str → Header → Type 0
IsFront k v h = (vs : List Str) × (lookup k h ≡ some (v ∷ vs))

-- Nothing that is added comes in front of it.
pub add-IsFront : (key w k v : Str) (h : Header) → IsFront k v h → IsFront k v (add key w h)
unfolding add
add-IsFront key w k v h (vs, e) = elim (Bool-cases (str_eq (canonical key) k)) [
  | inl same ↦ (
    vs ++ w ∷ [],
    ground (
      arith,
      lookup-insert (canonical key) k (values (lookup (canonical key) h) ++ w ∷ []) h,
      str_eq_iff (canonical key) k,
    ),
  )
  | inr other ↦ (
    vs,
    ground (arith, lookup-insert (canonical key) k (values (lookup (canonical key) h) ++ w ∷ []) h),
  )
]

pub get-front : (key v : Str) (h : Header) → IsFront (canonical key) v h → get key h ≡ v
unfolding get
get-front key v h (vs, e) = ground arith
