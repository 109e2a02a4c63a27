-- ===== src/Users/Updates.antt =====
-- What a new list of users does, and what the comparison with the last one does not do.
use iplsgo.Prelude.{
  ◌≡◌, ◌≢◌, refl, Option, none, some, List, [], ◌∷◌, arith, Str, str_Eq, int_Eq, if◌then◌else◌,
  ◌==◌,
}
use iplsgo.Gostd.Maps.{Map, lookup, insert, lookup-insert}
use iplsgo.Users.{Users, UserInfo, TUser, no_users, list_users, update_users}

module _ (up : Str → Str) where
  -- The last of the parsed users whose name is `key` in upper case.
  abbrev pub latest : Str → List TUser → Option UserInfo
  latest key [] = none
  latest key (t ∷ ts) = elim (latest key ts) [
    | some i ↦ some i
    | none ↦
        if up t.name == key
        then some (record { is_special = t.is_special; grp_id = t.grp_id })
        else none
  ]

  abbrev or_else : Option UserInfo → Option UserInfo → Option UserInfo
  or_else none d = d
  or_else (some i) d = some i

  lookup-list_users :
      (key : Str) (ts : List TUser) (m : Map Str UserInfo)
      → lookup key (list_users up ts m) ≡ or_else (latest key ts) (lookup key m)
  unfolding list_users
  lookup-list_users key [] m = refl
  lookup-list_users key (t ∷ ts) m = ground (
    arith,
    lookup-list_users key ts
        (insert (up t.name) (record { is_special = t.is_special; grp_id = t.grp_id }) m),
    lookup-insert (up t.name) key (record { is_special = t.is_special; grp_id = t.grp_id }) m,
  )

  module _ (unmarshal : Str → List TUser) where
    -- The list after some updates from the start.
    abbrev pub updates : List Str → Users → Users
    updates [] u = u
    updates (x ∷ xs) u = updates xs (update_users up unmarshal x u)

    prev-updates : (xs : List Str) (u : Users) → u.prev ≡ [] → (updates xs u).prev ≡ []
    prev-updates [] u h = h
    prev-updates (x ∷ xs) u h =
        prev-updates xs (update_users up unmarshal x u) (unfold update_users in ground arith)

    applied :
        (users key : Str) (u : Users)
        → u.prev ≡ []
        → users ≢ []
        → lookup key (update_users up unmarshal users u).ulist ≡ latest key (unmarshal users)
    unfolding update_users lookup
    applied users key u p n =
        ground (arith, str_Eq.same_iff u.prev users, lookup-list_users key (unmarshal users) [])

    skipped : (u : Users) → u.prev ≡ [] → update_users up unmarshal [] u ≡ u
    unfolding update_users
    skipped u p = ground (arith, str_Eq.same_iff u.prev [])

    -- After any updates, an update that is not empty is in force: a name has the data of the last
    -- parsed user of that name in upper case, and no other name is listed.
    pub lookup-update_users :
        (xs : List Str) (users key : Str)
        → users ≢ []
        → lookup key (update_users up unmarshal users (updates xs no_users)).ulist
          ≡ latest key (unmarshal users)
    lookup-update_users xs users key n =
        applied users key (updates xs no_users) (prev-updates xs no_users refl) n

    -- After any updates, an empty list of users changes nothing: the users that were listed keep
    -- their access.
    pub update_users_empty :
        (xs : List Str) → update_users up unmarshal [] (updates xs no_users) ≡ updates xs no_users
    update_users_empty xs = skipped (updates xs no_users) (prev-updates xs no_users refl)
