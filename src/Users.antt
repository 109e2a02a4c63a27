-- ===== src/Users.antt =====
-- users.go: the list of users that the configuration brings, and the connection that a user gets.
-- Reused `userInfo` objects are overwritten before they are listed and read under the lock, so the
-- list holds values. `json.Unmarshal` is a parameter: the users that it leaves in `t`; its error is
-- only logged.
pub mod Access
pub mod Updates
mod Tests
use iplsgo.Prelude.{
  ℕ, Bool, true, false, Option, none, some, List, [], ◌∷◌, Str, ℤ, negsuc, is_empty, is_some, ◌==◌,
  str_Eq, int_Eq, if◌then◌else◌,
}
use iplsgo.Gostd.Maps.{Map, lookup, insert}

pub record UserInfo : Type 0 where
  pub is_special : Bool
  pub grp_id : ℤ

-- `_tUser`
pub record TUser : Type 0 where
  pub name : Str
  pub is_special : Bool
  pub grp_id : ℤ

pub record Users : Type 0 where
  pub ulist : Map Str UserInfo
  pub prev : Str

-- The package's variables as they start.
abbrev pub no_users : Users
no_users = record { ulist = []; prev = [] }

-- Go's copy(dst, src): as many elements as both have; the length of `dst` does not change.
unfoldable pub copy : Str → Str → Str
copy [] src = []
copy (d ∷ ds) [] = d ∷ ds
copy (d ∷ ds) (s ∷ ss) = s ∷ copy ds ss

-- getConnectionParams: whether the user may hold several sessions, and the connection string
abbrev pub denied : Bool × Str
denied = (false, [])

module _ (to_upper : Str → Str) where
  -- getUserInfo: `grp_id` is -1 where the user is not listed.
  unfoldable pub get_user_info : Str → Users → Bool × ℤ × Bool
  get_user_info name u = elim (lookup (to_upper name) u.ulist) [
    | none ↦ (false, negsuc 0, false)
    | some i ↦ (i.is_special, i.grp_id, true)
  ]

  choose_sid : Str → Bool → Option Str → Bool × Str
  choose_sid global is_special none = denied
  choose_sid global is_special (some sid) = (is_special, if is_empty global then sid else global)

  unfoldable pub get_connection_params : Str → Str → Map ℤ Str → Users → Bool × Str
  unfolding get_user_info choose_sid
  get_connection_params connection_string user grps u =
      let (is_special, grp_id, ok) = get_user_info user u in
      if is_empty user
      then denied
      else if ok
      then choose_sid connection_string is_special (lookup grp_id grps)
      else denied

  -- The loop over the parsed users.
  unfoldable pub list_users : List TUser → Map Str UserInfo → Map Str UserInfo
  list_users [] m = m
  list_users (t ∷ ts) m =
      list_users ts
        (insert (to_upper t.name) (record { is_special = t.is_special; grp_id = t.grp_id }) m)

  -- updateUsers
  unfoldable pub update_users : (Str → List TUser) → Str → Users → Users
  unfolding copy list_users
  update_users unmarshal users u = if u.prev == users then u else record {
    ulist = if is_empty users then [] else list_users (unmarshal users) [];
    prev = copy u.prev users;
  }
