-- ===== src/Users/Access.antt =====
-- Who gets a connection.
use iplsgo.Prelude.{
  Option-cases, ◌↔◌, ◌≡◌, ◌≢◌, inl, inr, Bool, some, [], arith, Str, ℤ, is_empty, str_Eq, int_Eq,
  if◌then◌else◌,
}
use iplsgo.Gostd.Maps.{Map, lookup}
use iplsgo.Users.{Users, UserInfo, get_connection_params}

module _ (up : Str → Str) where
  -- Why a user is let in: the name is not empty and listed, the user's group is among the groups of
  -- the handler, and the connection is the server's own, or if it has none the group's.
  pub record IsGranted (global user : Str) (grps : Map ℤ Str) (u : Users) (is_special : Bool)
      (sid : Str) : Type 0 where
    pub info : UserInfo
    pub group_sid : Str
    pub named : user ≢ []
    pub listed : lookup (up user) u.ulist ≡ some info
    pub grouped : lookup info.grp_id grps ≡ some group_sid
    pub special : is_special ≡ info.is_special
    pub connection : sid ≡ (if is_empty global then group_sid else global)

  module _ (global user : Str) (grps : Map ℤ Str) (u : Users) where
    granted :
        (is_special : Bool) (sid : Str)
        → IsGranted global user grps u is_special sid
        → get_connection_params up global user grps u ≡ (is_special, sid)
    unfolding get_connection_params
    granted b sid g = ground (arith, g.named, g.listed, g.grouped, g.special, g.connection)

    only-IsGranted :
        (is_special : Bool) (sid : Str)
        → sid ≢ []
        → get_connection_params up global user grps u ≡ (is_special, sid)
        → IsGranted global user grps u is_special sid
    unfolding get_connection_params
    only-IsGranted b sid n e = elim (Option-cases (lookup (up user) u.ulist)) [
      | inl missing ↦ absurd (ground arith)
      | inr (info, found) ↦ elim (Option-cases (lookup info.grp_id grps)) [
        | inl missing ↦ absurd (ground arith)
        | inr (group_sid, grouped) ↦ record {
          info = info;
          group_sid = group_sid;
          named = ground arith;
          listed = found;
          grouped = grouped;
          special = ground arith;
          connection = ground arith;
        }
      ]
    ]

    -- A connection string that is not empty is returned exactly when it is granted.
    pub get_connection_params_iff :
        (is_special : Bool) (sid : Str)
        → sid ≢ []
        → (get_connection_params up global user grps u ≡ (is_special, sid))
          ↔ IsGranted global user grps u is_special sid
    get_connection_params_iff b sid n = (only-IsGranted b sid n, granted b sid)
