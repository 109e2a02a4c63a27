-- ===== src/Users/Tests.antt =====
-- Users and their connections at concrete inputs.
use iplsgo.Prelude.{◌≡◌, ◌↔◌, true, false, List, [], ◌∷◌, Str, bytes, pos, str_Eq}
use iplsgo.Gostd.Maps.{lookup}
use iplsgo.Users.{Users, TUser, no_users, get_connection_params, update_users}
use iplsgo.Users.Access.{IsGranted, get_connection_params_iff}
use iplsgo.Users.Updates.{latest, updates, lookup-update_users, update_users_empty}

abbrev same : Str → Str
same s = s

abbrev listed : Users
listed = record {
  ulist = (bytes "ANNA", record { is_special = true; grp_id = pos 1 }) ∷ [];
  prev = [];
}

get_connection_params_iff_example :
    (get_connection_params same [] (bytes "ANNA") ((pos 1, bytes "db") ∷ []) listed
      ≡ (true, bytes "db"))
    ↔ IsGranted same [] (bytes "ANNA") ((pos 1, bytes "db") ∷ []) listed true (bytes "db")
get_connection_params_iff_example =
    get_connection_params_iff same [] (bytes "ANNA") ((pos 1, bytes "db") ∷ []) listed true
      (bytes "db") (λ e. cc)

abbrev parse : Str → List TUser
parse s = record { name = s; is_special = false; grp_id = pos 1 } ∷ []

lookup-update_users_example :
    lookup
      (bytes "B")
      (update_users same parse (bytes "B") (updates same parse (bytes "A" ∷ []) no_users)).ulist
    ≡ latest same (bytes "B") (parse (bytes "B"))
lookup-update_users_example =
    lookup-update_users same parse (bytes "A" ∷ []) (bytes "B") (bytes "B") (λ e. cc)

update_users_empty_example :
    update_users same parse [] (updates same parse (bytes "A" ∷ []) no_users)
    ≡ updates same parse (bytes "A" ∷ []) no_users
update_users_empty_example = update_users_empty same parse (bytes "A" ∷ [])
