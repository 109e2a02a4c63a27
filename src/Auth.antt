-- ===== src/Auth.antt =====
-- auth.go: the authenticating wrapper of a handler. NTLM (auth/ntlm) and base64 are a parameter:
-- what the methods of its context answer, and the context after them.
pub mod Passed
mod Tests
use iplsgo.Prelude.{
  ℕ, zero, suc, Bool, true, false, not, ◌||◌, Option, none, some, List, [], ◌∷◌, ◌++◌, Str, bytes,
  ℤ, is_empty, ◌==◌, str_Eq, int_Eq, if◌then◌else◌, drop,
}
use iplsgo.Gostd.{split, index_byte, take}
use iplsgo.Gostd.Maps.{Map}
use iplsgo.Http.{
  Header, HttpRequest, Response, fresh, add, get, write_header, write, set_header, error,
}
use iplsgo.Users.{Users, get_connection_params}

-- An answer or the text of an error.
pub data Answer {ℓ} (A : Type ℓ) : Type ℓ where
  ok : A → Answer A
  err : Str → Answer A

-- `AuthContext`, over its state. `decode` is base64's DecodeString, the error of which is not used.
pub record Ntlm : Type 1 where
  pub Context : Type 0
  pub authenticated : Str → Context → Answer (Str × Bool)
  pub exists : Str → Context → Answer Bool
  pub new_context : Str → Str → Context → Context × Answer Str
  pub authenticate : Str → Str → Context → Context × Answer Str
  pub decode : Str → Str

-- What the server's settings give the wrapper.
pub record AuthConf : Type 0 where
  pub auth_realm : Str
  pub def_user_name : Str
  pub def_user_pass : Str
  pub auth_ntlm_db_user_name : Str
  pub auth_ntlm_db_user_pass : Str
  pub grps : Map ℤ Str

-- The request was answered, or given to the next handler with the response's headers so far.
pub data Outcome : Type 0 where
  answered : Response → Outcome
  passed : HttpRequest → Response → Outcome

abbrev pub format_bool : Bool → Str
format_bool true = bytes "true"
format_bool false = bytes "false"

pub add_to : Str → Str → HttpRequest → HttpRequest
add_to key v r = record r { header = add key v r.header }

-- The three headers that carry who logs in.
pub login : Str → Str → Str → HttpRequest → HttpRequest
unfolding add_to
login user db_user db_pass r =
    add_to (bytes "X-LoginPassword") db_pass
      (add_to (bytes "X-LoginUserName") db_user (add_to (bytes "X-AuthUserName") user r))

-- The two that carry the connection.
pub connection : Bool → Str → HttpRequest → HttpRequest
unfolding add_to
connection is_special conn_str r =
    add_to (bytes "X-LoginMany") (format_bool is_special)
      (add_to (bytes "X-LoginConnectionString") conn_str r)

unauthorized : Response → Outcome
unfolding write write_header
unauthorized w = answered (write (bytes "Unauthorized") (write_header 401 w))

realm : Str → AuthConf → HttpRequest → Str
realm scheme c r = scheme ++ (bytes " realm=\"" ++ (r.host ++ (c.auth_realm ++ bytes "\"")))

-- initiateNTLM
initiate_ntlm : Response → Outcome
unfolding error set_header
initiate_ntlm w = answered (
    error (bytes "Authorization required") 401
      (set_header (bytes "WWW-Authenticate") (bytes "NTLM") w))

-- strings.SplitN(auth, " ", 2), where it has two parts
unfoldable pub two_parts : Str → Option (Str × Str)
unfolding index_byte take
two_parts auth = elim (index_byte auth 32) [
  | none ↦ none
  | some i ↦ some (take i auth, drop (suc i) auth)
]

second_or : Str → List Str → Str
second_or name (a ∷ b ∷ rest) = b
second_or name _ = name

-- The user's name behind a domain.
unfoldable pub without_domain : Str → Str
unfolding second_or split
without_domain user = second_or user (split user (bytes "\\"))

module _ (to_upper : Str → Str) (connection_string : Str) (users : Users) (c : AuthConf) where
  params : Str → Bool × Str
  params user = get_connection_params to_upper connection_string user c.grps users

  pass_default : HttpRequest → Outcome
  unfolding login connection unauthorized params
  pass_default r =
      let r' = login c.def_user_name c.def_user_name c.def_user_pass r in
      let (is_special, conn_str) = params c.def_user_name in
      if is_empty conn_str
      then unauthorized fresh
      else passed (connection is_special conn_str r') fresh

  pass_basic : HttpRequest → Option (Str × Str) → Outcome
  unfolding login connection unauthorized params realm
  pass_basic r none =
      unauthorized (set_header (bytes "WWW-Authenticate") (realm (bytes "Basic") c r) fresh)
  pass_basic r (some (user, pass)) =
      let r' = login user user pass r in
      let (is_special, conn_str) = params user in
      if is_empty conn_str
      then unauthorized (set_header (bytes "WWW-Authenticate") (realm (bytes "Basic") c r) fresh)
      else passed (connection is_special conn_str r') (
          set_header (bytes "Persistent-Auth") (bytes "true")
            (set_header (bytes "Connection") (bytes "keep-alive") fresh))

  -- The part of the NTLM case behind the name of the user.
  pass_ntlm : HttpRequest → Str → Outcome
  unfolding login connection unauthorized params realm without_domain
  pass_ntlm r user_name =
      let user = without_domain user_name in
      let r' = login user c.auth_ntlm_db_user_name c.auth_ntlm_db_user_pass r in
      let (is_special, conn_str) = params user in
      if is_empty conn_str
      then unauthorized (set_header (bytes "WWW-Authenticate") (realm (bytes "NTLM") c r) fresh)
      else passed (connection is_special conn_str r') fresh

  ntlm_error : Str → Outcome
  ntlm_error e = answered (error (bytes "NTLM error: " ++ e) 500 fresh)

  module _ (n : Ntlm) where
    open n use {Context, authenticated, exists, new_context, authenticate, decode}

    -- The last leg: the client's answer to the challenge.
    finish_ntlm : HttpRequest → Context × Answer Str → Outcome
    unfolding pass_ntlm initiate_ntlm
    finish_ntlm r (x, err e) = answered (error e 401 fresh)
    finish_ntlm r (x, ok user) = if is_empty user then initiate_ntlm fresh else pass_ntlm r user

    challenge_ntlm : HttpRequest → Str → Context × Answer Str → Outcome
    unfolding finish_ntlm ntlm_error
    challenge_ntlm r payload (x, err e) = ntlm_error e
    challenge_ntlm r payload (x, ok challenge) =
        if is_empty challenge
        then finish_ntlm r (authenticate r.remote_addr payload x)
        else answered (
            error (bytes "Respond to challenge") 401
              (set_header (bytes "WWW-Authenticate") (bytes "NTLM " ++ challenge) fresh))

    known_ntlm : HttpRequest → Str → Context → Answer Bool → Outcome
    unfolding challenge_ntlm
    known_ntlm r payload x (err e) = ntlm_error e
    known_ntlm r payload x (ok true) = finish_ntlm r (authenticate r.remote_addr payload x)
    known_ntlm r payload x (ok false) =
        challenge_ntlm r payload (new_context r.remote_addr payload x)

    negotiate_ntlm : HttpRequest → Context → Option (Str × Str) → Outcome
    unfolding known_ntlm
    negotiate_ntlm r x none = initiate_ntlm fresh
    negotiate_ntlm r x (some (scheme, rest)) =
        if scheme == bytes "NTLM"
        then known_ntlm r (decode rest) x (exists r.remote_addr x)
        else initiate_ntlm fresh

    start_ntlm : HttpRequest → Context → Answer (Str × Bool) → Outcome
    unfolding negotiate_ntlm
    start_ntlm r x (err e) = ntlm_error e
    start_ntlm r x (ok (user, true)) = pass_ntlm r user
    start_ntlm r x (ok (user, false)) =
        negotiate_ntlm r x (two_parts (get (bytes "Authorization") r.header))

    -- Authenticator; another `auth_type` does nothing, so the response stays empty.
    unfoldable pub authenticator : ℕ → HttpRequest → Context → Outcome
    unfolding pass_default pass_basic start_ntlm
    authenticator zero r x = pass_default r
    authenticator (suc zero) r x = pass_basic r r.basic_auth
    authenticator (suc (suc zero)) r x = start_ntlm r x (authenticated r.remote_addr x)
    authenticator (suc (suc (suc n))) r x = answered fresh
