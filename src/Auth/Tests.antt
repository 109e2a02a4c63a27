-- ===== src/Auth/Tests.antt =====
-- The wrapper on a request with basic authentication.
use iplsgo.Prelude.{ℕ, ◌≡◌, refl, true, false, none, some, [], ◌∷◌, Str, bytes, pos, str_eq}
use iplsgo.Gostd.Maps.{lookup, insert}
use iplsgo.Http.{HttpRequest, Response, canonical, get}
use iplsgo.Users.{Users, get_connection_params}
use iplsgo.Auth.{ok, Ntlm, AuthConf, Outcome, passed, answered, authenticator}
use iplsgo.Auth.Passed.{IsAdmitted, authenticator-IsAdmitted, forged_login_name}

abbrev same : Str → Str
same s = s

abbrev ntlm : Ntlm
ntlm = record {
  Context = ℕ;
  authenticated = λ addr x. ok ([], false);
  exists = λ addr x. ok false;
  new_context = λ addr p x. (x, ok []);
  authenticate = λ addr p x. (x, ok []);
  decode = λ s. s;
}

abbrev listed : Users
listed = record {
  ulist = (bytes "ANNA", record { is_special = true; grp_id = pos 1 }) ∷ [];
  prev = [];
}

abbrev conf : AuthConf
conf = record {
  auth_realm = bytes "realm";
  def_user_name = [];
  def_user_pass = [];
  auth_ntlm_db_user_name = [];
  auth_ntlm_db_user_pass = [];
  grps = (pos 1, bytes "db") ∷ [];
}

-- The client sends a login name of its own.
abbrev request : HttpRequest
request = record {
  method = bytes "GET";
  url_path = bytes "/x";
  raw_query = [];
  proto = bytes "HTTP/1.1";
  tls = false;
  host = bytes "localhost";
  remote_addr = bytes "10.0.0.1:4000";
  header = (bytes "X-Loginusername", bytes "BORIS" ∷ []) ∷ [];
  basic_auth = some (bytes "ANNA", bytes "secret");
  form = [];
  post_form = [];
  files = none;
}

abbrev given : Outcome → HttpRequest × Response
given (answered w) = (request, w)
given (passed r w) = (r, w)

handed : HttpRequest × Response
unfolding authenticator get_connection_params lookup insert str_eq
handed = given (authenticator same [] listed conf ntlm 1 request 0)

authenticator-IsAdmitted_example : IsAdmitted same [] listed conf request handed.0
unfolding handed
authenticator-IsAdmitted_example =
    authenticator-IsAdmitted same [] listed conf ntlm 1 request 0 handed.0 handed.1 refl

forged_login_name_example : get (bytes "X-LoginUserName") handed.0.header ≡ bytes "BORIS"
unfolding handed canonical
forged_login_name_example =
    forged_login_name same [] listed conf ntlm 1 request 0 handed.0 handed.1 (bytes "BORIS") [] refl
      refl
