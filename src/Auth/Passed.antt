-- ===== src/Auth/Passed.antt =====
-- Which requests reach the wrapped handler, and with what headers.
use iplsgo.Prelude.{
  ℕ, zero, suc, ◌≡◌, ◌≢◌, refl, Bool, true, false, Option, none, some, List, [], ◌∷◌, arith, Str,
  is_empty, bytes, str_Eq,
}
use iplsgo.Gostd.Maps.{lookup}
use iplsgo.Http.{HttpRequest, Response, canonical, get}
use iplsgo.Http.Laws.{add-IsFront, get-front}
use iplsgo.Users.{Users, get_connection_params}
use iplsgo.Users.Access.{IsGranted, get_connection_params_iff}
use iplsgo.Auth.{
  Answer, ok, err, Ntlm, AuthConf, passed, add_to, login, connection, unauthorized, initiate_ntlm,
  two_parts, without_domain, params, pass_default, pass_basic, pass_ntlm, ntlm_error, finish_ntlm,
  challenge_ntlm, known_ntlm, negotiate_ntlm, start_ntlm, authenticator,
}

module _ (up : Str → Str) (global : Str) (users : Users) (c : AuthConf) where
  -- The handler gets the request `r'` for `r`: of a user who is granted a connection, with the user's
  -- data and the connection added to its headers.
  pub record IsAdmitted (r r' : HttpRequest) : Type 0 where
    pub user : Str
    pub db_user : Str
    pub db_pass : Str
    pub is_special : Bool
    pub sid : Str
    pub connected : sid ≢ []
    pub granted : IsGranted up global user c.grps users is_special sid
    pub headed : r' ≡ connection is_special sid (login user db_user db_pass r)

  admit :
      (user db_user db_pass : Str) (r r' : HttpRequest)
      → is_empty (params up global users c user).1 ≡ false
      → r'
        ≡ connection
            (params up global users c user).0
            (params up global users c user).1
            (login user db_user db_pass r)
      → IsAdmitted r r'
  unfolding params
  admit user db_user db_pass r r' full e =
      let sid = (get_connection_params up global user c.grps users).1 in
      let some_sid : sid ≢ [] = λ h. ground arith in
      record {
        user = user;
        db_user = db_user;
        db_pass = db_pass;
        is_special = (get_connection_params up global user c.grps users).0;
        sid = sid;
        connected = some_sid;
        granted =
            (get_connection_params_iff up global user c.grps users
                (get_connection_params up global user c.grps users).0 sid some_sid).0
              refl;
        headed = e;
      }

  default-IsAdmitted :
      (r r' : HttpRequest) (w : Response)
      → pass_default up global users c r ≡ passed r' w
      → IsAdmitted r r'
  unfolding pass_default unauthorized
  default-IsAdmitted r r' w h =
      admit c.def_user_name c.def_user_name c.def_user_pass r r' (ground arith) (ground arith)

  basic-IsAdmitted :
      (r r' : HttpRequest) (o : Option (Str × Str)) (w : Response)
      → pass_basic up global users c r o ≡ passed r' w
      → IsAdmitted r r'
  unfolding pass_basic unauthorized
  basic-IsAdmitted r r' none w h = cc
  basic-IsAdmitted r r' (some (user, pass)) w h =
      admit user user pass r r' (ground arith) (ground arith)

  ntlm-IsAdmitted :
      (r r' : HttpRequest) (name : Str) (w : Response)
      → pass_ntlm up global users c r name ≡ passed r' w
      → IsAdmitted r r'
  unfolding pass_ntlm unauthorized
  ntlm-IsAdmitted r r' name w h =
      admit (without_domain name) c.auth_ntlm_db_user_name c.auth_ntlm_db_user_pass r r'
        (ground arith) (ground arith)

  module _ (n : Ntlm) where
    open n use {Context, authenticated, exists, new_context, authenticate, decode}

    finish-IsAdmitted :
        (r r' : HttpRequest) (a : Context × Answer Str) (w : Response)
        → finish_ntlm up global users c n r a ≡ passed r' w
        → IsAdmitted r r'
    unfolding finish_ntlm initiate_ntlm
    finish-IsAdmitted r r' (x, err e) w h = cc
    finish-IsAdmitted r r' (x, ok user) w h = ntlm-IsAdmitted r r' user w (ground arith)

    challenge-IsAdmitted :
        (r r' : HttpRequest) (p : Str) (a : Context × Answer Str) (w : Response)
        → challenge_ntlm up global users c n r p a ≡ passed r' w
        → IsAdmitted r r'
    unfolding challenge_ntlm ntlm_error
    challenge-IsAdmitted r r' p (x, err e) w h = cc
    challenge-IsAdmitted r r' p (x, ok challenge) w h =
        finish-IsAdmitted r r' (authenticate r.remote_addr p x) w (ground arith)

    known-IsAdmitted :
        (r r' : HttpRequest) (p : Str) (x : Context) (a : Answer Bool) (w : Response)
        → known_ntlm up global users c n r p x a ≡ passed r' w
        → IsAdmitted r r'
    unfolding known_ntlm ntlm_error
    known-IsAdmitted r r' p x (err e) w h = cc
    known-IsAdmitted r r' p x (ok true) w h =
        finish-IsAdmitted r r' (authenticate r.remote_addr p x) w h
    known-IsAdmitted r r' p x (ok false) w h =
        challenge-IsAdmitted r r' p (new_context r.remote_addr p x) w h

    negotiate-IsAdmitted :
        (r r' : HttpRequest) (x : Context) (a : Option (Str × Str)) (w : Response)
        → negotiate_ntlm up global users c n r x a ≡ passed r' w
        → IsAdmitted r r'
    unfolding negotiate_ntlm initiate_ntlm
    negotiate-IsAdmitted r r' x none w h = cc
    negotiate-IsAdmitted r r' x (some (scheme, rest)) w h =
        known-IsAdmitted r r' (decode rest) x (exists r.remote_addr x) w (ground arith)

    start-IsAdmitted :
        (r r' : HttpRequest) (x : Context) (a : Answer (Str × Bool)) (w : Response)
        → start_ntlm up global users c n r x a ≡ passed r' w
        → IsAdmitted r r'
    unfolding start_ntlm ntlm_error
    start-IsAdmitted r r' x (err e) w h = cc
    start-IsAdmitted r r' x (ok (user, true)) w h = ntlm-IsAdmitted r r' user w h
    start-IsAdmitted r r' x (ok (user, false)) w h =
        negotiate-IsAdmitted r r' x (two_parts (get (bytes "Authorization") r.header)) w h

    -- Under each kind of authentication a request reaches the handler only for a user who is granted
    -- a connection, and with that user's data and connection added to its headers.
    pub authenticator-IsAdmitted :
        (auth_type : ℕ) (r : HttpRequest) (x : Context) (r' : HttpRequest) (w : Response)
        → authenticator up global users c n auth_type r x ≡ passed r' w
        → IsAdmitted r r'
    unfolding authenticator
    authenticator-IsAdmitted zero r x r' w h = default-IsAdmitted r r' w h
    authenticator-IsAdmitted (suc zero) r x r' w h = basic-IsAdmitted r r' r.basic_auth w h
    authenticator-IsAdmitted (suc (suc zero)) r x r' w h =
        start-IsAdmitted r r' x (authenticated r.remote_addr x) w h
    authenticator-IsAdmitted (suc (suc (suc k))) r x r' w h = cc

    -- A login name that the client sent in a header stays in front of the one that the wrapper adds:
    -- the handler that reads the header gets the client's.
    pub forged_login_name :
        (auth_type : ℕ) (r : HttpRequest) (x : Context) (r' : HttpRequest) (w : Response)
        (forged : Str) (rest : List Str)
        → authenticator up global users c n auth_type r x ≡ passed r' w
        → lookup (canonical (bytes "X-LoginUserName")) r.header ≡ some (forged ∷ rest)
        → get (bytes "X-LoginUserName") r'.header ≡ forged
    unfolding connection login add_to
    forged_login_name t r x r' w forged rest h e =
        let a : IsAdmitted r r' = authenticator-IsAdmitted t r x r' w h in
        get-front (bytes "X-LoginUserName") forged r'.header (
          rw a.headed (
            add-IsFront _ _ _ forged _ (
              add-IsFront _ _ _ forged _ (
                add-IsFront _ _ _ forged _
                  (add-IsFront _ _ _ forged _ (add-IsFront _ _ _ forged _ (rest, e)))))))
