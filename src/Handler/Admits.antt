-- ===== src/Handler/Admits.antt =====
-- server.go: which requests the handler of newOwa runs, and for whom.
use iplsgo.Prelude.{
  ℕ, suc, drop, length, ◌≡◌, ◌≢◌, sym, refl, Bool, true, Option, none, some, [], ◌∷◌, arith, Str,
  bytes, ℤ, ◌==◌, str_Eq, inl, inr, Bool-cases,
}
use mathlib.Core.Path.{subst}
use iplsgo.Task.{Request}
use iplsgo.Http.{HttpRequest, get}
use iplsgo.Users.{Users, get_connection_params}
use iplsgo.Users.Access.{IsGranted, get_connection_params_iff}
use iplsgo.Config.{OwaConf}
use iplsgo.Handler.{make_handler_id}
use iplsgo.Handler.Owa.{
  Outside, Next, request, with_connection, for_user, remote_of, authenticated, parsed, owa, clean,
}

module _ (up : Str → Str) (global : Str) (users : Users) (o : Outside) (c : OwaConf) where
  -- The request `q` runs for the parsed request `r`: of a user who is granted the connection, and who
  -- has authenticated if the handler wants it; in the session of that user and the client.
  pub record Admitted (r : HttpRequest) (q : Request) : Type 0 where
    pub is_special : Bool
    pub connected : q.work.req_conn_str ≢ []
    pub granted :
        IsGranted up global q.work.req_user_name c.grps users is_special q.work.req_conn_str
    pub authenticated :
        c.request_user_info ≡ true
        → r.basic_auth ≡ some (q.work.req_user_name, q.work.req_user_pass)
    pub session :
        q.work.session_id
        ≡ make_handler_id up o.session_uuid is_special q.work.req_user_name q.work.req_user_pass
            (get (bytes "DebugIP") r.header)
            r

  -- The request `q` is one of the user.
  record ForUser (user pass : Str) (r : HttpRequest) (q : Request) : Type 0 where
    is_special : Bool
    user_name : q.work.req_user_name ≡ user
    user_pass : q.work.req_user_pass ≡ pass
    connected : q.work.req_conn_str ≢ []
    granted : IsGranted up global user c.grps users is_special q.work.req_conn_str
    session :
        q.work.session_id
        ≡ make_handler_id up o.session_uuid is_special user pass (get (bytes "DebugIP") r.header) r

  module _ (proc : Str) (f : Option ℕ) (r : HttpRequest) (remote user pass : Str) where
    request-ForUser :
        (b : Bool) (sid : Str)
        → sid ≢ []
        → get_connection_params up global user c.grps users ≡ (b, sid)
        → ForUser user pass r (request up global users o c proc f r remote user pass b sid)
    unfolding request
    request-ForUser b sid n e = record {
      is_special = b;
      user_name = refl;
      user_pass = refl;
      connected = n;
      granted = (get_connection_params_iff up global user c.grps users b sid n).0 e;
      session = refl;
    }

    with_connection_lem :
        (q : Request) (w i : ℤ) (b : Bool) (sid : Str)
        → get_connection_params up global user c.grps users ≡ (b, sid)
        → with_connection up global users o c proc f r remote user pass (b, sid) ≡ Next.runs q w i
        → ForUser user pass r q
    unfolding with_connection
    with_connection_lem q w i b [] e h = cc
    with_connection_lem q w i b (x ∷ xs) e h =
        subst (ForUser user pass r) (ground arith) (request-ForUser b (x ∷ xs) (λ n. cc) e)

    for_user_lem :
        (q : Request) (w i : ℤ)
        → for_user up global users o c proc f r remote user pass ≡ Next.runs q w i
        → ForUser user pass r q
    unfolding for_user
    for_user_lem q w i h =
        let p = get_connection_params up global user c.grps users in
        with_connection_lem q w i p.0 p.1 refl h

  admitted :
      (user pass : Str) (r : HttpRequest) (q : Request)
      → ForUser user pass r q
      → (c.request_user_info ≡ true → r.basic_auth ≡ some (user, pass))
      → Admitted r q
  admitted user pass r q a k = record {
    is_special = a.is_special;
    connected = a.connected;
    granted =
        subst (λ u. IsGranted up global u c.grps users a.is_special q.work.req_conn_str)
          (sym a.user_name) a.granted;
    authenticated = λ e. ground (arith, k e, a.user_name, a.user_pass);
    session = ground (arith, a.session, a.user_name, a.user_pass);
  }

  authenticated-Admitted :
      (proc : Str) (f : Option ℕ) (r : HttpRequest) (b : Option (Str × Str)) (q : Request) (w i : ℤ)
      → r.basic_auth ≡ b
      → authenticated up global users o c proc f r b ≡ Next.runs q w i
      → Admitted r q
  unfolding authenticated
  authenticated-Admitted proc f r none q w i e h = cc
  authenticated-Admitted proc f r (some (name, pass)) q w i e h =
      admitted name pass r q
        (for_user_lem proc f r (remote_of (some (name, pass))) name pass q w i h) (λ x. e)

  parsed-Admitted :
      (proc : Str) (f : Option ℕ) (r : HttpRequest) (q : Request) (w i : ℤ)
      → parsed up global users o c proc f r ≡ Next.runs q w i
      → Admitted r q
  unfolding parsed
  parsed-Admitted proc f r q w i h = elim (Bool-cases (proc == bytes "!")) [
    | inl listing ↦ absurd (ground arith)
    | inr runs ↦ elim (Bool-cases c.request_user_info) [
      | inl wanted ↦ authenticated-Admitted proc f r r.basic_auth q w i refl (ground arith)
      | inr free ↦
          admitted c.def_user_name c.def_user_pass r q
            (for_user_lem proc f r (remote_of r.basic_auth) c.def_user_name c.def_user_pass q w i
              (ground arith))
            (λ x. cc)
    ]
  ]

  -- The handler runs a request only for a user who is granted a connection, with that connection;
  -- where it asks for authentication, only for the user whom the request authenticates. The session
  -- is the one of that user, the password and the client.
  pub owa-Admitted :
      (r : HttpRequest) (q : Request) (w i : ℤ)
      → owa up global users o c r ≡ some (Next.runs q w i)
      → Admitted (o.parse_form (record r { raw_query = o.fix_query r.raw_query })).0 q
  unfolding owa
  owa-Admitted r q w i h =
      let p = o.parse_form (record r { raw_query = o.fix_query r.raw_query }) in
      parsed-Admitted (clean (drop (suc (length c.path_str)) r.url_path)) p.1 p.0 q w i
        (ground arith)
