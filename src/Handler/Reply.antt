-- ===== src/Handler/Reply.antt =====
-- server.go: how the handler of newOwa answers with the result of `Run`. The reply is which of the
-- calls that answer is made: `responseError`, `responseTemplate`, `http.Redirect`, or a write of the
-- content, with the headers that were set before.
use Prim.Native.Nat.{◌^◌}
use iplsgo.Prelude.{
  ℕ, zero, suc, ◌+◌, ◌*◌, ◌-◌, ◌&&◌, ◌||◌, Option, none, some, List, [], ◌∷◌, ◌++◌, Str, bytes, ℤ,
  pos, negsuc, ltb, leb, ◌==◌, str_Eq, nat_eq, int_Eq, if◌then◌else◌, drop, eqb,
}
use iplsgo.Gostd.{has_prefix}
use iplsgo.Gostd.Maps.{Map, lookup}
use iplsgo.Task.{
  TaskResult, status_error_page, status_wait_page, status_break_page,
  status_request_was_interrupted, status_invalid_username_or_password,
  status_insufficient_privileges, status_account_is_locked,
}
use iplsgo.Http.{Header, HttpRequest, add, set}
use iplsgo.Handler.{make_wait_form}
use iplsgo.Config.{OwaConf}

-- The data of the pages that ask to wait: the user, the form and the duration.
pub record DataInfo : Type 0 where
  pub user_name : Str
  pub gmrf : Str
  pub duration : ℕ

pub data Reply : Type 0 where
  -- the sessions of a path, in the order of a column
  sessions : Str → Str → Reply
  -- responseError: the template and the text
  response_error : Str → Str → Reply
  -- responseTemplate: the name, the template and the data
  response_template : Str → Str → Option DataInfo → Reply
  -- 401 with the value of WWW-Authenticate
  unauthorized : Str → Reply
  redirect : Header → Str → ℤ → Reply
  content : Header → ℤ → Str → Reply

digits : ℕ → Str → Option ℕ
digits n [] = some n
digits n (c ∷ cs) =
    let rest = digits (n * 10 + (c - 48)) cs in if leb 48 c && leb c 57 then rest else none

unsigned : Str → Option ℕ
unfolding digits
unsigned [] = none
unsigned (c ∷ cs) = digits 0 (c ∷ cs)

positive : Option ℕ → Option ℤ
positive none = none
positive (some n) = if ltb n (2 ^ 63) then some (pos n) else none

negative : Option ℕ → Option ℤ
negative none = none
negative (some zero) = some (pos 0)
negative (some (suc n)) = if ltb n (2 ^ 63) then some (negsuc n) else none

-- strconv.Atoi, `none` for an error
unfoldable pub atoi : Str → Option ℤ
unfolding unsigned positive negative
atoi [] = none
atoi (c ∷ cs) =
    if eqb c b'-'
    then negative (unsigned cs)
    else if eqb c b'+'
    then positive (unsigned cs)
    else positive (unsigned (c ∷ cs))

-- The status, the location and the headers while the headers of the result are read.
pub record Reading : Type 0 where
  pub status : ℤ
  pub location : Str
  pub header : Header

abbrev pub or_status : Option ℤ → ℤ → ℤ
or_status none s = s
or_status (some i) s = i

abbrev template : Str → Map Str Str → Str
template name m = elim (lookup name m) [ none ↦ [] | some t ↦ t ]

abbrev page : Str → OwaConf → Option DataInfo → Reply
page name c data_info = Reply.response_template name (template name c.templates) data_info

abbrev wait_info : Str → HttpRequest → Str → TaskResult → DataInfo
wait_info user r task_id res = record {
  user_name = user;
  gmrf = make_wait_form r task_id;
  duration = res.duration;
}

module _ (to_lower : Str → Str) where
  -- The body of the loop over the values of the headers.
  unfoldable pub read_value : Str → Str → Reading → Reading
  unfolding atoi
  read_value name value x =
      if to_lower name == bytes "status"
      then record x { status = or_status (atoi value) x.status }
      else if to_lower name == bytes "location"
      then record x { location = if has_prefix value (bytes "/f?p") then drop 1 value else value }
      else record x { header = add name value x.header }

  unfoldable pub read_values : Str → List Str → Reading → Reading
  unfolding read_value
  read_values name [] x = x
  read_values name (v ∷ vs) x = read_values name vs (read_value name v x)

  unfoldable pub read_headers : Map Str (List Str) → Reading → Reading
  unfolding read_values
  read_headers [] x = x
  read_headers ((name, vs) ∷ m) x = read_headers m (read_values name vs x)

  -- The default case: a redirect, or the content.
  pub content_reply : TaskResult → Reply
  unfolding read_headers
  content_reply res =
      let x =
        read_headers res.headers
          (record { status = pos res.status_code; location = []; header = [] }) in
      if (x.status == pos 301) || (x.status == pos 302)
      then Reply.redirect x.header x.location x.status
      else Reply.content (set (bytes "Content-Type") res.content_type x.header) x.status res.content

  -- The switch on the result of `Run`.
  unfoldable pub reply : OwaConf → Str → Str → HttpRequest → TaskResult → Reply
  unfolding content_reply make_wait_form
  reply c user task_id r res =
      if res.status_code == status_error_page
      then Reply.response_error (template (bytes "error") c.templates) res.content
      else if res.status_code == status_wait_page
      then page (bytes "rwait") c (some (wait_info user r task_id res))
      else if res.status_code == status_break_page
      then page (bytes "rbreak") c (some (wait_info user r task_id res))
      else if res.status_code == status_request_was_interrupted
      then page (bytes "rwi") c none
      else if res.status_code == status_invalid_username_or_password
      then Reply.unauthorized (bytes "Basic realm=\"" ++ (r.host ++ bytes "\""))
      else if res.status_code == status_insufficient_privileges
      then page (bytes "InsufficientPrivileges") c none
      else if res.status_code == status_account_is_locked
      then page (bytes "AccountIsLocked") c none
      else content_reply res

-- The answer to a request that breaks a session: what `Break` returns is the error's text, if any.
pub break_reply : OwaConf → Option Str → Reply
break_reply c none = page (bytes "rbreakr") c none
break_reply c (some text) = Reply.response_error (template (bytes "error") c.templates) text
