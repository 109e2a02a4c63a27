-- ===== src/Handler.antt =====
-- commonUtils.go: the session and the task that a request belongs to, and the form that repeats it.
-- uuid.New() is an argument where it is used.
pub mod Env
pub mod Owa
pub mod Reply
pub mod Ids
pub mod Admits
pub mod Statuses
mod Tests
use iplsgo.Prelude.{
  ℕ, Bool, true, false, Option, none, some, List, [], ◌∷◌, ◌++◌, Str, bytes, is_empty, ◌==◌, str_Eq,
  if◌then◌else◌,
}
use iplsgo.Gostd.{split_host_port, replace_all}
use iplsgo.Gostd.Maps.{Map}
use iplsgo.Http.{HttpRequest, get, form_value}
use iplsgo.Text.{extract_file_name}

abbrev first_full : Str → Str → Str
first_full [] s = s
first_full (c ∷ cs) s = c ∷ cs

-- The address of a user who may hold several sessions.
pub client_addr : Bool → HttpRequest → Str
client_addr is_special r =
    if is_special
    then first_full (get (bytes "X-Real-IP") r.header)
        (first_full (get (bytes "X-Forwarded-For") r.header) r.remote_addr)
    else []

-- The host of net.SplitHostPort, "" for an error
abbrev pub host_or_empty : Option Str → Str
host_or_empty none = []
host_or_empty (some host) = host

-- makeHandlerID
unfoldable pub make_handler_id : (Str → Str) → Str → Bool → Str → Str → Str → HttpRequest → Str
unfolding client_addr split_host_port
make_handler_id to_upper uuid is_special user_name user_pass debug_ip r =
    let host =
      if debug_ip == bytes "uuid"
      then uuid
      else host_or_empty (split_host_port (client_addr is_special r)) in
    let debug =
      if is_special then first_full debug_ip (get (bytes "X-Request-Id") r.header) else debug_ip in
    to_upper
      (user_name ++ (bytes "|" ++ (user_pass ++ (bytes "|" ++ (host ++ (bytes "|" ++ debug))))))

-- makeTaskID
unfoldable pub make_task_id : Str → HttpRequest → Str
unfolding form_value
make_task_id uuid r = first_full (form_value (bytes "MessageId") r) uuid

-- <input type="hidden" name="…" value="…">
pub hidden : Str → Str → Str
hidden key value =
    bytes "<input type=\"hidden\" name=\""
    ++ (key ++ (bytes "\" value=\"" ++ (value ++ bytes "\">\n")))

abbrev hidden_values : (Str → Str) → Str → List Str → Str
unfolding hidden
hidden_values text key [] = []
hidden_values text key (v ∷ vs) = hidden key (text v) ++ hidden_values text key vs

hidden_all : (Str → Str) → Map Str (List Str) → Str
unfolding hidden_values
hidden_all text [] = []
hidden_all text ((key, vs) ∷ m) = hidden_values text key vs ++ hidden_all text m

hidden_files : Option (Map Str (List Str)) → Str
unfolding hidden_all
hidden_files none = []
hidden_files (some files) = hidden_all extract_file_name files

-- makeWaitForm
unfoldable pub make_wait_form : HttpRequest → Str → Str
unfolding hidden_all hidden_files form_value
make_wait_form r task_id =
    let target =
      if is_empty r.raw_query then r.url_path else r.url_path ++ (bytes "?" ++ r.raw_query) in
    bytes "<form id=\"__gmrf__\" action=\""
    ++ (target
        ++ (bytes "\" method=\"post\" >\n"
            ++ (hidden_all (λ v. replace_all v (bytes "\"") (bytes "&quot;")) r.post_form
                ++ (hidden_files r.files
                    ++ ((if is_empty (form_value (bytes "MessageId") r)
                          then hidden (bytes "MessageId") task_id
                          else [])
                        ++ bytes "</form>")))))
