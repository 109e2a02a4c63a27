-- ===== src/Handler/Env.antt =====
-- cgienvparams.go: the CGI environment of a request.
use iplsgo.Prelude.{ℕ, Option, none, some, List, [], ◌∷◌, ◌++◌, Str, bytes, if◌then◌else◌}
use iplsgo.Gostd.{split, index_byte, take}
use iplsgo.Gostd.Maps.{Map}
use iplsgo.Http.{HttpRequest, get}

abbrev before : Option ℕ → Str → Str
before none s = s
before (some i) s = take i s

abbrev host_of : List Str → Str
host_of [] = []
host_of (h ∷ rest) = h

abbrev port_of : List Str → Str
port_of [] = []
port_of (h ∷ []) = []
port_of (h ∷ p ∷ rest) = p

-- makeEnvParams
unfoldable pub make_env_params : HttpRequest → Str → Str → Str → Map Str Str
unfolding split index_byte take get
make_env_params r doc_tab remote_user mirror_path =
    let https = if r.tls then bytes "Y" else bytes "N" in
    let port_sequre = if r.tls then bytes "1" else bytes "0" in
    let plain = before (index_byte r.proto b'/') r.proto in
    let protocol = if r.tls then plain ++ bytes "S" else plain in
    let host = host_of (split r.host (bytes ":")) in
    let port = port_of (split r.host (bytes ":")) in
    (bytes "APEX_LISTENER_VERSION", bytes "2")
    ∷ (bytes "SERVER_SOFTWARE", bytes "iPLSQL")
    ∷ (bytes "SERVER_NAME", host)
    ∷ (bytes "GATEWAY_INTERFACE", bytes "CGI/1.1")
    ∷ (bytes "REMOTE_HOST", r.remote_addr)
    ∷ (bytes "REMOTE_ADDR", r.remote_addr)
    ∷ (bytes "AUTH_TYPE", get (bytes "Authorization") r.header)
    ∷ (bytes "REMOTE_USER", remote_user)
    ∷ (bytes "REMOTE_IDENT", remote_user)
    ∷ (bytes "HTTP_ACCEPT", get (bytes "Accept") r.header)
    ∷ (bytes "HTTP_USER_AGENT", get (bytes "User-Agent") r.header)
    ∷ (bytes "SERVER_PROTOCOL", protocol)
    ∷ (bytes "SERVER_PORT", port)
    ∷ (bytes "SCRIPT_NAME", [])
    ∷ (bytes "PATH_INFO", r.url_path)
    ∷ (bytes "PATH_TRANSLATED", [])
    ∷ (bytes "HTTP_REFERER", get (bytes "Referer") r.header)
    ∷ (bytes "HTTP_COOKIE", get (bytes "Cookie") r.header)
    ∷ (bytes "HTTP_ACCEPT_ENCODING", get (bytes "Accept-Encoding") r.header)
    ∷ (bytes "HTTP_ACCEPT_CHARSET", get (bytes "Accept-Charset") r.header)
    ∷ (bytes "HTTP_ACCEPT_LANGUAGE", get (bytes "Accept-Language") r.header)
    ∷ (bytes "HTTP_HOST", host)
    ∷ (bytes "PLSQL_GATEWAY", bytes "WebDb")
    ∷ (bytes "GATEWAY_IVERSION", bytes "3")
    ∷ (bytes "DOCUMENT_TABLE", doc_tab)
    ∷ (bytes "QUERY_STRING", r.raw_query)
    ∷ (bytes "HTTPS", https)
    ∷ (bytes "SERVER_PORT_SECURE", port_sequre)
    ∷ (bytes "HTTPS_SESSIONID", get (bytes "HTTPS_SESSIONID") r.header)
    ∷ (bytes "HTTPS_KEYSIZE", get (bytes "HTTPS_KEYSIZE") r.header)
    ∷ (bytes "HTTPS_SERVER_ISSUER", get (bytes "HTTPS_SERVER_ISSUER") r.header)
    ∷ (bytes "HTTPS_SERVER_SUBJECT", get (bytes "HTTPS_SERVER_SUBJECT") r.header)
    ∷ (bytes "cookie", get (bytes "Cookie") r.header)
    ∷ (bytes "user-agent", get (bytes "User-Agent") r.header)
    ∷ (bytes "referer", get (bytes "Referer") r.header)
    ∷ (bytes "accept", get (bytes "Accept") r.header)
    ∷ (bytes "accept-encoding", get (bytes "Accept-Encoding") r.header)
    ∷ (bytes "accept-language", get (bytes "Accept-Language") r.header)
    ∷ (bytes "pragma", get (bytes "pragma") r.header)
    ∷ (bytes "REQUEST_CHARSET", bytes "AL32UTF8")
    ∷ (bytes "REQUEST_IANA_CHARSET", bytes "UTF-8")
    ∷ (bytes "REQUEST_METHOD", r.method)
    ∷ (bytes "REQUEST_PROTOCOL", protocol)
    ∷ (bytes "REQUEST_SCHEME", protocol)
    ∷ (bytes "AUTHORIZATION", get (bytes "Authorization") r.header)
    ∷ (bytes "MIRROR_PATH", mirror_path)
    ∷ []
