-- ===== src/Handler/Ids.antt =====
-- commonUtils.go: when two requests have the same session.
use iplsgo.Prelude.{◌≡◌, ◌≢◌, true, false, [], arith, Str, bytes, ◌==◌, str_Eq}
use iplsgo.Gostd.{contains_byte}
use iplsgo.Gostd.Laws.{split_host_port-no_port}
use iplsgo.Http.{HttpRequest}
use iplsgo.Handler.{make_handler_id, client_addr}

module _ (up : Str → Str) (uuid uuid' user pass debug : Str) where
  -- Where a user may not hold several sessions, requests from any client have the same session, if
  -- the debug header is the same and does not ask for a session of its own.
  pub make_handler_id-shared :
      (r r' : HttpRequest)
      → (debug == bytes "uuid") ≡ false
      → make_handler_id up uuid false user pass debug r
        ≡ make_handler_id up uuid' false user pass debug r'
  unfolding make_handler_id client_addr
  make_handler_id-shared r r' h = ground arith

  -- Where a user may hold several sessions, the requests of two clients whose addresses a proxy gives
  -- with no port have the same session, whatever the addresses are, when both come with the same
  -- debug header, which is not empty and does not ask for a session of its own.
  pub make_handler_id-bare_address :
      (r r' : HttpRequest)
      → debug ≢ []
      → (debug == bytes "uuid") ≡ false
      → contains_byte (client_addr true r) b':' ≡ false
      → contains_byte (client_addr true r') b':' ≡ false
      → make_handler_id up uuid true user pass debug r
        ≡ make_handler_id up uuid' true user pass debug r'
  unfolding make_handler_id
  make_handler_id-bare_address r r' n h p q = ground (
    arith,
    split_host_port-no_port (client_addr true r) p,
    split_host_port-no_port (client_addr true r') q,
  )
