-- ===== src/Rest/Requests.antt =====
-- bitmex_mm/REST.hpp: its three request objects, which are written out there once more.
use bitmex_market_maker.Base.{◌≡◌, refl, []}
use bitmex_market_maker.Text.{Bytes, bytes}
use bitmex_market_maker.Auth.{Keys}
use bitmex_market_maker.RestSync.Requests
use bitmex_market_maker.Http.{
  Fields, HttpRequest, get, post, put, host, user_agent, accept, content_type, connection, api_key,
  content_length, api_expires, api_signature, set, insert, new_request,
}

-- `init_post_req`, `init_put_req` and `init_ping_req`.
module _ {f : Fields} (beast_version : Bytes) (keys : Keys) where
  unfoldable pub init_rest_post_req : HttpRequest f
  init_rest_post_req =
      let r = new_request post (bytes "/api/v1/order") in
      let r = set host Requests.host_name r in
      let r = set user_agent beast_version r in
      let r = set accept (bytes "*/*") r in
      let r = set content_type (bytes "application/json") r in
      let r = set connection (bytes "Keep-Alive") r in
      let r = set api_key keys.api_key r in
      let r = insert content_length [] r in
      let r = insert api_expires [] r in insert api_signature [] r

  unfoldable pub init_rest_put_req : HttpRequest f
  init_rest_put_req =
      let r = new_request put (bytes "/api/v1/order") in
      let r = set host Requests.host_name r in
      let r = set user_agent beast_version r in
      let r = set accept (bytes "*/*") r in
      let r = set content_type (bytes "application/json") r in
      let r = set connection (bytes "Keep-Alive") r in
      let r = set api_key keys.api_key r in
      let r = set content_length [] r in
      let r = insert api_expires [] r in insert api_signature [] r

module _ {f : Fields} (beast_version : Bytes) where
  unfoldable pub init_rest_ping_req : HttpRequest f
  init_rest_ping_req =
      let r = new_request get (bytes "/api/v1/announcement") in
      let r = set host Requests.host_name r in
      let r = set user_agent beast_version r in
      let r = set accept (bytes "*/*") r in set connection (bytes "Keep-Alive") r

-- They are those of REST_Sync.hpp.
requests_same :
    {f : Fields} (beast_version : Bytes) (keys : Keys)
    → (init_rest_post_req {f = f} beast_version keys ≡ Requests.init_post_req beast_version keys)
      × (init_rest_put_req {f = f} beast_version keys ≡ Requests.init_put_req beast_version keys)
      × (init_rest_ping_req {f = f} beast_version ≡ Requests.init_ping_req beast_version)
unfolding init_rest_post_req init_rest_put_req init_rest_ping_req Requests.init_post_req
    Requests.init_put_req Requests.init_ping_req
requests_same beast_version keys = (refl, refl, refl)
