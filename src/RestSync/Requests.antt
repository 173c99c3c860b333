-- ===== src/RestSync/Requests.antt =====
-- bitmex_mm/REST_Sync.hpp: the three request objects, and what a sending writes into them.
use bitmex_market_maker.Base.{[]}
use bitmex_market_maker.Text.{Bytes, bytes, to_string}
use bitmex_market_maker.Auth.{Keys}
use bitmex_market_maker.RestSync.{Request}
use bitmex_market_maker.Http.{
  Fields, HttpRequest, get, post, put, host, user_agent, accept, content_type, connection, api_key,
  content_length, api_expires, api_signature, set, insert, new_request,
}

-- `const char* host`
abbrev pub host_name : Bytes
host_name = bytes "www.bitmex.com"

-- `beast_version` is BOOST_BEAST_VERSION_STRING.
module _ {f : Fields} (beast_version : Bytes) (keys : Keys) where
  unfoldable pub init_post_req : HttpRequest f
  init_post_req =
      let r = new_request post (bytes "/api/v1/order") in
      let r = set host host_name r in
      let r = set user_agent beast_version r in
      let r = set accept (bytes "*/*") r in
      let r = set content_type (bytes "application/json") r in
      let r = set connection (bytes "Keep-Alive") r in
      let r = set api_key keys.api_key r in
      let r = insert content_length [] r in
      let r = insert api_expires [] r in insert api_signature [] r

  unfoldable pub init_put_req : HttpRequest f
  init_put_req =
      let r = new_request put (bytes "/api/v1/order") in
      let r = set host host_name r in
      let r = set user_agent beast_version r in
      let r = set accept (bytes "*/*") r in
      let r = set content_type (bytes "application/json") r in
      let r = set connection (bytes "Keep-Alive") r in
      let r = set api_key keys.api_key r in
      let r = set content_length [] r in
      let r = insert api_expires [] r in insert api_signature [] r

module _ {f : Fields} (beast_version : Bytes) where
  unfoldable pub init_ping_req : HttpRequest f
  init_ping_req =
      let r = new_request get (bytes "/api/v1/announcement") in
      let r = set host host_name r in
      let r = set user_agent beast_version r in
      let r = set accept (bytes "*/*") r in set connection (bytes "Keep-Alive") r

-- What a sending writes into `post_req` or `put_req`.
unfoldable pub prepare : {f : Fields} → Request → HttpRequest f → HttpRequest f
prepare q r =
    let r = set api_expires q.api_expires r in
    let r = set api_signature q.api_signature r in
    let r = set content_length (to_string q.content_length) r in record r { body = q.body }
