-- ===== src/RestSync/Wire.antt =====
-- bitmex_mm/REST_Sync.hpp: the orders as they are sent.
use bitmex_market_maker.Base.{refl, List}
use bitmex_market_maker.Text.{Bytes}
use bitmex_market_maker.Auth.{Keys}
use bitmex_market_maker.RestSync.{Request}
use bitmex_market_maker.RestSync.Requests.{init_post_req, init_put_req, prepare}
use bitmex_market_maker.Http.{Fields, IsFields, post, put}
use bitmex_market_maker.Http.Header.{IsOrderRequest, IsSent, prepare_all, prepare_all-IsSent}

module _ {f : Fields} (law : IsFields f) (beast_version : Bytes) (keys : Keys) where
  init_post_req-IsOrderRequest :
      IsOrderRequest beast_version keys post (init_post_req {f = f} beast_version keys)
  unfolding init_post_req
  init_post_req-IsOrderRequest = record {
    version = refl;
    method_lem = refl;
    target = refl;
    host_lem = simp (law.find-set, law.find-insert);
    user_agent_lem = simp (law.find-set, law.find-insert);
    accept_lem = simp (law.find-set, law.find-insert);
    content_type_lem = simp (law.find-set, law.find-insert);
    connection_lem = simp (law.find-set, law.find-insert);
    api_key_lem = simp (law.find-set, law.find-insert);
  }

  init_put_req-IsOrderRequest :
      IsOrderRequest beast_version keys put (init_put_req {f = f} beast_version keys)
  unfolding init_put_req
  init_put_req-IsOrderRequest = record {
    version = refl;
    method_lem = refl;
    target = refl;
    host_lem = simp (law.find-set, law.find-insert);
    user_agent_lem = simp (law.find-set, law.find-insert);
    accept_lem = simp (law.find-set, law.find-insert);
    content_type_lem = simp (law.find-set, law.find-insert);
    connection_lem = simp (law.find-set, law.find-insert);
    api_key_lem = simp (law.find-set, law.find-insert);
  }

  -- Over fields that `set` and `insert` treat as Beast documents it, and however many orders were sent
  -- before: the request of a new order, and that of an update, is sent with each of its nine fields
  -- exactly once, with the values, the body, the method and the target that belong to this order.
  pub requests-IsSent :
      (qs : List Request) (q : Request)
      → IsSent beast_version keys post q
          (prepare q (prepare_all qs (init_post_req {f = f} beast_version keys)))
        × IsSent beast_version keys put q
            (prepare q (prepare_all qs (init_put_req {f = f} beast_version keys)))
  requests-IsSent qs q = (
    prepare_all-IsSent law qs q _ init_post_req-IsOrderRequest,
    prepare_all-IsSent law qs q _ init_put_req-IsOrderRequest,
  )
