-- ===== src/Http/Header.antt =====
-- The requests of bitmex_mm/REST_Sync.hpp and bitmex_mm/REST.hpp: which fields an order has when it is
-- sent.
use bitmex_market_maker.Base.{◌≡◌, refl, List, [], ◌∷◌}
use bitmex_market_maker.Text.{Bytes, bytes, to_string}
use bitmex_market_maker.Auth.{Keys}
use bitmex_market_maker.RestSync.{Request}
use bitmex_market_maker.RestSync.Requests.{host_name, prepare}
use bitmex_market_maker.Http.{
  Fields, IsFields, HttpRequest, Method, host, user_agent, accept, content_type, connection,
  api_key, content_length, api_expires, api_signature,
}

-- What all orders of a client have in common.
pub record IsOrderRequest {f : Fields} (beast_version : Bytes) (keys : Keys) (method : Method)
    (r : HttpRequest f) : Type 0 where
  pub version : r.version ≡ 11
  pub method_lem : r.method ≡ method
  pub target : r.target ≡ bytes "/api/v1/order"
  pub host_lem : f.find host r.fields ≡ host_name ∷ []
  pub user_agent_lem : f.find user_agent r.fields ≡ beast_version ∷ []
  pub accept_lem : f.find accept r.fields ≡ bytes "*/*" ∷ []
  pub content_type_lem : f.find content_type r.fields ≡ bytes "application/json" ∷ []
  pub connection_lem : f.find connection r.fields ≡ bytes "Keep-Alive" ∷ []
  pub api_key_lem : f.find api_key r.fields ≡ keys.api_key ∷ []

-- A request object as it is sent for `q`: each field is there once.
pub record IsSent {f : Fields} (beast_version : Bytes) (keys : Keys) (method : Method) (q : Request)
    (r : HttpRequest f) : Type 0 where
  pub common : IsOrderRequest beast_version keys method r
  pub length_lem : f.find content_length r.fields ≡ to_string q.content_length ∷ []
  pub expires_lem : f.find api_expires r.fields ≡ q.api_expires ∷ []
  pub signature_lem : f.find api_signature r.fields ≡ q.api_signature ∷ []
  pub body_lem : r.body ≡ q.body

-- One sending after the other writes into the same object.
abbrev pub prepare_all : {f : Fields} → List Request → HttpRequest f → HttpRequest f
prepare_all [] r = r
prepare_all (q ∷ qs) r = prepare_all qs (prepare q r)

module _ {f : Fields} (law : IsFields f) {beast_version : Bytes} {keys : Keys}
    {method : Method} where
  prepare-IsSent :
      (q : Request) (r : HttpRequest f)
      → IsOrderRequest beast_version keys method r
      → IsSent beast_version keys method q (prepare q r)
  unfolding prepare
  prepare-IsSent q r v = record {
    common = record {
      version = v.version;
      method_lem = v.method_lem;
      target = v.target;
      host_lem = simp law.find-set v.host_lem;
      user_agent_lem = simp law.find-set v.user_agent_lem;
      accept_lem = simp law.find-set v.accept_lem;
      content_type_lem = simp law.find-set v.content_type_lem;
      connection_lem = simp law.find-set v.connection_lem;
      api_key_lem = simp law.find-set v.api_key_lem;
    };
    length_lem = simp law.find-set;
    expires_lem = simp law.find-set;
    signature_lem = simp law.find-set;
    body_lem = refl;
  }

  -- However many orders an object was sent for before, it is sent for the next one with that one's
  -- values.
  pub prepare_all-IsSent :
      (qs : List Request) (q : Request) (r : HttpRequest f)
      → IsOrderRequest beast_version keys method r
      → IsSent beast_version keys method q (prepare q (prepare_all qs r))
  prepare_all-IsSent [] q r v = prepare-IsSent q r v
  prepare_all-IsSent (p ∷ qs) q r v =
      prepare_all-IsSent qs q (prepare p r) (prepare-IsSent p r v).common
