-- ===== src/Http/Tests.antt =====
-- The requests of an order over fields that are a function from their names.
use bitmex_market_maker.Base.{refl, List, [], ◌∷◌, ◌++◌, if◌then◌else◌}
use bitmex_market_maker.Text.{Bytes, bytes}
use bitmex_market_maker.Auth.{Keys}
use bitmex_market_maker.RestSync.{Request, Verb}
use bitmex_market_maker.RestSync.Requests.{init_post_req, init_put_req, prepare}
use bitmex_market_maker.RestSync.Wire.{requests-IsSent}
use bitmex_market_maker.Http.{Name, same_name, Fields, IsFields, post, put}
use bitmex_market_maker.Http.Header.{IsSent, prepare_all}

abbrev by_name : Fields
by_name = record {
  Header = Name → List Bytes;
  empty = λ n. [];
  set = λ m v h n. if same_name n m then v ∷ [] else h n;
  insert = λ m v h n. if same_name n m then h n ++ v ∷ [] else h n;
  find = λ n h. h n;
}

by_name-IsFields : IsFields by_name
by_name-IsFields = record {
  find-empty = λ n. refl;
  find-set = λ n m v h. refl;
  find-insert = λ n m v h. refl;
}

abbrev my_keys : Keys
my_keys = record { api_key = bytes "key"; api_secret = bytes "secret" }

abbrev first_order : Request
first_order = record {
  verb = Verb.post;
  api_expires = bytes "1600000010";
  api_signature = bytes "00ff";
  content_length = 2;
  body = bytes "{}";
}

abbrev second_order : Request
second_order = record first_order { api_expires = bytes "1600000011"; api_signature = bytes "a0" }

requests-IsSent_example :
    IsSent (bytes "Boost") my_keys post second_order (
      prepare second_order
        (prepare_all (first_order ∷ []) (init_post_req {f = by_name} (bytes "Boost") my_keys)))
    × IsSent (bytes "Boost") my_keys put second_order (
        prepare second_order
          (prepare_all (first_order ∷ []) (init_put_req {f = by_name} (bytes "Boost") my_keys)))
requests-IsSent_example =
    requests-IsSent by_name-IsFields (bytes "Boost") my_keys (first_order ∷ []) second_order
