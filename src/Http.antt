-- ===== src/Http.antt =====
-- The requests of bitmex_mm/REST_Sync.hpp and bitmex_mm/REST.hpp, as objects of Boost.Beast. What
-- Beast's `set` and `insert` do to the fields of a request is an interface with the laws of its
-- documentation.
pub mod Header
mod Tests
use bitmex_market_maker.Base.{ℕ, ◌≡◌, List, [], ◌∷◌, ◌++◌, if◌then◌else◌, length, Bool, true, false}
use bitmex_market_maker.Text.{Bytes, bytes, to_string}
use bitmex_market_maker.Auth.{Keys}

-- The names of the fields that the program writes; Beast compares them without regard to case.
pub data Name : Type 0 where
  host user_agent accept content_type connection api_key content_length api_expires api_signature :
      Name

abbrev pub same_name : Name → Name → Bool
same_name host host = true
same_name user_agent user_agent = true
same_name accept accept = true
same_name content_type content_type = true
same_name connection connection = true
same_name api_key api_key = true
same_name content_length content_length = true
same_name api_expires api_expires = true
same_name api_signature api_signature = true
same_name _ _ = false

-- `find` are the values of all fields of a name, in order.
pub record Fields : Type 1 where
  pub Header : Type 0
  pub empty : Header
  pub set : Name → Bytes → Header → Header
  pub insert : Name → Bytes → Header → Header
  pub find : Name → Header → List Bytes

-- `set` removes the other fields of the name, `insert` adds a field behind those of the name.
pub record IsFields (f : Fields) : Type 0 where
  pub find-empty : (n : Name) → f.find n f.empty ≡ []
  pub find-set :
      (n m : Name) (v : Bytes) (h : f.Header)
      → f.find n (f.set m v h) ≡ (if same_name n m then v ∷ [] else f.find n h)
  pub find-insert :
      (n m : Name) (v : Bytes) (h : f.Header)
      → f.find n (f.insert m v h) ≡ (if same_name n m then f.find n h ++ v ∷ [] else f.find n h)

pub data Method : Type 0 where
  get : Method
  post : Method
  put : Method

pub record HttpRequest (f : Fields) : Type 0 where
  pub version : ℕ
  pub method : Method
  pub target : Bytes
  pub fields : f.Header
  pub body : Bytes

module _ {f : Fields} where
  abbrev pub set : Name → Bytes → HttpRequest f → HttpRequest f
  set n v r = record r { fields = f.set n v r.fields }

  abbrev pub insert : Name → Bytes → HttpRequest f → HttpRequest f
  insert n v r = record r { fields = f.insert n v r.fields }

  -- A request as the constructors of the clients find it, with what is assigned first.
  abbrev pub new_request : Method → Bytes → HttpRequest f
  new_request method target = record {
    version = 11;
    method = method;
    target = target;
    fields = f.empty;
    body = [];
  }
