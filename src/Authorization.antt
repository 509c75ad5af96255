-- ===== src/Authorization.antt =====
-- src/authorization/authorization.ts: each method is an endpoint, that is, the verb of the client that it
-- calls, the path, the query or the body that it gives, and what it makes of the data. A method that lists
-- gives the endpoint of the first page, and that of a further page for its parameters. An options object
-- and an answer are values; the ids that stand in a path are texts of their own.
pub mod Serializers
pub mod Answers
pub mod Roles
pub mod Resources
pub mod Assignments
pub mod Methods
pub mod Routes
pub mod Urls
pub mod Laws
mod Tests
use Prim.Native.String
use workos_node.Prelude.{
  String, Bool, true, false, not, ◌&&◌, ◌||◌, Option, none, some, List, [], ◌∷◌, ◌++◌,
  if◌then◌else◌, Result, ok, err, ◌>>=◌,
}
use workos_node.Js.{
  Value, undefined, null, str, obj, arr, Items, cons, nil, Fields, field, end, prop, truthy,
  nullish, assign,
}
use workos_node.Http.Verbs.{json}
use workos_node.Client
use workos_node.Client.{VerbOptions, Reply}
use workos_node.Session.{World, Thrown, wrong_type}
use workos_node.Session.Refresh.{answer}

pub data Verb : Type 0 where
  get post put patch delete delete_with_body : Verb

pub record Endpoint : Type 0 where
  pub verb : Verb
  pub path : String
  pub query : Option (List (String × Value))
  pub body : Value
  pub result : Value → Result Thrown Value

-- The path of segments that is handed to the client, as it is: `/a/b/c`. The URL is made of it in
-- `get_resource_url`.
unfoldable pub joined_path : List String → String
joined_path [] = ""
joined_path (s ∷ segments) = String.◌++◌ "/" (String.◌++◌ s (joined_path segments))

unfoldable pub entries : Fields → List (String × Value)
entries end = []
entries (field name v rest) = (name, v) ∷ entries rest

-- `{ ...options }`
abbrev pub own_entries : Value → List (String × Value)
own_entries (obj fields) = entries fields
own_entries v = []

-- `setDefaultOptions`
unfoldable pub set_default_options : Value → List (String × Value)
unfolding entries
set_default_options options =
    assign (own_entries options) "order"
      (if truthy (prop options "order") then prop options "order" else str "desc")

unfoldable pub map_items : (Value → Result Thrown Value) → Items → Result Thrown Items
map_items f nil = ok nil
map_items f (cons v items) = do first ← f v; rest ← map_items f items; ok (cons first rest)

-- `data.map(f)` of what is no array throws.
abbrev pub map_array : (Value → Result Thrown Value) → Value → Result Thrown Value
map_array f (arr items) = do mapped ← map_items f items; ok (arr mapped)
map_array f v = err wrong_type

-- A read of a field of undefined or null throws.
abbrev pub of_present : Value → Value → Result Thrown Value
of_present v made = if nullish v then err wrong_type else ok made

-- `deserializeList`
unfoldable pub deserialize_list : (Value → Result Thrown Value) → Value → Result Thrown Value
unfolding map_items
deserialize_list f list = do
  checked ← of_present list list
  items ← map_array f (prop list "data")
  ok (
      obj (
        field "object" (str "list")
          (field "data" items (field "listMetadata" (prop list "list_metadata") end))))

-- `{ object: 'list', data: data.data.map(f) }`
unfoldable pub listed : (Value → Result Thrown Value) → Value → Result Thrown Value
unfolding map_items
listed f list = do
  checked ← of_present list list
  items ← map_array f (prop list "data")
  ok (obj (field "object" (str "list") (field "data" items end)))

-- What returns nothing.
abbrev pub no_result : Value → Result Thrown Value
no_result v = ok undefined

abbrev pub getting : List String → (Value → Result Thrown Value) → Endpoint
unfolding joined_path
getting segments f = record {
  verb = get;
  path = joined_path segments;
  query = none;
  body = undefined;
  result = f;
}

abbrev pub sending : Verb → List String → Value → (Value → Result Thrown Value) → Endpoint
sending verb segments body f = record {
  verb = verb;
  path = joined_path segments;
  query = none;
  body = body;
  result = f;
}

abbrev pub deleting : List String → Option (List (String × Value)) → Endpoint
deleting segments query = record {
  verb = delete;
  path = joined_path segments;
  query = query;
  body = undefined;
  result = no_result;
}

-- `fetchAndDeserialize`
unfoldable pub fetch_and_deserialize :
    List String → (Value → Result Thrown Value) → Value → Endpoint
unfolding set_default_options deserialize_list
fetch_and_deserialize segments f options = record {
  verb = get;
  path = joined_path segments;
  query = some (set_default_options options);
  body = undefined;
  result = deserialize_list f;
}

-- A list: the first page, and the page for other parameters.
pub record Listing : Type 0 where
  pub first : Endpoint
  pub next : Value → Endpoint

unfoldable pub listing : List String → (Value → Result Thrown Value) → Value → Listing
unfolding fetch_and_deserialize
listing segments f options = record {
  first = fetch_and_deserialize segments f options;
  next = fetch_and_deserialize segments f;
}

abbrev with_options : Option (List (String × Value)) → VerbOptions
with_options query = record {
  query = query;
  idempotency_key = none;
  warrant_token = none;
  access_token = none;
  skip_api_key_check = false;
  max_retries = none;
}

module _ (world : World) where
  abbrev reply_of : Endpoint → Verb → Reply
  reply_of e get =
      (Client.get world.platform world.show world.to_number world.workos e.path
        (with_options e.query)).reply
  reply_of e post =
      (Client.post world.platform world.show world.to_number world.workos e.path (json e.body)
        (with_options none)).reply
  reply_of e put =
      (Client.put world.platform world.show world.to_number world.workos e.path (json e.body)
        (with_options none)).reply
  reply_of e patch =
      (Client.patch world.platform world.show world.to_number world.workos e.path (json e.body)
        (with_options none)).reply
  reply_of e delete =
      (Client.delete world.platform world.show world.to_number world.workos e.path e.query).reply
  reply_of e delete_with_body =
      (Client.delete_with_body world.platform world.show world.to_number world.workos e.path
        (json e.body)).reply

  -- The call of an endpoint.
  unfoldable pub invoke : Endpoint → Result Thrown Value
  invoke e = do reply ← answer (reply_of e e.verb); e.result reply
