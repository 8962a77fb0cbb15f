-- ===== src/Bson.antt =====
-- What the brokers use of mongo's C++ driver, which is not part of the repository: BSON objects
-- (client/dbclient.h) and a connection to a server. Both are parameters of the model.
use zbroker.Base.{ℤ, List, Option, Text, Bool}

-- `BSONObj` and `BSONObjBuilder`. `getIntField` gives `int_min` for a missing field, the other
-- getters an empty text or object, or false; `fromjson` throws (`none`) where the text is no JSON.
pub record Bson : Type 1 where
  pub Obj : Type 0
  pub empty_object : Obj
  pub is_empty_object : Obj → Bool
  pub string_field : Obj → Text → Text
  pub int_field : Obj → Text → ℤ
  pub bool_field : Obj → Text → Bool
  pub object_field : Obj → Text → Obj
  pub values : Obj → List Obj
  -- `getObjectID`, with the id as `OID::str` prints it
  pub object_id : Obj → Option Text
  pub json_string : Obj → Text
  pub from_json : Text → Option Obj
  pub md5 : Obj → Text
  pub append_int : Obj → Text → ℤ → Obj
  pub append_text : Obj → Text → Text → Obj
  pub append_object : Obj → Text → Obj → Obj
  -- `OID::init` of a printed id, appended as an id
  pub append_id : Obj → Text → Text → Obj
  pub append_elements : Obj → Obj → Obj

-- `mongo_sort` of src/broker.hpp
pub data MongoSort : Type 0 where
  asc desc : MongoSort

-- `DBClientConnection` at one moment: `connect` gives the error message of a refused connection;
-- `find` is `query`, with the collection, the condition, the sort on `_id`, limit, skip, fields.
pub record Server (Obj : Type 0) : Type 0 where
  pub connect : Text → Option Text
  pub find : Text → Obj → MongoSort → ℤ → ℤ → Option Obj → List Obj

-- `DBClientConnection::update`: collection, query, document, upsert, multi.
pub record Update (Obj : Type 0) : Type 0 where
  pub collection : Text
  pub query : Obj
  pub document : Obj
  pub upsert : Bool
  pub multi : Bool
