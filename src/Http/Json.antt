-- ===== src/Http/Json.antt =====
-- The JSON replies of src/http_server.cpp: the trees that are built with cJSON, and send_json.
--
-- cJSON's printer is a parameter. A number of a tree is a double, so that the doubles and the value
-- that an integer becomes are one too; a key is a text, and a string its bytes.
pub mod Texts
pub mod Samples
pub mod Batteries
pub mod Reading
pub mod RoundTrip
pub mod Replies
pub mod Listing
use Prim.Native.String.{String}
use bms_bridge.Base.{ℕ, List, [], ◌∷◌, Option, none, some, Bool, ◌==◌, if◌then◌else◌, Bytes}

-- `F` is the type of doubles.
mutual
  pub data Json (F : Type 0) : Type 0 where
    number : F → Json F
    boolean : Bool → Json F
    string : Bytes → Json F
    array : Items F → Json F
    object : Fields F → Json F

  pub data Items (F : Type 0) : Type 0 where
    nil : Items F
    cons : Json F → Items F → Items F

  pub data Fields (F : Type 0) : Type 0 where
    end : Fields F
    field : String → Json F → Fields F → Fields F

module _ {F : Type 0} where
  -- cJSON_AddItemToArray, for each value in its order.
  abbrev pub items : List (Json F) → Items F
  items [] = nil
  items (v ∷ vs) = cons v (items vs)

  -- The calls of cJSON_Add…ToObject, in their order.
  abbrev pub fields : List (String × Json F) → Fields F
  fields [] = end
  fields ((k, v) ∷ kvs) = field k v (fields kvs)

-- `Printer` is cJSON_PrintUnformatted, none where it returns null.
abbrev pub Printer : Type 0 → Type 0
Printer F = Json F → Option Bytes

unfoldable pub cjson_print : {F : Type 0} → Printer F → Json F → Bytes
cjson_print print v = elim (print v) [ none ↦ [] | some text ↦ text ]

pub data Phrase : Type 0 where
  phrase_ok phrase_error : Phrase

-- What evhttp_send_reply is given; the content type is application/json.
pub record JsonReply : Type 0 where
  pub code : ℕ
  pub phrase : Phrase
  pub body : Bytes

abbrev pub http_ok : ℕ
http_ok = 200

abbrev pub http_bad_request : ℕ
http_bad_request = 400

abbrev pub http_not_found : ℕ
http_not_found = 404

unfoldable pub send_json : ℕ → Bytes → JsonReply
send_json code body = record {
  code = code;
  phrase = if code == http_ok then phrase_ok else phrase_error;
  body = body;
}
