-- ===== src/Streams/Events.antt =====
-- frontend/lib/sse.ts, `createSSEClient`: which connections it opens, and what its owner is told.
use clever_gate.Prelude.{
  String, Bool, true, false, Option, none, some, List, [], ◌∷◌, ◌<>◌, insert, truthy, if◌then◌else◌,
}
use clever_gate.Json.{Json}
use clever_gate.Api.{Env, World, get_access_token, get_api_base}

-- A `URL`: its address without the query, and the query's parameters in order.
pub record Url : Type 0 where
  pub address : String
  pub params : List (String × String)

-- One `EventSource`.
pub record Source : Type 0 where
  pub url : Url
  pub is_closed : Bool

pub record SseClient : Type 0 where
  -- The source that is opened first, `es`, and the one that is listened to.
  pub es : Source
  pub source : Source

abbrev with_token : Option String → Url → Url
with_token none u = u
with_token (some t) u = if truthy t then record u { params = insert "token" t u.params } else u

-- What `onMessage` is called with: the parsed value, or the text as it came.
pub data Payload : Type 0 where
  value : Json → Payload
  raw : String → Payload

module _ (parse_url : String → Url) where
  -- `es.close()` stands before the client is returned.
  unfoldable pub create_sse_client : Env → World → String → SseClient
  create_sse_client env w path =
      let url = parse_url (get_api_base env <> path) in
      record {
        es = record { url = url; is_closed = true };
        source = record {
          url = with_token (get_access_token env w.storage) url;
          is_closed = false;
        };
      }

unfoldable pub close : SseClient → SseClient
close c = record c { source = record { url = c.source.url; is_closed = true } }

-- The calls of `onMessage` for one event: `parse` is `JSON.parse`, and `throws` says whether a
-- call of `onMessage` throws. A throw of the first call is caught like one of the parser.
module _ (parse : String → Option Json) (throws : Payload → Bool) where
  abbrev calls_parsed : String → Option Json → List Payload
  calls_parsed text none = raw text ∷ []
  calls_parsed text (some v) = if throws (value v) then value v ∷ raw text ∷ [] else value v ∷ []

  unfoldable pub on_message : String → List Payload
  on_message text = calls_parsed text (parse text)
