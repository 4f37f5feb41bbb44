-- ===== src/Logs/Query.antt =====
-- frontend/app/(dashboard)/logs/page.tsx: the addresses and requests of the console, and the
-- search in the context of one log.
use clever_gate.Prelude.{
  String, Bool, ◌||◌, Option, none, some, List, [], ◌∷◌, ◌<>◌, truthy, trim, includes, strip_prefix,
  if◌then◌else◌, keep_if,
}
use clever_gate.Json.{Json, Fields, end, field}
use clever_gate.Api.{Env, World, Request, get_access_token, get_api_base}
use clever_gate.Types.{SystemLog}
use clever_gate.Logs.Page.{Query, semantic, listing}

-- `httpBase.replace(/^http/, "ws")`
abbrev ws_base : String → Option String → String
ws_base base none = base
ws_base base (some rest) = "ws" <> rest

-- `form` is `new URLSearchParams(params).toString()`, `encode` is `encodeURIComponent`.
module _ (form : List (String × String) → String) (encode : String → String) where
  unfoldable pub ws_url_from_http : String → String → List (String × String) → String
  ws_url_from_http http_base path params =
      ws_base http_base (strip_prefix "http" http_base) <> path <> "?" <> form params

  unfoldable pub query_path : Query → String
  query_path (semantic q) = "/api/admin/logs/search?q=" <> encode q
  query_path (listing params) = "/api/admin/logs?" <> form params

  -- `Bearer ${token}`, where `null` is written as such.
  abbrev pub bearer : Option String → String
  bearer none = "Bearer null"
  bearer (some t) = "Bearer " <> t

  unfoldable pub export_request : Env → World → String → Request
  export_request env w search = record {
    url =
        get_api_base env
        <> "/api/admin/logs/export?"
        <> form (if truthy search then ("search", search) ∷ [] else []);
    method = "GET";
    headers = ("Authorization", bearer (get_access_token env w.storage)) ∷ [];
    body = none;
  }

-- `Object.entries(context)`
unfoldable pub entries : Fields → List (String × Json)
entries end = []
entries (field k v fs) = (k, v) ∷ entries fs

-- `lower` is `toLowerCase`, `stringify` is `JSON.stringify`.
module _ (lower : String → String) (stringify : Json → String) where
  abbrev matches : String → String × Json → Bool
  matches query (k, v) = includes (lower k) query || includes (lower (stringify v)) query

  abbrev entries_matching : String → List (String × Json) → List (String × Json)
  entries_matching meta_search es =
      if truthy (trim meta_search) then keep_if (matches (lower meta_search)) es else es

  unfoldable pub filtered_context_entries : Option SystemLog → String → List (String × Json)
  unfolding entries
  filtered_context_entries none meta_search = []
  filtered_context_entries (some l) meta_search = entries_matching meta_search (entries l.context)
