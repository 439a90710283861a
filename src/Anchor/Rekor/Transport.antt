-- ===== src/Anchor/Rekor/Transport.antt =====
-- The HTTP side of src/memory_blackbox/anchor/rekor.py: requests, their answers, and the checks of
-- the constructor. `urllib`, `base64`, `json`, `hashlib`, `datetime` and the PEM writer of
-- `cryptography` are parameters.
use memory_blackbox.Prelude.{
  ℕ, ◌+◌, ◌*◌, Bool, false, not, ◌&&◌, ◌||◌, List, [], ◌∷◌, ◌++◌, Option, none, some, Text, Bytes,
  codes, length, take, ltb, ◌==◌, if◌then◌else◌, Result, ok, err, value_error, anchor_error, ◌>>=◌,
}
use memory_blackbox.Model.Json.{Json, Items, int, str, arr, obj, nil, cons}
use memory_blackbox.Model.Values.{Casts}
use memory_blackbox.Model.Dump.{fields}
use memory_blackbox.Query.Timeline.{occurs_in}

abbrev pub public_rekor_url : Text
public_rekor_url = codes "https://rekor.sigstore.dev"

abbrev pub user_agent : Text
user_agent = codes "memory-blackbox-anchor/1"

-- 8 MiB
abbrev pub max_response_bytes : ℕ
max_response_bytes = 8 * 1024 * 1024

-- `urllib.request.Request`
pub record Request : Type 0 where
  pub url : Text
  pub method : Text
  pub payload : Option Bytes
  pub headers : List (Text × Text)

-- What opening a request gives: a body, the code and the decoded text of an `HTTPError`, or the
-- message of a `URLError`, a `TimeoutError` or an `OSError`.
pub data Reply : Type 0 where
  body : Bytes → Reply
  http_error : ℕ → Text → Reply
  unreachable : Text → Reply

-- The packages. `json_loads` raises `json_error` or `unicode_error`; `b64decode` validates, with
-- `none` for its ValueError.
pub record Packages : Type 0 where
  pub sha256 : Bytes → Bytes
  pub b64encode : Bytes → Text
  pub b64decode : Text → Option Bytes
  pub json_loads : Bytes → Result Json
  pub orjson_dumps : Json → Bytes
  pub orjson_loads : Bytes → Option Json
  pub public_pem : Bytes → Bytes
  pub from_timestamp : ℕ → Result Text
  -- scheme and host of a URL
  pub urlparse : Text → Result (Text × Option Text)

-- A log over its state: the answer to a request, and the state after it.
pub record Opener (L : Type 0) : Type 0 where
  pub reply : L → Request → Reply
  pub after : L → Request → L

-- The value of a request, or the message of its `AnchorError`.
pub data Outcome : Type 0 where
  answered : Json → Outcome
  failed : Text → Outcome

-- `_is_loopback`
unfoldable pub is_loopback : Option Text → Bool
is_loopback none = false
is_loopback (some hostname) =
    hostname == codes "localhost" || (hostname == codes "127.0.0.1" || hostname == codes "::1")

-- `s.rstrip("/")`
unfoldable pub rstrip_slash : Text → Text
rstrip_slash [] = []
rstrip_slash (x ∷ s) = let rest = rstrip_slash s in if x ∷ rest == codes "/" then [] else x ∷ rest

abbrev pub checked_url : Text → Bool → Text × Option Text → Result Text
checked_url base_url allow_insecure (scheme, hostname) =
    if not (scheme == codes "http" || scheme == codes "https")
    then err value_error
    else if scheme == codes "http" && not (allow_insecure || is_loopback hostname)
    then err value_error
    else ok (rstrip_slash base_url)

module _ (p : Packages) where
  -- The constructor: the `base_url` of the client.
  unfoldable pub rekor_url : Text → Bool → Result Text
  rekor_url base_url allow_insecure = do
    parsed ← p.urlparse base_url
    checked_url base_url allow_insecure parsed

  abbrev pub parsed_outcome : Option Json → Outcome
  parsed_outcome none = failed (codes "rekor returned invalid JSON")
  parsed_outcome (some v) = answered v

  abbrev pub outcome_of : Casts → Text → Reply → Outcome
  outcome_of casts method (body bytes) =
      let raw = take (max_response_bytes + 1) bytes in
      if ltb max_response_bytes (length raw)
      then failed (codes "rekor response exceeded the size limit")
      else parsed_outcome (p.orjson_loads raw)
  outcome_of casts method (http_error code detail) =
      failed
        (codes "rekor " ++ method ++ codes " " ++ casts.to_str (int code) ++ codes ": " ++ detail)
  outcome_of casts method (unreachable why) = failed (codes "rekor request failed: " ++ why)

  module _ {L : Type 0} (casts : Casts) (opener : Opener L) (base_url : Text) where
    -- `_send`
    unfoldable pub send : L → Request → Outcome
    send log request = outcome_of casts request.method (opener.reply log request)

    unfoldable pub post_request : Text → Json → Request
    post_request path payload = record {
      url = base_url ++ path;
      method = codes "POST";
      payload = some (p.orjson_dumps payload);
      headers =
          (codes "Content-Type", codes "application/json")
          ∷ (codes "Accept", codes "application/json")
          ∷ (codes "User-Agent", user_agent)
          ∷ [];
    }

    unfoldable pub get_request : Text → Request
    get_request path = record {
      url = base_url ++ path;
      method = codes "GET";
      payload = none;
      headers = (codes "Accept", codes "application/json") ∷ (codes "User-Agent", user_agent) ∷ [];
    }

    -- `[str(uuid) for uuid in found]`
    abbrev pub str_items : Items → List Text
    str_items nil = []
    str_items (cons v vs) = casts.to_str v ∷ str_items vs

    abbrev pub found_uuids : Outcome → Result (List Text)
    found_uuids (answered (arr found)) = ok (str_items found)
    found_uuids (answered _) = ok []
    found_uuids (failed message) =
        if occurs_in (codes " 404:") message then ok [] else err anchor_error

    abbrev pub key_query : Bytes → Json
    key_query public_key = obj (
        fields (
          (
            codes "publicKey",
            obj (
                fields (
                  (codes "format", str (codes "x509"))
                  ∷ (codes "content", str (p.b64encode (p.public_pem public_key)))
                  ∷ [])),
          )
          ∷ []))

    -- `_search_by_public_key`
    unfoldable pub search_by_public_key : L → Bytes → Result (List Text)
    search_by_public_key log public_key =
        found_uuids
          (send log (post_request (codes "/api/v1/index/retrieve") (key_query public_key)))
