-- ===== src/Listing/Handler/Cacheable.antt =====
-- internal/listing/handler.go with internal/httputil/etag.go: the two pages as they are sent. `marshal` is
-- json.Marshal, which does not fail for these values; MD5 and http.ParseTime are parameters.
pub mod Unchanged
use gearshare.Prelude.{ℕ, String, Bool, Option, List}
use gearshare.Store.{M, Payload, ◌>>=◌, pure, get_now}
use gearshare.Http.{Response, json, error}
use gearshare.Http.Etag.{Answer, write_cacheable_json}
use gearshare.Listing.Handler.{feed, detail}

pub data Sent : Type 0 where
  cacheable : Answer → Sent
  failed : ℕ → String → Sent

module _ (marshal : Payload → List ℕ) (md5 : List ℕ → List ℕ) (parse_time : String → Option ℕ) where
  -- By If-None-Match, If-Modified-Since and the time.
  abbrev pub sent : String → String → ℕ → Response Payload → Sent
  sent if_none_match if_modified_since now (json code body) =
      cacheable (
        write_cacheable_json md5 parse_time if_none_match if_modified_since code now (marshal body))
  sent if_none_match if_modified_since now (error code message) = failed code message

  abbrev pub send : String → String → M (Response Payload) → M Sent
  send if_none_match if_modified_since page = do
    r ← page
    now ← get_now
    pure (sent if_none_match if_modified_since now r)

  unfoldable pub send_feed : Bool → String → String → String → String → M Sent
  send_feed has_cache limit_param offset_param if_none_match if_modified_since =
      send if_none_match if_modified_since (feed has_cache limit_param offset_param)

  unfoldable pub send_detail : Bool → String → String → String → M Sent
  send_detail has_cache param if_none_match if_modified_since =
      send if_none_match if_modified_since (detail has_cache param)
