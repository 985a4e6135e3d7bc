-- ===== src/Listing/Handler/Cacheable/Unchanged.antt =====
-- internal/listing/handler.go, etag.go and listing_cache.go together: a client that has the page already.
use gearshare.Prelude.{
  ℕ, ◌≡◌, refl, sym, ap, ◌∙◌, String, true, false, Option, List, arith, inl, inr,
}
use gearshare.Prelude.Text.{eq_iff}
use gearshare.Store.{World, Result-cases, ok, M, Payload}
use gearshare.Http.{Response, json, error}
use gearshare.Http.Etag.{
  Headers, not_modified, full, etag_of, write_cacheable_json, quoted-ne-empty,
}
use gearshare.Listing.Handler.{feed_limit, feed_offset, feed_at, feed}
use gearshare.Listing.Handler.Serving.{feed_at-again}
use gearshare.Listing.Handler.Cacheable.{cacheable, send, send_feed}

module _ (marshal : Payload → List ℕ) (md5 : List ℕ → List ℕ) (parse_time : String → Option ℕ) where
  -- A page that was sent in full had the tag of its body.
  full-tagged :
      (inm ims : String) (status last : ℕ) (page : List ℕ) (hd : Headers) (code : ℕ) (body : List ℕ)
      → write_cacheable_json md5 parse_time inm ims status last page ≡ full hd code body
      → (hd.etag ≡ etag_of md5 parse_time body)
        × (code ≡ status)
        × (body ≡ page)
        × (hd.cache_control ≡ "private, max-age=30, must-revalidate")
  unfolding write_cacheable_json
  full-tagged inm ims status last page hd code body h = ground (arith, h)

  tag-accepted :
      (tag ims : String) (status last : ℕ) (body : List ℕ)
      → tag ≡ etag_of md5 parse_time body
      → write_cacheable_json md5 parse_time tag ims status last body
        ≡ not_modified (record {
          etag = tag;
          last_modified = last;
          cache_control = "private, max-age=30, must-revalidate";
        })
  unfolding write_cacheable_json
  tag-accepted tag ims status last body e = rw e (
      ground (
        arith,
        quoted-ne-empty md5 parse_time body,
        (eq_iff (etag_of md5 parse_time body) (etag_of md5 parse_time body)).1 refl,
      ))

  -- What a page that was sent in full came from.
  full-page :
      (inm ims : String) (page : M (Response Payload)) (w : World) (hd : Headers) (code : ℕ)
      (body : List ℕ)
      → (send marshal md5 parse_time inm ims page w).0 ≡ ok (cacheable (full hd code body))
      → (p : Payload) × ((page w).0 ≡ ok (json code p))
        × (marshal p ≡ body)
        × (hd.etag ≡ etag_of md5 parse_time body)
        × (hd.cache_control ≡ "private, max-age=30, must-revalidate")
  full-page inm ims page w hd code body h = elim (Result-cases (page w).0) [
    | inr (e, q) ↦ absurd (ground (arith, q, h))
    | inl (error c m, q) ↦ absurd (ground (arith, q, h))
    | inl (json c p, q) ↦
        let answered : write_cacheable_json md5 parse_time inm ims c (page w).1.now (marshal p)
            ≡ full hd code body =
          ground (arith, q, h) in
        let (tag, same_code, same_body, control) =
          full-tagged inm ims c (page w).1.now (marshal p) hd code body answered in
        (p, ground (arith, q, same_code), ground (arith, same_body), tag, control)
  ]

  -- With Redis up, a client that was sent a page of the feed in full, and sends its tag with the next request
  -- for it, is told that nothing changed, without a body and without a statement, if the request finds the cache
  -- as the first one left it, whatever the tables have become and whatever date it sends.
  pub send_feed-again :
      (limit_param offset_param inm ims : String) (w : World) (hd : Headers) (body : List ℕ)
      → ((n : ℕ) → w.redis_fails n ≡ false)
      → (send_feed marshal md5 parse_time true limit_param offset_param inm ims w).0
        ≡ ok (cacheable (full hd 200 body))
      → (later_ims : String) (v : World)
      → v.cache ≡ (send_feed marshal md5 parse_time true limit_param offset_param inm ims w).1.cache
      → v.redis_fails ≡ w.redis_fails
      → let (r, v') =
          send_feed marshal md5 parse_time true limit_param offset_param hd.etag later_ims v in
        (r ≡ ok (cacheable (not_modified (record hd { last_modified = v'.now }))))
        × (v'.clock ≡ v.clock)
  unfolding send_feed feed
  send_feed-again limit_param offset_param inm ims w hd body up h later_ims v same working =
      let page = feed_at true (feed_limit limit_param) (feed_offset offset_param) in
      let (p, served, marshalled, tag, control) = full-page inm ims page w hd 200 body h in
      let left : v.cache ≡ (page w).1.cache = ground (arith, served, same) in
      let (again, quiet) =
        feed_at-again (feed_limit limit_param) (feed_offset offset_param) w p up served v left
          working in
      let now = (page v).1.now in
      let known =
        tag-accepted hd.etag later_ims 200 now (marshal p)
          (tag ∙ ap (etag_of md5 parse_time) (sym marshalled)) in
      (ground (arith, again, known, control), ground (arith, again, quiet))
