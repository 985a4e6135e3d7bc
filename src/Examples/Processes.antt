-- ===== src/Examples/Processes.antt =====
-- The theorems on several processes together, and on the thumbnail function, applied.
use gearshare.Prelude.{
  ℕ, ◌≡◌, refl, String, Bool, true, false, Option, none, some, List, [], ◌∷◌, arith, if◌then◌else◌,
  ◌==◌,
}
use gearshare.Prelude.Int.{pos}
use gearshare.Prelude.Text.{codes, str_eq}
use gearshare.Model.Listing.{active}
use gearshare.Model.Booking.{requested}
use gearshare.Store.{World, ok}
use gearshare.Store.Pools.{Pool, Pools, Db, new_pool, connect}
use gearshare.Http.{json}
use gearshare.Search.{elasticsearch, from_source, wire_limit, search_limit, handler}
use gearshare.SearchIndexer.{Elastic, Document, answered}
use gearshare.Search.Remote.{Credential, Line, execute_search}
use gearshare.Search.Remote.EndToEnd.{served, documents, handler-remote}
use gearshare.Booking.Service.{create_booking}
use gearshare.Booking.History.{perform, approves}
use gearshare.Config.{load}
use gearshare.Api.{Services, App, started, assemble, boot}
use gearshare.Api.Degraded.{Alike, boot-degrades}
use gearshare.Codec.Base64.{decode_std}
use gearshare.Thumbnail as Thumbnail
use gearshare.Thumbnail.{ThumbnailRequest, ThumbnailResponse}
use gearshare.Thumbnail.Fits.{Fits, handler-Fits}
use gearshare.Examples.{quiet, free_days}
use gearshare.Examples.Logins.{bare, no_duration, defaults}

abbrev here : World
here = quiet requested

abbrev stove : Document
stove = record {
  listing_id = 7;
  title = "Stove";
  description = "";
  price_per_day_cents = pos 300;
  category_name = "Cooking";
  owner_name = "";
  status = active;
  avg_rating = 0;
}

-- An index of one document, which every query finds.
abbrev index : Elastic (Unit {0})
index = record {
  stored = λ id. λ s. if id == 7 then some stove else none;
  exists_index = λ s. answered 200;
  create_index = λ s. (answered 400, s);
  index_document = λ id. λ doc. λ s. (answered 503, s);
  delete_document = λ id. λ s. (answered 503, s);
  multi_match = λ text. λ limit. λ s. (answered 200, stove ∷ []);
  lets_through = λ s. true;
  record_result = λ good. λ s. s;
}

abbrev admin : Credential
admin = record { username = codes "admin"; password = codes "word" }

abbrev open_line : Line
open_line = record { breaker_open = false; network_down = false }

handler-remote_example :
    handler str_eq (some (execute_search index admin admin open_line tt)) "stove" "5" here ≡ (
      let limit = wire_limit (pos (search_limit "5")) in
      if served index admin admin open_line tt "stove" limit
      then (
        ok (json 200 (from_source elasticsearch (documents index admin admin tt "stove" limit))),
        here,
      )
      else handler str_eq none "stove" "5" here)
handler-remote_example =
    handler-remote index admin admin str_eq open_line tt "stove" "5" here
      (record { name = omega arith; word = omega arith })
      (record { name = omega arith; word = omega arith })

-- Only MySQL is there at first; later everything.
abbrev pub services : Bool → Services
services there = record {
  tracing = there;
  redis = there;
  mongo = there;
  rabbitmq = there;
  publisher = there;
  notification_client = there;
  search_client = there;
  oidc = there;
  certificate = there;
  saml = there;
}

abbrev all_connect : ℕ → String → Bool
all_connect n dsn = true

abbrev closes : Pool → Bool
closes p = false

abbrev no_pools : Pools
no_pools = record { open_pools = []; next = 0 }

abbrev two_pools : Db
two_pools = record {
  primary = new_pool defaults.mysql.primary_dsn defaults.mysql 0;
  replica = some (new_pool defaults.mysql.primary_dsn defaults.mysql 1);
}

abbrev bare_app : App
bare_app = assemble bare no_duration defaults two_pools (services false)

abbrev after_boot : Pools
after_boot = (connect all_connect closes defaults.mysql no_pools).1

boots :
    boot bare no_duration all_connect closes (services false) no_pools
    ≡ (started bare_app, after_boot)
unfolding boot connect load
boots = refl

boot-degrades_example :
    (b : App) × (boot bare no_duration all_connect closes (services true) no_pools
      ≡ (started b, after_boot))
    × Alike bare no_duration all_connect closes bare_app b
    × ((create_booking bare_app.booking free_days here).0
        ≡ (create_booking b.booking free_days here).0)
    × ((create_booking bare_app.booking free_days here).1.primary
        ≡ (create_booking b.booking free_days here).1.primary)
    × ((perform bare_app.booking approves 1 here).0 ≡ (perform b.booking approves 1 here).0)
    × ((perform bare_app.booking approves 1 here).1.primary
        ≡ (perform b.booking approves 1 here).1.primary)
boot-degrades_example =
    boot-degrades bare no_duration all_connect closes (services false) (services true) no_pools
      bare_app after_boot boots free_days approves 1 here

-- A picture of 581 by 1, and the JPEG of a picture, both made up.
abbrev Picture : Type 0
Picture = ℕ × ℕ

abbrev read_picture : List ℕ → Option Picture
read_picture raw = some (581, 1)

abbrev resize : Picture → ℕ → ℕ → Picture
resize p w h = (w, h)

abbrev write_picture : Picture → Option (List ℕ)
write_picture p = some (255 ∷ [])

abbrev asked : ThumbnailRequest
asked = record { listing_id = 1; image_base64 = codes "aGk="; max_dimension = pos 0 }

abbrev made : ThumbnailResponse
made = record { listing_id = 1; thumbnail_base64 = codes "/w=="; width = 319; height = 0 }

decoded : decode_std asked.image_base64 ≡ some (104 ∷ 105 ∷ [])
unfolding decode_std
decoded = refl

answered_made :
    Thumbnail.handler {Image = ℕ × ℕ} (λ p. p) read_picture resize write_picture asked
    ≡ Thumbnail.ok made
unfolding Thumbnail.handler decode_std gearshare.Codec.Base64.encode_std Thumbnail.scaled
    gearshare.Thumbnail.Float.mul_int gearshare.Thumbnail.Float.round_div Thumbnail.scale_for
    gearshare.Thumbnail.Float.div_f64 gearshare.Thumbnail.Float.normalize
    gearshare.Thumbnail.Float.last_bit
answered_made = refl

handler-Fits_example : (made.listing_id ≡ asked.listing_id) × Fits 320 581 1 made.width made.height
handler-Fits_example =
    handler-Fits (λ p. p) read_picture resize write_picture asked (104 ∷ 105 ∷ []) (581, 1) made
      decoded refl (omega arith) (omega arith) (omega arith) answered_made
