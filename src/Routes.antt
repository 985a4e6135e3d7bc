-- ===== src/Routes.antt =====
-- internal/app/routes.go: the routes of NewRouter, with the middleware that each one passes. The patterns
-- are chi's, the prefixes of the groups written out.
pub mod Guarded
use gearshare.Prelude.{String, Bool, true, false, ◌||◌, List, [], ◌∷◌, ◌++◌, map, if◌then◌else◌}

pub data Method : Type 0 where
  get post any : Method

-- What `Use` and `With` add: chi's timeout, the rate limits of cmd/api, and the guards of internal/auth.
pub data Middleware : Type 0 where
  timeout auth_rate_limit api_rate_limit : Middleware
  jwt api_key session csrf basic_auth saml_session : Middleware

pub data Endpoint : Type 0 where
  health metrics health_detailed : Endpoint
  register login oauth_start oauth_callback : Endpoint
  categories feed detail search create_listing : Endpoint
  create_booking list_mine get_booking approve reject cancel activate complete dispute : Endpoint
  poll booking_events listing_availability create_review insurance_webhook : Endpoint
  admin_login_form admin_login admin_dashboard admin_logout : Endpoint
  saml_metadata saml_acs saml_login : Endpoint

pub record Route : Type 0 where
  pub method : Method
  pub pattern : String
  pub middleware : List Middleware
  pub endpoint : Endpoint

abbrev route : Method → String → List Middleware → Endpoint → Route
route m p ms e = record { method = m; pattern = p; middleware = ms; endpoint = e }

-- `Use` in a group: the middleware of the group comes first.
abbrev within : List Middleware → Route → Route
within ms r = record r { middleware = ms ++ r.middleware }

abbrev group : List Middleware → List Route → List Route
group ms = map (within ms)

abbrev optional : Bool → List Route → List Route
optional c routes = if c then routes else []

abbrev pub auth_routes : Bool → List Route
auth_routes has_oauth = group (timeout ∷ auth_rate_limit ∷ []) (
    route post "/api/v1/auth/register" [] register
    ∷ route post "/api/v1/auth/login" [] login
    ∷ optional has_oauth (
        route get "/api/v1/auth/oauth/google" [] oauth_start
        ∷ route get "/api/v1/auth/oauth/google/callback" [] oauth_callback
        ∷ []))

abbrev pub protected_routes : List Route
protected_routes = group (jwt ∷ []) (
    route post "/api/v1/listings" [] create_listing
    ∷ route post "/api/v1/bookings" [] create_booking
    ∷ route get "/api/v1/bookings" [] list_mine
    ∷ route get "/api/v1/bookings/{id}" [] get_booking
    ∷ route post "/api/v1/bookings/{id}/approve" [] approve
    ∷ route post "/api/v1/bookings/{id}/reject" [] reject
    ∷ route post "/api/v1/bookings/{id}/cancel" [] cancel
    ∷ route post "/api/v1/bookings/{id}/activate" [] activate
    ∷ route post "/api/v1/bookings/{id}/complete" [] complete
    ∷ route post "/api/v1/bookings/{id}/dispute" [] dispute
    ∷ route get "/api/v1/bookings/{id}/poll" [] poll
    ∷ route post "/api/v1/reviews" [] create_review
    ∷ [])

abbrev pub v1_routes : List Route
v1_routes = group (timeout ∷ api_rate_limit ∷ []) (
    route get "/api/v1/categories" [] categories
    ∷ route get "/api/v1/listings" [] feed
    ∷ route get "/api/v1/listings/{id}" [] detail
    ∷ route get "/api/v1/search" [] search
    ∷ protected_routes)

abbrev pub partner_routes : List Route
partner_routes = group (api_key ∷ []) (
    route get "/partner/v1/listings" [] feed
    ∷ route post "/partner/v1/webhooks/insurance" [] insurance_webhook
    ∷ [])

abbrev pub admin_routes : List Route
admin_routes =
    route get "/admin/login" [] admin_login_form
    ∷ route post "/admin/login" (csrf ∷ []) admin_login
    ∷ route get "/admin/dashboard/" (session ∷ []) admin_dashboard
    ∷ route post "/admin/logout" (session ∷ csrf ∷ []) admin_logout
    ∷ []

abbrev pub saml_routes : List Route
saml_routes =
    route get "/saml/metadata" [] saml_metadata
    ∷ route post "/saml/acs" [] saml_acs
    ∷ route get "/business/admin/login" (saml_session ∷ []) saml_login
    ∷ []

-- NewRouter, by whether there is an OAuth handler and a SAML provider.
unfoldable pub new_router : Bool → Bool → List Route
new_router has_oauth has_saml =
    route get "/healthz" [] health ∷ route any "/metrics" [] metrics ∷ auth_routes has_oauth
    ++ (route get "/api/v1/bookings/events" [] booking_events ∷ v1_routes
        ++ (route get "/ws/listings/{id}" [] listing_availability ∷ partner_routes
            ++ (admin_routes
                ++ (optional has_saml saml_routes
                    ++ (route get "/internal/admin/health-detailed" (basic_auth ∷ [])
                          health_detailed
                        ∷ [])))))
