-- ===== src/Routes/Guarded.antt =====
-- internal/app/routes.go: what stands before the handlers.
use gearshare.Prelude.{◌≡◌, refl, Bool, true, false, not, ◌&&◌, ◌||◌, List, [], ◌∷◌}
use gearshare.Routes.{
  Method, get, post, any, Middleware, timeout, auth_rate_limit, api_rate_limit, jwt, api_key, csrf,
  Endpoint, register, login, saml_acs, booking_events, listing_availability, Route, new_router,
}

abbrev some_of : {A : Type 0} → (A → Bool) → List A → Bool
some_of p [] = false
some_of p (x ∷ xs) = p x || some_of p xs

abbrev pub all_of : {A : Type 0} → (A → Bool) → List A → Bool
all_of p [] = true
all_of p (x ∷ xs) = p x && all_of p xs

-- A guard that a page of another origin cannot pass, with the cookies of the browser alone.
abbrev pub knows_secret : Middleware → Bool
knows_secret jwt = true
knows_secret api_key = true
knows_secret csrf = true
knows_secret _ = false

abbrev pub limits : Middleware → Bool
limits auth_rate_limit = true
limits api_rate_limit = true
limits _ = false

abbrev pub times_out : Middleware → Bool
times_out timeout = true
times_out _ = false

-- The posts that are there to get a credential with.
abbrev pub signs_in : Endpoint → Bool
signs_in register = true
signs_in login = true
signs_in saml_acs = true
signs_in _ = false

abbrev pub streams : Endpoint → Bool
streams booking_events = true
streams listing_availability = true
streams _ = false

abbrev pub is_post : Method → Bool
is_post post = true
is_post get = false
is_post any = false

abbrev pub guarded : Route → Bool
guarded r =
    (not (is_post r.method) || (signs_in r.endpoint || some_of knows_secret r.middleware))
    && (not (streams r.endpoint) || not (some_of times_out r.middleware))

-- Whether or not OAuth and SAML are set up, every route for POST requests asks for a token, an API key or a
-- CSRF token, but for registration, login and the SAML assertion; and no stream is under a timeout.
pub new_router-guarded :
    (has_oauth has_saml : Bool) → all_of guarded (new_router has_oauth has_saml) ≡ true
unfolding new_router
new_router-guarded true true = refl
new_router-guarded true false = refl
new_router-guarded false true = refl
new_router-guarded false false = refl
