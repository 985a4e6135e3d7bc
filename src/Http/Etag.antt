-- ===== src/Http/Etag.antt =====
-- internal/httputil/etag.go. MD5 and http.ParseTime are parameters; an instant is in nanoseconds, and a header
-- that is missing is the empty text.
use gearshare.Prelude.{
  ℕ, ◌≡◌, ap, String, Bool, false, not, ◌&&◌, Option, none, some, List, arith, leb, if◌then◌else◌,
  Bool-cases, inl, inr,
}
use Prim.Native.Char.{Char}
use Prim.Native.String.{◌++◌, char_at}
use gearshare.Prelude.Text.{codes, str_eq, eq_iff}
use gearshare.Codec.Hex.{hex}

-- The headers that every answer has, and the status and the body unless the client has it already.
pub record Headers : Type 0 where
  pub etag : String
  pub last_modified : ℕ
  pub cache_control : String

pub data Answer : Type 0 where
  not_modified : Headers → Answer
  full : Headers → ℕ → List ℕ → Answer

abbrev quote : Char
quote = char_at "\"" 0

module _ (md5 : List ℕ → List ℕ) (parse_time : String → Option ℕ) where
  unfoldable pub etag_of : List ℕ → String
  etag_of body = String.◌∷◌ quote (hex (md5 body) ++ "\"")

  abbrev not_after : ℕ → Option ℕ → Bool
  not_after last none = false
  not_after last (some t) = leb last t

  abbrev headers_for : ℕ → List ℕ → Headers
  headers_for last body = record {
    etag = etag_of body;
    last_modified = last;
    cache_control = "private, max-age=30, must-revalidate";
  }

  -- By If-None-Match and If-Modified-Since.
  unfoldable pub write_cacheable_json : String → String → ℕ → ℕ → List ℕ → Answer
  unfolding etag_of
  write_cacheable_json if_none_match if_modified_since status last body =
      if not (str_eq if_none_match "") && str_eq if_none_match (etag_of body)
      then not_modified (headers_for last body)
      else if not (str_eq if_modified_since "") && not_after last (parse_time if_modified_since)
      then not_modified (headers_for last body)
      else full (headers_for last body) status body

  pub quoted-ne-empty : (body : List ℕ) → str_eq (etag_of body) "" ≡ false
  unfolding etag_of
  quoted-ne-empty body = elim (Bool-cases (str_eq (etag_of body) "")) [
    | inr p ↦ p
    | inl p ↦
        let e : etag_of body ≡ "" = (eq_iff (etag_of body) "").0 p in
        absurd (ground (arith, ap codes e))
  ]

  -- A client that sends back the tag of a body that it has, and no date, is told that nothing changed exactly if
  -- the body now has that tag, and gets the body otherwise.
  pub write_cacheable_json-again :
      (had body : List ℕ) (status last : ℕ)
      → write_cacheable_json (etag_of had) "" status last body ≡ (
          if str_eq (etag_of had) (etag_of body)
          then not_modified (headers_for last body)
          else full (headers_for last body) status body)
  unfolding write_cacheable_json
  write_cacheable_json-again had body status last = ground (arith, quoted-ne-empty had)
