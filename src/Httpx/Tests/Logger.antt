-- ===== src/Httpx/Tests/Logger.antt =====
-- A run of the logging transport, and the witness.
use servicekit_go.Base.{[], ◌∷◌, Text, codes, take, none, some, ◌⊎◌, inl, inr, ◌≡◌, refl}
use servicekit_go.Httpx.Body.{Logged, read_limited, read_and_restore_body, decode_body}
use servicekit_go.Httpx.Logger.{
  LoggerTransportConfig, Request, Response, outgoing, failed, outbound_url, after_round_trip,
  new_logger_transport, round_trip, round_trip-next,
}
use servicekit_go.Httpx.Logger.Hidden.{shown_under, outbound_url-shown_under}
use servicekit_go.Httpx.Header.{values_at}
use servicekit_go.Httpx.Redact.{headers}
use servicekit_go.Httpx.Tests.{plain_web}
use servicekit_go.Httpx.Web.{Url, Values}

abbrev config : LoggerTransportConfig
config = record { redact_query = []; redact_headers = []; max_body_bytes = 2 }

abbrev shown : Url → Text
shown u = u.path

abbrev request : Request
request = record {
  method = codes "PUT";
  url = record { path = codes "/a"; raw_query = []; rest = [] };
  header = [];
  body = some (record { bytes = codes "12345"; failure = none });
}

-- A transport that needs the whole body.
abbrev next : Request → Response ⊎ Text
next req = inl (record { status_code = 200; header = []; body = req.body })

abbrev refused : Request → Response ⊎ Text
refused req = inr (codes "refused")

round_trip_run :
    (round_trip plain_web shown (new_logger_transport config) refused request).0
    ≡ outgoing (codes "PUT") (codes "/a") [] (Logged.string (codes "12"))
      ∷ failed (codes "refused") (codes "PUT") (codes "/a")
      ∷ []
unfolding new_logger_transport round_trip outbound_url after_round_trip read_and_restore_body
    read_limited decode_body headers take
round_trip_run = refl

round_trip-next_example :
    (round_trip plain_web shown (new_logger_transport config) next request).1 ≡ next request
round_trip-next_example = round_trip-next plain_web shown (new_logger_transport config) next request

-- A URL with a query.
abbrev queried : Url
queried = record { path = codes "/a"; raw_query = codes "t"; rest = [] }

outbound_url-shown_under_example :
    ((outbound_url plain_web shown queried (codes "Access_Token" ∷ []) ≡ shown queried)
      × ((queried.raw_query ≡ []) ⊎ (codes "Access_Token" ∷ [] ≡ [])))
    ⊎ ((q : Values) × (outbound_url plain_web shown queried (codes "Access_Token" ∷ [])
          ≡ shown (record queried { raw_query = plain_web.encode q }))
        × ((k : Text)
            → values_at q k
              ≡ shown_under
                  (plain_web.parse_query queried.raw_query).0
                  (codes "Access_Token" ∷ [])
                  k))
outbound_url-shown_under_example =
    outbound_url-shown_under plain_web shown queried (codes "Access_Token" ∷ [])
