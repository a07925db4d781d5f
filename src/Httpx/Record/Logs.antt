-- ===== src/Httpx/Record/Logs.antt =====
-- What `Record` leaves alone, and what it logs.
use servicekit_go.Base.{
  ℕ, Bool, true, false, not, ◌&&◌, List, [], ◌∷◌, Text, take, Option, none, some, ◌==◌,
  if◌then◌else◌, ◌≡◌, refl, ap, sym, ◌∙◌, Bool-cases, Option-cases, inl, inr,
}
use servicekit_go.Httpx.Body.{
  Body, Logged, read_and_restore_body, read_and_restore_body-bytes, decode_body,
}
use servicekit_go.Httpx.Recorder.{Writer, Call, recorder, run, run_direct, logged_status}
use servicekit_go.Httpx.Recorder.Captured.{response, run-response}
use servicekit_go.Httpx.Recorder.Transparent.{run-run_direct}
use servicekit_go.Httpx.Record.{
  Request, RecordConfig, Event, incoming, returned, is_skipped, max_body, logs_body, request_body,
  response_body, second, serve_by, serve,
}
use servicekit_go.Httpx.Web.{Web}

module _ (web : Web) where
  pub request_body-same :
      (log_body : Bool) (limit : ℕ) (r : Request) → (request_body web log_body limit r).1 ≡ r
  unfolding request_body read_and_restore_body
  request_body-same false limit r = refl
  request_body-same true limit r = elim (Option-cases r.body) [
    | inl e ↦
        ap (λ b. record r { body = (read_and_restore_body b limit).1 }) e
        ∙ ap (λ b. record r { body = b }) (sym e)
    | inr (b, e) ↦
        ap (λ b. record r { body = (read_and_restore_body b limit).1 }) e
        ∙ ap (λ x. record r { body = x.1 }) (read_and_restore_body-bytes b limit)
        ∙ ap (λ b. record r { body = b }) (sym e)
  ]

  module _ (writer : Writer) where
    -- Logging is not seen from outside: the handler reads the request that was sent, each of its
    -- calls is answered as the client's writer answers it, and that writer ends in the state it has
    -- without the middleware.
    pub serve-run_direct :
        (cfg : RecordConfig) (next : Request → List Call) (r : Request) (w : writer.State)
        → (serve web writer cfg next r w).1 ≡ run_direct writer (next r) w
    unfolding serve serve_by second
    serve-run_direct cfg next r w = elim (Bool-cases (is_skipped cfg.skip_paths r.url.path)) [
      | inl e ↦ rw (e, serve) refl
      | inr e ↦
          let log_body = logs_body web cfg r.method r.url.path in
          rw (e, serve)
            (run-run_direct writer (next (request_body web log_body (max_body cfg) r).1)
                (recorder writer w log_body (max_body cfg))
              ∙ ap (λ r. run_direct writer (next r) w)
                  (request_body-same log_body (max_body cfg) r))
    ]

    if_logged :
        (log_body other : Bool) (limit : ℕ) (t : Text)
        → (if log_body && other
            then decode_body web (take limit (if log_body then t else []))
            else Logged.nil)
          ≡ (if log_body && other then decode_body web (take limit t) else Logged.nil)
    if_logged true other limit t = refl
    if_logged false other limit t = refl

    abbrev pub bodies : List Event → List Logged
    bodies [] = []
    bodies (incoming remote_address method path header body ∷ events) = body ∷ bodies events
    bodies (returned status method path body ∷ events) = body ∷ bodies events

    -- The front of a body, as the log shows it.
    abbrev pub front : ℕ → Option Body → Logged
    front limit none = Logged.nil
    front limit (some b) = decode_body web (take limit b.bytes)

    request_body-front :
        (log_body : Bool) (limit : ℕ) (r : Request)
        → (request_body web log_body limit r).0
          ≡ (if log_body then front limit r.body else Logged.nil)
    unfolding request_body read_and_restore_body decode_body
    request_body-front false limit r = refl
    request_body-front true limit r = elim (Option-cases r.body) [
      | inl e ↦
          ap (λ b. decode_body web (read_and_restore_body b limit).0) e ∙ ap (front limit) (sym e)
      | inr (b, e) ↦
          ap (λ b. decode_body web (read_and_restore_body b limit).0) e
          ∙ ap (λ x. decode_body web x.0) (read_and_restore_body-bytes b limit)
          ∙ ap (front limit) (sym e)
    ]

    -- A request that is not skipped logs two bodies. Where the configuration lets bodies be logged
    -- they are the front of the request's and the front of what the handler wrote before a switch of
    -- protocols, each up to the limit, and none for the response if the status says that protocols
    -- were switched; elsewhere there are none.
    pub serve-bodies :
        (cfg : RecordConfig) (next : Request → List Call) (r : Request) (w : writer.State)
        → is_skipped cfg.skip_paths r.url.path ≡ false
        → bodies (serve web writer cfg next r w).0 ≡ (
            let log_body = logs_body web cfg r.method r.url.path in
            let limit = max_body cfg in
            let switched =
              logged_status writer (run writer (next r) (recorder writer w log_body limit)).1
              == 101 in
            (if log_body then front limit r.body else Logged.nil)
            ∷ (if log_body && not switched
                then decode_body web (take limit (response writer (next r) w))
                else Logged.nil)
            ∷ [])
    unfolding serve serve_by second response_body
    serve-bodies cfg next r w h =
        let log_body = logs_body web cfg r.method r.url.path in
        let limit = max_body cfg in
        rw
          (
            h,
            serve,
            request_body-front log_body limit r,
            request_body-same log_body limit r,
            run-response writer (next r) w log_body limit,
          )
          (ap (λ l. (if log_body then front limit r.body else Logged.nil) ∷ l ∷ [])
            (if_logged log_body _ limit (response writer (next r) w)))
