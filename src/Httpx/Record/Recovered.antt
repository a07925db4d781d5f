-- ===== src/Httpx/Record/Recovered.antt =====
-- `Record` around `Recover`: a panic is answered and logged.
use servicekit_go.Base.{
  ℕ, false, List, [], ◌∷◌, ◌++◌, Text, Option, none, some, inl, inr, ◌≡◌, ◌≢◌, ◌⊎◌, refl, ap, ◌∙◌,
  Bool-cases,
}
use servicekit_go.Httpx.Envelope.{Json, error_calls, err_internal, status_internal_server_error}
use servicekit_go.Httpx.Recorder.{Writer, Call, recorder, recorder_writer, run_direct}
use servicekit_go.Httpx.Record.{
  Request, RecordConfig, Event, incoming, returned, is_skipped, max_body, logs_body, request_body,
  second, serve_by, serve,
}
use servicekit_go.Httpx.Record.Logs.{request_body-same}
use servicekit_go.Httpx.Recover.{Panic, abort_handler, other, recover}
use servicekit_go.Httpx.Recover.Committed.{any_commits, recover-recovered}
use servicekit_go.Httpx.Recover.Recorded.{
  ends, ends-ne-abort, recover-ends, answered, recover-recorder, recover-same, answered-status,
}
use servicekit_go.Httpx.Web.{Web}

-- The statuses of the responses in the log.
abbrev pub statuses : List Event → List ℕ
statuses [] = []
statuses (incoming remote_address method path header body ∷ events) = statuses events
statuses (returned status method path body ∷ events) = status ∷ statuses events

module _ (web : Web) (writer : Writer) (js : Json) where
  -- `Record` around `Recover` around a handler, which is given by its calls and by how it ends.
  unfoldable pub serve_recovered :
      RecordConfig
      → (Request → List Call × Option Panic)
      → Request
      → writer.State
      → List Event × (Option Panic × (Option Text × writer.State))
  serve_recovered cfg next r w =
      serve_by web writer cfg (λ r rec. recover (recorder_writer writer) js (next r) rec)
        (λ r w. recover writer js (next r) w) r w

  serve_recovered-recover :
      (cfg : RecordConfig) (next : Request → List Call × Option Panic) (r : Request)
      (w : writer.State)
      → (serve_recovered cfg next r w).1 ≡ recover writer js (next r) w
  unfolding serve_recovered serve_by
  serve_recovered-recover cfg next r w = elim (Bool-cases (is_skipped cfg.skip_paths r.url.path)) [
    | inl e ↦ rw (e, serve_by) refl
    | inr e ↦
        let log_body = logs_body web cfg r.method r.url.path in
        rw (e, serve_by)
          (recover-same writer js (next (request_body web log_body (max_body cfg) r).1)
              (recorder writer w log_body (max_body cfg))
            ∙ ap (λ r. recover writer js (next r) w)
                (request_body-same web log_body (max_body cfg) r))
  ]

  serve_recovered-serve :
      (cfg : RecordConfig) (next : Request → List Call × Option Panic) (r : Request)
      (w : writer.State)
      → (next r).1 ≢ some abort_handler
      → (serve_recovered cfg next r w).0
        ≡ (serve web writer cfg (λ r. answered writer js (next r) w) r w).0
  unfolding serve_recovered serve_by serve second
  serve_recovered-serve cfg next r w h = elim (Bool-cases (is_skipped cfg.skip_paths r.url.path)) [
    | inl e ↦ rw (e, serve, serve_by) refl
    | inr e ↦
        let log_body = logs_body web cfg r.method r.url.path in
        let rec = recorder writer w log_body (max_body cfg) in
        let calm =
          ap (λ y. y.0) (recover-ends (recorder_writer writer) js (next r) rec)
          ∙ ends-ne-abort (next r).1 h in
        rw
          (
            e,
            serve,
            serve_by,
            request_body-same web log_body (max_body cfg) r,
            calm,
            recover-recorder writer js (next r) rec,
          )
          refl
  ]

  serve_recovered-abort :
      (cfg : RecordConfig) (next : Request → List Call × Option Panic) (r : Request)
      (w : writer.State)
      → (next r).1 ≡ some abort_handler
      → statuses (serve_recovered cfg next r w).0 ≡ []
  unfolding serve_recovered serve_by second
  serve_recovered-abort cfg next r w h = elim (Bool-cases (is_skipped cfg.skip_paths r.url.path)) [
    | inl e ↦ rw (e, serve_by) refl
    | inr e ↦
        let log_body = logs_body web cfg r.method r.url.path in
        let rec = recorder writer w log_body (max_body cfg) in
        let aborts =
          ap (λ y. y.0) (recover-ends (recorder_writer writer) js (next r) rec)
          ∙ ap (λ p. (ends p).0) h in
        rw (e, serve_by, request_body-same web log_body (max_body cfg) r, aborts) refl
  ]

  panic-cases : (p : Option Panic) → (p ≡ some abort_handler) ⊎ (p ≢ some abort_handler)
  panic-cases none = inr (cc)
  panic-cases (some abort_handler) = inl refl
  panic-cases (some (other v)) = inr (cc)

  -- `Record` around `Recover` around any handler: the client and the caller see what `Recover`
  -- alone makes of the handler, a panic that goes on included. After the panic that aborts
  -- silently no response is logged. In all other cases the log is that of a handler that
  -- returns and makes the calls that reach the client itself, those of the envelope for a panic
  -- included.
  pub serve_recovered-answered :
      (cfg : RecordConfig) (next : Request → List Call × Option Panic) (r : Request)
      (w : writer.State)
      → ((serve_recovered cfg next r w).1 ≡ recover writer js (next r) w)
        × ((((next r).1 ≡ some abort_handler) × (statuses (serve_recovered cfg next r w).0 ≡ []))
            ⊎ (((next r).1 ≢ some abort_handler)
                × ((serve_recovered cfg next r w).0
                    ≡ (serve web writer cfg (λ r. answered writer js (next r) w) r w).0)))
  serve_recovered-answered cfg next r w = (
    serve_recovered-recover cfg next r w,
    elim (panic-cases (next r).1) [
      | inl h ↦ inl (h, serve_recovered-abort cfg next r w h)
      | inr h ↦ inr (h, serve_recovered-serve cfg next r w h)
    ],
  )

  -- A panic before anything has reached the client, in a request that is not skipped: no panic goes
  -- on, its value is logged, the client gets what the handler did and an envelope with status 500,
  -- and 500 is the status in the log.
  pub serve_recovered-status :
      (cfg : RecordConfig) (next : Request → List Call × Option Panic) (r : Request)
      (w : writer.State) (calls : List Call) (v : Text)
      → is_skipped cfg.skip_paths r.url.path ≡ false
      → next r ≡ (calls, some (other v))
      → any_commits writer calls w ≡ false
      → (statuses (serve_recovered cfg next r w).0 ≡ 500 ∷ [])
        × ((serve_recovered cfg next r w).1 ≡ (
          none,
          (
            some v,
            (run_direct writer
                (calls ++ error_calls js status_internal_server_error err_internal)
                w).1,
          ),
        ))
  unfolding serve serve_by second
  serve_recovered-status cfg next r w calls v kept panics quiet = (
    ap statuses (serve_recovered-serve cfg next r w (λ e. cc (ap (λ x. x.1) panics, e)))
        ∙ (let log_body = logs_body web cfg r.method r.url.path in
            rw
              (
                kept,
                serve,
                serve_by,
                request_body-same web log_body (max_body cfg) r,
                panics,
                answered-status writer js calls v w log_body (max_body cfg) quiet,
              )
              refl),
    serve_recovered-recover cfg next r w
        ∙ ap (λ x. recover writer js x w) panics
        ∙ recover-recovered writer js calls (some (other v)) w
        ∙ ap (λ t. (none, (some v, (run_direct writer (calls ++ t) w).1))) (rw quiet refl),
  )
