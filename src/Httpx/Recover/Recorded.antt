-- ===== src/Httpx/Recover/Recorded.antt =====
-- `Recover` on the recorder of `Record`.
use servicekit_go.Base.{
  ℕ, Bool, false, List, [], ◌∷◌, ◌++◌, Text, Option, none, some, ◌⊎◌, inl, inr, ◌≡◌, ◌≢◌, refl, ap,
  sym, ◌∙◌, arith,
}
use servicekit_go.Httpx.Envelope.{
  Json, error_calls, err_internal, status_internal_server_error, write_body,
}
use servicekit_go.Httpx.Recorder.{
  Writer, Call, set_header, write, write_header, hijack, flush, Recorder, recorder, recorder_writer,
  record_flush, record_write, record_write_header, after_hijack, record_hijack, call, direct, run,
  run_direct, logged_status,
}
use servicekit_go.Httpx.Recorder.Transparent.{run-run_direct}
use servicekit_go.Httpx.Recover.{Panic, abort_handler, other, recover}
use servicekit_go.Httpx.Recover.Committed.{
  is_taken, commits, any_commits, apology, recover-recovered,
}

-- The panic that goes on, and the value that is logged.
abbrev pub ends : Option Panic → Option Panic × Option Text
ends none = (none, none)
ends (some abort_handler) = (some abort_handler, none)
ends (some (other v)) = (none, some v)

pub ends-ne-abort : (p : Option Panic) → p ≢ some abort_handler → (ends p).0 ≡ none
ends-ne-abort none h = refl
ends-ne-abort (some abort_handler) h = absurd (h refl)
ends-ne-abort (some (other v)) h = refl

module _ (writer : Writer) (js : Json) where
  pub recover-ends :
      (x : List Call × Option Panic) (w : writer.State)
      → ((recover writer js x w).0, (recover writer js x w).1.0) ≡ ends x.1
  recover-ends (calls, none) w = ap (λ y. (y.0, y.1.0)) (recover-recovered writer js calls none w)
  recover-ends (calls, some abort_handler) w =
      ap (λ y. (y.0, y.1.0)) (recover-recovered writer js calls (some abort_handler) w)
  recover-ends (calls, some (other v)) w =
      ap (λ y. (y.0, y.1.0)) (recover-recovered writer js calls (some (other v)) w)

module _ (writer : Writer) where
  direct-recorder :
      (c : Call) (r : Recorder writer)
      → (direct (recorder_writer writer) c r).1 ≡ (call writer c r).1
  unfolding call record_flush
  direct-recorder (set_header k v) r = refl
  direct-recorder (write b) r = refl
  direct-recorder (write_header code) r = refl
  direct-recorder hijack r = refl
  direct-recorder flush r = refl

  run_direct-recorder :
      (cs : List Call) (r : Recorder writer)
      → (run_direct (recorder_writer writer) cs r).1 ≡ (run writer cs r).1
  unfolding run
  run_direct-recorder [] r = refl
  run_direct-recorder (c ∷ cs) r =
      ap (λ s. (run_direct (recorder_writer writer) cs s).1) (direct-recorder c r)
      ∙ run_direct-recorder cs (call writer c r).1

  run-inner :
      (cs : List Call) (r : Recorder writer)
      → (run writer cs r).1.inner ≡ (run_direct writer cs r.inner).1
  run-inner cs r = ap (λ s. s.1) (run-run_direct writer cs r)

  commits-recorder :
      (c : Call) (r : Recorder writer)
      → commits (recorder_writer writer) c r ≡ commits writer c r.inner
  unfolding record_flush record_hijack
  commits-recorder (set_header k v) r = refl
  commits-recorder (write b) r = refl
  commits-recorder (write_header code) r = refl
  commits-recorder hijack r = refl
  commits-recorder flush r = refl

  any_commits-recorder :
      (cs : List Call) (r : Recorder writer)
      → any_commits (recorder_writer writer) cs r ≡ any_commits writer cs r.inner
  unfolding call run
  any_commits-recorder [] r = refl
  any_commits-recorder (c ∷ cs) r =
      let rest =
        ap (any_commits (recorder_writer writer) cs) (direct-recorder c r)
        ∙ any_commits-recorder cs (call writer c r).1
        ∙ ap (any_commits writer cs) (ap (λ s. s.1) (run-run_direct writer (c ∷ []) r)) in
      cc (commits-recorder c r, rest)

  module _ (js : Json) where
    -- The calls that reach the client behind `Recover`.
    abbrev pub answered : List Call × Option Panic → writer.State → List Call
    answered (calls, none) w = calls
    answered (calls, some abort_handler) w = calls
    answered (calls, some (other v)) w = calls ++ apology writer js calls w

    apology-recorder :
        (calls : List Call) (r : Recorder writer)
        → apology (recorder_writer writer) js calls r ≡ apology writer js calls r.inner
    apology-recorder calls r = rw (any_commits-recorder calls r) refl

    pub recover-recorder :
        (x : List Call × Option Panic) (r : Recorder writer)
        → (recover (recorder_writer writer) js x r).1.1 ≡ (run writer (answered x r.inner) r).1
    recover-recorder (calls, none) r =
        ap (λ y. y.1.1) (recover-recovered (recorder_writer writer) js calls none r)
        ∙ run_direct-recorder calls r
    recover-recorder (calls, some abort_handler) r =
        ap (λ y. y.1.1) (recover-recovered (recorder_writer writer) js calls (some abort_handler) r)
        ∙ run_direct-recorder calls r
    recover-recorder (calls, some (other v)) r =
        ap (λ y. y.1.1) (recover-recovered (recorder_writer writer) js calls (some (other v)) r)
        ∙ ap (λ t. (run_direct (recorder_writer writer) (calls ++ t) r).1)
            (apology-recorder calls r)
        ∙ run_direct-recorder (calls ++ apology writer js calls r.inner) r

    recover-answered :
        (x : List Call × Option Panic) (w : writer.State)
        → (recover writer js x w).1.1 ≡ (run_direct writer (answered x w) w).1
    recover-answered (calls, none) w = ap (λ y. y.1.1) (recover-recovered writer js calls none w)
    recover-answered (calls, some abort_handler) w =
        ap (λ y. y.1.1) (recover-recovered writer js calls (some abort_handler) w)
    recover-answered (calls, some (other v)) w =
        ap (λ y. y.1.1) (recover-recovered writer js calls (some (other v)) w)

    after_hijack-hijacked :
        (answer : writer.Conn ⊎ writer.Error) (r : Recorder writer)
        → is_taken writer answer ≡ false
        → r.hijacked ≡ false
        → (after_hijack writer answer r).hijacked ≡ false
    unfolding after_hijack
    after_hijack-hijacked (inl conn) r h e = cc
    after_hijack-hijacked (inr err) r h e = e

    call-hijacked :
        (c : Call) (r : Recorder writer)
        → commits writer c r.inner ≡ false
        → r.hijacked ≡ false
        → (call writer c r).1.hijacked ≡ false
    unfolding call record_flush record_write record_write_header record_hijack after_hijack
    call-hijacked (set_header k v) r h e = e
    call-hijacked (write b) r h e = e
    call-hijacked (write_header code) r h e = e
    call-hijacked hijack r h e =
        after_hijack-hijacked (writer.hijack r.inner).0
          (record r { inner = (writer.hijack r.inner).1 }) h e
    call-hijacked flush r h e = e

    run-hijacked :
        (cs : List Call) (r : Recorder writer)
        → any_commits writer cs r.inner ≡ false
        → r.hijacked ≡ false
        → (run writer cs r).1.hijacked ≡ false
    unfolding run
    run-hijacked [] r h e = e
    run-hijacked (c ∷ cs) r h e =
        let inner : (call writer c r).1.inner ≡ (direct writer c r.inner).1 =
          unfold run in run-inner (c ∷ []) r in
        run-hijacked cs (call writer c r).1 (ap (any_commits writer cs) inner ∙ ground arith)
          (call-hijacked c r (ground arith) e)

    run-append :
        (cs ds : List Call) (r : Recorder writer)
        → (run writer (cs ++ ds) r).1 ≡ (run writer ds (run writer cs r).1).1
    unfolding run
    run-append [] ds r = refl
    run-append (c ∷ cs) ds r = run-append cs ds (call writer c r).1

    -- An envelope that is written sets the status.
    error_calls-status :
        (status : ℕ) (err : Text) (r : Recorder writer)
        → r.hijacked ≡ false
        → logged_status writer (run writer (error_calls js status err) r).1 ≡ status
    unfolding error_calls write_body run call record_write record_write_header logged_status
    error_calls-status status err r e = rw e refl

    pub answered-status :
        (calls : List Call) (v : Text) (w : writer.State) (log_body : Bool) (limit : ℕ)
        → any_commits writer calls w ≡ false
        → logged_status writer
            (run writer (answered (calls, some (other v)) w) (recorder writer w log_body limit)).1
          ≡ 500
    answered-status calls v w log_body limit h =
        let env = error_calls js status_internal_server_error err_internal in
        let r = recorder writer w log_body limit in
        rw (h, run-append calls env r)
          (error_calls-status status_internal_server_error err_internal (run writer calls r).1
            (run-hijacked calls r h refl))

    -- Through the recorder, `Recover` ends as on the client's writer, and leaves that in the same state.
    pub recover-same :
        (x : List Call × Option Panic) (r : Recorder writer)
        → (
          (recover (recorder_writer writer) js x r).0,
          (
            (recover (recorder_writer writer) js x r).1.0,
            (recover (recorder_writer writer) js x r).1.1.inner,
          ),
        )
          ≡ recover writer js x r.inner
    recover-same x r =
        let there = recover-ends (recorder_writer writer) js x r in
        let here = recover-ends writer js x r.inner in
        let state =
          ap (λ s. s.inner) (recover-recorder x r)
          ∙ run-inner (answered x r.inner) r
          ∙ sym (recover-answered x r.inner) in
        cc (ap (λ y. y.0) there, ap (λ y. y.1) there, ap (λ y. y.0) here, ap (λ y. y.1) here, state)
