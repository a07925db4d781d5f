-- ===== src/Httpx/Recover.antt =====
-- httpx/middleware.go: `Recover`, with the writer that knows whether a response has begun.
pub mod Committed
pub mod Recorded
use servicekit_go.Base.{
  ℕ, Bool, true, false, ◌||◌, List, [], ◌∷◌, ◌++◌, Text, Option, none, some, if◌then◌else◌, ◌⊎◌,
  inl, inr, ◌≡◌, refl, ap, sym, ◌∙◌, arith, Bool-cases,
}
use servicekit_go.Httpx.Envelope.{Json, error_calls, err_internal, status_internal_server_error}
use servicekit_go.Httpx.Recorder.{
  Writer, Call, set_header, write, write_header, hijack, flush, Answer, nothing, written, taken,
  flushed, direct, run_direct,
}

-- What a panic carries: `http.ErrAbortHandler`, wrapped or not, or another value.
pub data Panic : Type 0 where
  abort_handler : Panic
  other : Text → Panic

module _ (writer : Writer) where
  pub record CommitWriter : Type 0 where
    pub inner : writer.State
    pub committed : Bool

  unfoldable pub commit_if_ok : Option writer.Error → CommitWriter → CommitWriter
  commit_if_ok (some err) w = w
  commit_if_ok none w = record w { committed = true }

  unfoldable pub commit_if_taken : (writer.Conn ⊎ writer.Error) → CommitWriter → CommitWriter
  commit_if_taken (inl conn) w = record w { committed = true }
  commit_if_taken (inr err) w = w

  unfoldable pub commit_call : Call → CommitWriter → Answer writer × CommitWriter
  commit_call (set_header k v) w = (nothing, record w { inner = writer.set_header k v w.inner })
  commit_call (write b) w =
      let (answer, inner) = writer.write b w.inner in
      (written answer, record { inner = inner; committed = true })
  commit_call (write_header code) w =
      (nothing, record { inner = writer.write_header code w.inner; committed = true })
  commit_call hijack w =
      let (answer, inner) = writer.hijack w.inner in
      (taken answer, commit_if_taken answer (record w { inner = inner }))
  commit_call flush w =
      let (answer, inner) = writer.flush w.inner in
      (flushed answer, commit_if_ok answer (record w { inner = inner }))

  unfoldable pub commit_run : List Call → CommitWriter → List (Answer writer) × CommitWriter
  commit_run [] w = ([], w)
  commit_run (c ∷ cs) w =
      let (answer, w') = commit_call c w in
      let (answers, w'') = commit_run cs w' in (answer ∷ answers, w'')

  module _ (js : Json) where
    -- The deferred function: the panic that goes on, the value that is logged, and the writer.
    unfoldable pub deferred :
        Option Panic → CommitWriter → Option Panic × (Option Text × CommitWriter)
    deferred none cw = (none, (none, cw))
    deferred (some abort_handler) cw = (some abort_handler, (none, cw))
    deferred (some (other v)) cw =
        let answered =
          (commit_run (error_calls js status_internal_server_error err_internal) cw).1 in
        if cw.committed then (none, (some v, cw)) else (none, (some v, answered))

    -- The handler that `Recover` returns, around one that makes calls and then returns or panics.
    unfoldable pub recover :
        List Call × Option Panic → writer.State → Option Panic × (Option Text × writer.State)
    recover (calls, ending) w =
        let cw = (commit_run calls (record { inner = w; committed = false })).1 in
        let (on, (logged, cw')) = deferred ending cw in (on, (logged, cw'.inner))
