-- ===== src/Httpx/Recover/Committed.antt =====
-- What `Recover` does to a response.
use servicekit_go.Base.{
  Bool, true, false, ◌||◌, List, [], ◌∷◌, ◌++◌, Text, Option, none, some, if◌then◌else◌, ◌⊎◌, inl,
  inr, ◌≡◌, refl, ap, sym, ◌∙◌, arith, Bool-cases, append-nil,
}
use servicekit_go.Httpx.Envelope.{Json, error_calls, err_internal, status_internal_server_error}
use servicekit_go.Httpx.Recorder.{
  Writer, Call, set_header, write, write_header, hijack, flush, direct, run_direct,
}
use servicekit_go.Httpx.Recover.{
  Panic, abort_handler, other, CommitWriter, commit_if_ok, commit_if_taken, commit_call, commit_run,
  deferred, recover,
}

module _ (writer : Writer) where
  abbrev pub is_taken : (writer.Conn ⊎ writer.Error) → Bool
  is_taken (inl conn) = true
  is_taken (inr err) = false

  abbrev is_ok : Option writer.Error → Bool
  is_ok none = true
  is_ok (some err) = false

  -- A call that gives the client something, or takes the connection over.
  abbrev pub commits : Call → writer.State → Bool
  commits (set_header k v) w = false
  commits (write b) w = true
  commits (write_header code) w = true
  commits hijack w = is_taken (writer.hijack w).0
  commits flush w = is_ok (writer.flush w).0

  abbrev pub any_commits : List Call → writer.State → Bool
  any_commits [] w = false
  any_commits (c ∷ cs) w = commits c w || any_commits cs (direct writer c w).1

  abbrev after : Call → CommitWriter writer → CommitWriter writer
  after c w = record {
    inner = (direct writer c w.inner).1;
    committed = w.committed || commits c w.inner;
  }

  or_false : (w : CommitWriter writer) → (w.committed || false) ≡ w.committed
  or_false w = ground arith

  or_true : (w : CommitWriter writer) → (w.committed || true) ≡ true
  or_true w = ground arith

  commit_if_taken-after :
      (answer : writer.Conn ⊎ writer.Error) (w : CommitWriter writer)
      → commit_if_taken writer answer w ≡ record w { committed = w.committed || is_taken answer }
  unfolding commit_if_taken
  commit_if_taken-after (inl conn) w = ap (λ b. record w { committed = b }) (sym (or_true w))
  commit_if_taken-after (inr err) w = ap (λ b. record w { committed = b }) (sym (or_false w))

  commit_if_ok-after :
      (answer : Option writer.Error) (w : CommitWriter writer)
      → commit_if_ok writer answer w ≡ record w { committed = w.committed || is_ok answer }
  unfolding commit_if_ok
  commit_if_ok-after none w = ap (λ b. record w { committed = b }) (sym (or_true w))
  commit_if_ok-after (some err) w = ap (λ b. record w { committed = b }) (sym (or_false w))

  commit_call-after : (c : Call) (w : CommitWriter writer) → (commit_call writer c w).1 ≡ after c w
  unfolding commit_call
  commit_call-after (set_header k v) w =
      ap (λ b. record { inner = writer.set_header k v w.inner; committed = b }) (sym (or_false w))
  commit_call-after (write b) w =
      ap (λ c. record { inner = (writer.write b w.inner).1; committed = c }) (sym (or_true w))
  commit_call-after (write_header code) w =
      ap (λ c. record { inner = writer.write_header code w.inner; committed = c }) (sym (or_true w))
  commit_call-after hijack w =
      commit_if_taken-after (writer.hijack w.inner).0
        (record w { inner = (writer.hijack w.inner).1 })
  commit_call-after flush w =
      commit_if_ok-after (writer.flush w.inner).0 (record w { inner = (writer.flush w.inner).1 })

  or_assoc : (a b c : Bool) → ((a || b) || c) ≡ (a || (b || c))
  or_assoc a b c = ground arith

  commit_run-after :
      (cs : List Call) (w : CommitWriter writer)
      → (commit_run writer cs w).1 ≡ record {
        inner = (run_direct writer cs w.inner).1;
        committed = w.committed || any_commits cs w.inner;
      }
  unfolding commit_run
  commit_run-after [] w = ap (λ b. record w { committed = b }) (sym (or_false w))
  commit_run-after (c ∷ cs) w =
      ap (λ v. (commit_run writer cs v).1) (commit_call-after c w)
      ∙ commit_run-after cs (after c w)
      ∙ ap
          (λ b. record {
            inner = (run_direct writer cs (direct writer c w.inner).1).1;
            committed = b;
          })
          (or_assoc w.committed (commits c w.inner) (any_commits cs (direct writer c w.inner).1))

  run_direct-append :
      (cs ds : List Call) (w : writer.State)
      → (run_direct writer (cs ++ ds) w).1 ≡ (run_direct writer ds (run_direct writer cs w).1).1
  run_direct-append [] ds w = refl
  run_direct-append (c ∷ cs) ds w = run_direct-append cs ds (direct writer c w).1

  module _ (js : Json) where
    -- What is added to a response behind a panic.
    abbrev pub apology : List Call → writer.State → List Call
    apology calls w =
        if any_commits calls w then [] else error_calls js status_internal_server_error err_internal

    -- The panic that goes on, the value that is logged, and the client's writer.
    abbrev pub recovered :
        List Call → Option Panic → writer.State → Option Panic × (Option Text × writer.State)
    recovered calls none w = (none, (none, (run_direct writer calls w).1))
    recovered calls (some abort_handler) w =
        (some abort_handler, (none, (run_direct writer calls w).1))
    recovered calls (some (other v)) w =
        (none, (some v, (run_direct writer (calls ++ apology calls w) w).1))

    -- `Recover` leaves a handler that returns as it is and lets the panic that aborts silently go on.
    -- Any other panic ends there and is logged, and the response is what the handler has written,
    -- followed by an envelope with status 500 if and only if nothing has reached the client yet:
    -- nothing was written, flushed with success or taken over.
    pub recover-recovered :
        (calls : List Call) (ending : Option Panic) (w : writer.State)
        → recover writer js (calls, ending) w ≡ recovered calls ending w
    unfolding recover deferred
    recover-recovered calls none w =
        ap (λ cw. (none, (none, cw.inner)))
          (commit_run-after calls (record { inner = w; committed = false }))
    recover-recovered calls (some abort_handler) w =
        ap (λ cw. (some abort_handler, (none, cw.inner)))
          (commit_run-after calls (record { inner = w; committed = false }))
    recover-recovered calls (some (other v)) w =
        rw (commit_run-after calls (record { inner = w; committed = false }))
          (elim (Bool-cases (any_commits calls w)) [
            | inl e ↦
                rw e
                  (ap (λ t. (none, (some v, (run_direct writer t w).1))) (sym (append-nil calls)))
            | inr e ↦ rw e (
                ap (λ cw. (none, (some v, cw.inner)))
                  (commit_run-after (error_calls js status_internal_server_error err_internal)
                    (record { inner = (run_direct writer calls w).1; committed = false }))
                ∙ ap (λ s. (none, (some v, s)))
                    (sym (
                      run_direct-append calls
                        (error_calls js status_internal_server_error err_internal) w)))
          ])
