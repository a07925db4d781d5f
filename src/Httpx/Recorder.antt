-- ===== src/Httpx/Recorder.antt =====
-- httpx/record.go: the recorder of a response. A body is the list of its bytes.
pub mod Captured
pub mod Transparent
use Prim.Native.Nat.{min}
use servicekit_go.Base.{
  ℕ, ◌+◌, ◌-◌, Bool, true, false, ◌&&◌, List, [], ◌∷◌, ◌++◌, Text, take, length, Option, ltb, ◌==◌,
  if◌then◌else◌, ◌⊎◌, inl, inr,
}

-- A response writer: what a write answers, and what `Hijack` and `Flush` of its response controller do.
pub record Writer : Type 1 where
  pub State : Type 0
  pub Written : Type 0
  pub Conn : Type 0
  pub Error : Type 0
  pub set_header : Text → Text → State → State
  pub write : Text → State → Written × State
  pub write_header : ℕ → State → State
  pub hijack : State → (Conn ⊎ Error) × State
  pub flush : State → Option Error × State

-- `http.StatusOK` and `http.StatusSwitchingProtocols`
abbrev pub status_ok : ℕ
status_ok = 200

abbrev pub status_switching_protocols : ℕ
status_switching_protocols = 101

-- The methods of a response writer that change something, as a handler calls them; `set_header` is
-- `w.Header().Set`.
pub data Call : Type 0 where
  set_header : Text → Text → Call
  write : Text → Call
  write_header : ℕ → Call
  hijack : Call
  flush : Call

module _ (writer : Writer) where
  pub record Recorder : Type 0 where
    pub inner : writer.State
    pub status : ℕ
    pub body : Text
    pub capture : Bool
    pub limit : ℕ
    pub hijacked : Bool

  pub data Answer : Type 0 where
    written : writer.Written → Answer
    nothing : Answer
    taken : writer.Conn ⊎ writer.Error → Answer
    flushed : Option writer.Error → Answer

  -- `&recorder{…}` in `Record`
  abbrev pub recorder : writer.State → Bool → ℕ → Recorder
  recorder w log_body max_body = record {
    inner = w;
    status = status_ok;
    body = [];
    capture = log_body;
    limit = max_body;
    hijacked = false;
  }

  unfoldable pub record_write : Text → Recorder → writer.Written × Recorder
  record_write b r =
      let room = r.limit - length r.body in
      let body =
        if r.capture && ltb (length r.body) r.limit
        then r.body ++ take (min (length b) room) b
        else r.body in
      let (answer, inner) = writer.write b r.inner in
      (answer, record r { inner = inner; body = body })

  unfoldable pub record_write_header : ℕ → Recorder → Recorder
  record_write_header code r =
      let capture = if code == status_switching_protocols then false else r.capture in
      record r { status = code; capture = capture; inner = writer.write_header code r.inner }

  -- What `Hijack` does with the answer of the controller.
  unfoldable pub after_hijack : (writer.Conn ⊎ writer.Error) → Recorder → Recorder
  after_hijack (inl conn) r = record r { hijacked = true; capture = false }
  after_hijack (inr err) r = r

  unfoldable pub record_hijack : Recorder → (writer.Conn ⊎ writer.Error) × Recorder
  record_hijack r =
      let (answer, inner) = writer.hijack r.inner in
      (answer, after_hijack answer (record r { inner = inner }))

  -- The response controller finds the inner writer behind `Unwrap`.
  unfoldable pub record_flush : Recorder → Option writer.Error × Recorder
  record_flush r =
      let (answer, inner) = writer.flush r.inner in (answer, record r { inner = inner })

  -- One call, on the recorder and on the writer itself.
  unfoldable pub call : Call → Recorder → Answer × Recorder
  call (set_header k v) r = (nothing, record r { inner = writer.set_header k v r.inner })
  call (write b) r = let (answer, r') = record_write b r in (written answer, r')
  call (write_header code) r = (nothing, record_write_header code r)
  call hijack r = let (answer, r') = record_hijack r in (taken answer, r')
  call flush r = let (answer, r') = record_flush r in (flushed answer, r')

  abbrev pub direct : Call → writer.State → Answer × writer.State
  direct (set_header k v) w = (nothing, writer.set_header k v w)
  direct (write b) w = let (answer, w') = writer.write b w in (written answer, w')
  direct (write_header code) w = (nothing, writer.write_header code w)
  direct hijack w = let (answer, w') = writer.hijack w in (taken answer, w')
  direct flush w = let (answer, w') = writer.flush w in (flushed answer, w')

  -- A handler's calls, with the answers.
  unfoldable pub run : List Call → Recorder → List Answer × Recorder
  run [] r = ([], r)
  run (c ∷ cs) r =
      let (answer, r') = call c r in let (answers, r'') = run cs r' in (answer ∷ answers, r'')

  abbrev pub run_direct : List Call → writer.State → List Answer × writer.State
  run_direct [] w = ([], w)
  run_direct (c ∷ cs) w =
      let (answer, w') = direct c w in
      let (answers, w'') = run_direct cs w' in (answer ∷ answers, w'')

  -- The status that `Record` logs.
  unfoldable pub logged_status : Recorder → ℕ
  logged_status r = if r.hijacked then status_switching_protocols else r.status

  -- The recorder as the response writer that a handler gets.
  abbrev pub recorder_writer : Writer
  recorder_writer = record {
    State = Recorder;
    Written = writer.Written;
    Conn = writer.Conn;
    Error = writer.Error;
    set_header = λ k v r. record r { inner = writer.set_header k v r.inner };
    write = record_write;
    write_header = record_write_header;
    hijack = record_hijack;
    flush = record_flush;
  }
