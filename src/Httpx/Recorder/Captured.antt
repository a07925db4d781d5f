-- ===== src/Httpx/Recorder/Captured.antt =====
-- What the recorder captures.
use Prim.Native.Nat.{min}
use servicekit_go.Base.{
  ℕ, ◌-◌, ◌≤◌, Bool, true, false, List, [], ◌∷◌, ◌++◌, Text, take, take-append, take-take, take-all,
  length-take, length, append_assoc, append-nil, ltb, ◌==◌, if◌then◌else◌, ◌⊎◌, inl, inr, ◌≡◌, refl,
  sym, ap, ◌∙◌, arith, Bool-cases,
}
use servicekit_go.Httpx.Recorder.{
  Writer, Call, set_header, write, write_header, hijack, flush, record_flush, Recorder,
  status_switching_protocols, recorder, record_write, record_write_header, after_hijack,
  record_hijack, call, direct, run,
}

module _ (writer : Writer) where
  -- A call behind which the connection is no longer a response.
  abbrev is_taken : (writer.Conn ⊎ writer.Error) → Bool
  is_taken (inl conn) = true
  is_taken (inr err) = false

  abbrev pub switches : Call → writer.State → Bool
  switches (set_header k v) w = false
  switches (write b) w = false
  switches (write_header code) w = code == status_switching_protocols
  switches hijack w = is_taken (writer.hijack w).0
  switches flush w = false

  abbrev pub bytes : Call → Text
  bytes (set_header k v) = []
  bytes (write b) = b
  bytes (write_header code) = []
  bytes hijack = []
  bytes flush = []

  -- All that a handler writes before a call that switches protocols.
  abbrev pub response : List Call → writer.State → Text
  response [] w = []
  response (c ∷ cs) w =
      let rest = response cs (direct writer c w).1 in if switches c w then [] else bytes c ++ rest

  take-min : (n : ℕ) (b : Text) → take (min (length b) n) b ≡ take n b
  take-min n b = elim (Bool-cases (ltb (length b) n)) [
    | inl lt ↦
        ap (λ m. take m b) (ground arith)
        ∙ take-all (length b) b (omega arith)
        ∙ sym (take-all n b (ground arith))
    | inr ge ↦ ap (λ m. take m b) (ground arith)
  ]

  no_room :
      (r : Recorder writer)
      → length r.body ≤ r.limit
      → ltb (length r.body) r.limit ≡ false
      → r.limit - length r.body ≡ 0
  no_room r h ge = ground arith

  stays : (r : Recorder writer) → length r.body ≤ r.limit → r.body ≡ take r.limit (r.body ++ [])
  stays r h = sym (ap (take r.limit) (append-nil r.body) ∙ take-all r.limit r.body h)

  record_write-body :
      (b : Text) (r : Recorder writer)
      → r.capture ≡ true
      → length r.body ≤ r.limit
      → (record_write writer b r).1.body ≡ take r.limit (r.body ++ b)
  unfolding record_write take
  record_write-body b r on h = elim (Bool-cases (ltb (length r.body) r.limit)) [
    | inl lt ↦
        rw (on, lt)
          (ap (λ t. r.body ++ t) (take-min (r.limit - length r.body) b)
            ∙ sym (take-append r.limit r.body b h))
    | inr ge ↦
        rw (on, ge)
          (sym (
            take-append r.limit r.body b h
            ∙ ap (λ m. r.body ++ take m b) (no_room r h ge)
            ∙ append-nil r.body))
  ]

  after_hijack-off :
      (answer : writer.Conn ⊎ writer.Error) (r : Recorder writer)
      → r.capture ≡ false
      → ((after_hijack writer answer r).body ≡ r.body)
        × ((after_hijack writer answer r).capture ≡ false)
  unfolding after_hijack
  after_hijack-off (inl conn) r off = (refl, refl)
  after_hijack-off (inr err) r off = (refl, off)

  after_hijack-taken :
      (answer : writer.Conn ⊎ writer.Error) (r : Recorder writer)
      → is_taken answer ≡ true
      → ((after_hijack writer answer r).body ≡ r.body)
        × ((after_hijack writer answer r).capture ≡ false)
  unfolding after_hijack
  after_hijack-taken (inl conn) r h = (refl, refl)
  after_hijack-taken (inr err) r h = cc

  after_hijack-refused :
      (answer : writer.Conn ⊎ writer.Error) (r : Recorder writer)
      → is_taken answer ≡ false
      → after_hijack writer answer r ≡ r
  unfolding after_hijack
  after_hijack-refused (inl conn) r h = cc
  after_hijack-refused (inr err) r h = refl

  call-off :
      (c : Call) (r : Recorder writer)
      → r.capture ≡ false
      → ((call writer c r).1.body ≡ r.body) × ((call writer c r).1.capture ≡ false)
  unfolding call record_flush record_write record_write_header record_hijack
  call-off (set_header k v) r off = (refl, off)
  call-off (write b) r off = (rw off refl, off)
  call-off (write_header code) r off = (refl, ground arith)
  call-off hijack r off =
      after_hijack-off (writer.hijack r.inner).0 (record r { inner = (writer.hijack r.inner).1 })
        off
  call-off flush r off = (refl, off)

  run-off :
      (cs : List Call) (r : Recorder writer) → r.capture ≡ false → (run writer cs r).1.body ≡ r.body
  unfolding run
  run-off [] r off = refl
  run-off (c ∷ cs) r off =
      run-off cs (call writer c r).1 (call-off c r off).1 ∙ (call-off c r off).0

  call-switches :
      (c : Call) (r : Recorder writer)
      → switches c r.inner ≡ true
      → ((call writer c r).1.body ≡ r.body) × ((call writer c r).1.capture ≡ false)
  unfolding call record_flush record_write_header record_hijack
  call-switches (set_header k v) r s = cc
  call-switches (write b) r s = cc
  call-switches (write_header code) r s = (refl, rw s refl)
  call-switches hijack r s =
      after_hijack-taken (writer.hijack r.inner).0 (record r { inner = (writer.hijack r.inner).1 })
        s
  call-switches flush r s = cc

  call-on :
      (c : Call) (r : Recorder writer)
      → switches c r.inner ≡ false
      → r.capture ≡ true
      → length r.body ≤ r.limit
      → ((call writer c r).1.body ≡ take r.limit (r.body ++ bytes c))
        × ((call writer c r).1.capture ≡ true)
        × ((call writer c r).1.limit ≡ r.limit)
        × ((call writer c r).1.inner ≡ (direct writer c r.inner).1)
  unfolding call record_flush record_write_header record_hijack record_write
  call-on (set_header k v) r s on h = (stays r h, on, refl, refl)
  call-on (write b) r s on h = (record_write-body b r on h, on, refl, refl)
  call-on (write_header code) r s on h = (stays r h, rw s on, refl, refl)
  call-on hijack r s on h =
      let same =
        after_hijack-refused (writer.hijack r.inner).0
          (record r { inner = (writer.hijack r.inner).1 }) s in
      (
        ap (λ r. r.body) same ∙ stays r h,
        ap (λ r. r.capture) same ∙ on,
        ap (λ r. r.limit) same,
        ap (λ r. r.inner) same,
      )
  call-on flush r s on h = (stays r h, on, refl, refl)

  run-on :
      (cs : List Call) (r : Recorder writer)
      → r.capture ≡ true
      → length r.body ≤ r.limit
      → (run writer cs r).1.body ≡ take r.limit (r.body ++ response cs r.inner)
  unfolding run
  run-on [] r on h = sym (ap (take r.limit) (append-nil r.body) ∙ take-all r.limit r.body h)
  run-on (c ∷ cs) r on h = elim (Bool-cases (switches c r.inner)) [
    | inl s ↦ rw s (
        run-off cs (call writer c r).1 (call-switches c r s).1
        ∙ (call-switches c r s).0
        ∙ stays r h)
    | inr s ↦
        let (body, on', limit, inner) = call-on c r s on h in
        rw s (
          run-on cs (call writer c r).1 on'
            (rw (body, limit) (length-take r.limit (r.body ++ bytes c)))
          ∙ rw (body, limit, inner)
              (take-take r.limit (r.body ++ bytes c) (response cs (direct writer c r.inner).1))
          ∙ ap (take r.limit)
              (append_assoc r.body (bytes c) (response cs (direct writer c r.inner).1)))
  ]

  -- The recorder of `Record` captures the front of what the handler writes, up to the limit and up to
  -- a switch of protocols by a status or by `Hijack`, and nothing if bodies are not logged.
  pub run-response :
      (cs : List Call) (w : writer.State) (log_body : Bool) (max_body : ℕ)
      → (run writer cs (recorder writer w log_body max_body)).1.body
        ≡ take max_body (if log_body then response cs w else [])
  run-response cs w true max_body = run-on cs (recorder writer w true max_body) refl (omega arith)
  run-response cs w false max_body =
      run-off cs (recorder writer w false max_body) refl ∙ sym (take-all max_body [] (omega arith))
