-- ===== src/Httpx/Recorder/Transparent.antt =====
-- The recorder changes nothing of what the handler and the client see.
use servicekit_go.Base.{List, [], ◌∷◌, inl, inr, ◌≡◌, refl, ap, ◌∙◌, ◌⊎◌}
use servicekit_go.Httpx.Recorder.{
  Writer, Call, set_header, write, write_header, hijack, flush, record_flush, taken, Recorder,
  record_write, record_write_header, after_hijack, record_hijack, call, direct, run, run_direct,
}

module _ (writer : Writer) where
  after_hijack-inner :
      (answer : writer.Conn ⊎ writer.Error) (r : Recorder writer)
      → (after_hijack writer answer r).inner ≡ r.inner
  unfolding after_hijack
  after_hijack-inner (inl conn) r = refl
  after_hijack-inner (inr err) r = refl

  call-direct :
      (c : Call) (r : Recorder writer)
      → ((call writer c r).0, (call writer c r).1.inner) ≡ direct writer c r.inner
  unfolding call record_flush record_write record_write_header record_hijack
  call-direct (set_header k v) r = refl
  call-direct (write b) r = refl
  call-direct (write_header code) r = refl
  call-direct hijack r =
      ap (λ w. (taken (writer.hijack r.inner).0, w))
        (after_hijack-inner (writer.hijack r.inner).0
          (record r { inner = (writer.hijack r.inner).1 }))
  call-direct flush r = refl

  -- Whatever a handler calls, in any order, each call answers through the recorder as the writer
  -- itself would, and the writer ends in the same state.
  pub run-run_direct :
      (cs : List Call) (r : Recorder writer)
      → ((run writer cs r).0, (run writer cs r).1.inner) ≡ run_direct writer cs r.inner
  unfolding run
  run-run_direct [] r = refl
  run-run_direct (c ∷ cs) r =
      let step = call-direct c r in
      let rest = run-run_direct cs (call writer c r).1 ∙ ap (λ s. run_direct writer cs s.1) step in
      cc (ap (λ s. s.0) step, ap (λ s. s.0) rest, ap (λ s. s.1) rest)
