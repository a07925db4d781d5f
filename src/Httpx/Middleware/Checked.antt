-- ===== src/Httpx/Middleware/Checked.antt =====
-- What the handler behind the middlewares gets.
use servicekit_go.Base.{
  ℕ, ◌≤◌, ◌<◌, Option, none, codes, true, [], ◌∷◌, Text, take, length, length-take, ltb, text_eq,
  text_eq_iff, some, if◌then◌else◌, ◌≡◌, ◌≢◌, false, ◌⊎◌, refl, arith, Bool-cases, inl, inr,
}
use servicekit_go.Httpx.Body.{Body}
use servicekit_go.Httpx.Envelope.{Json, error_calls, err_body_too_large}
use servicekit_go.Httpx.Header.{get, get-set}
use servicekit_go.Httpx.Middleware.{
  Request, Handler, correlation_id_header, correlation_id, max_bytes_reader, declares_more,
  max_body,
}
use servicekit_go.Httpx.Recorder.{set_header}

text_eq-ne : (s t : Text) → text_eq s t ≡ false → s ≢ t
text_eq-ne s t e z = cc ((text_eq_iff s t).1 z, e)

chosen :
    (sent new_id : Text)
    → ((sent ≢ []) × ((if text_eq sent [] then new_id else sent) ≡ sent))
      ⊎ ((sent ≡ []) × ((if text_eq sent [] then new_id else sent) ≡ new_id))
chosen sent new_id = elim (Bool-cases (text_eq sent [])) [
  | inl e ↦ inr ((text_eq_iff _ _).0 e, rw e refl)
  | inr e ↦ inl (text_eq-ne sent [] e, rw e refl)
]

max_bytes_reader-bound :
    (n : ℕ) (b : Body)
    → (length (max_bytes_reader n b).bytes ≤ n)
      × (((length b.bytes ≤ n) × (max_bytes_reader n b ≡ b))
          ⊎ ((n < length b.bytes)
              × ((max_bytes_reader n b).bytes ≡ take n b.bytes)
              × ((max_bytes_reader n b).failure ≡ some (codes "http: request body too large"))))
unfolding max_bytes_reader
max_bytes_reader-bound n b = elim (Bool-cases (ltb n (length b.bytes))) [
  | inl more ↦ rw more (length-take n b.bytes, inr (ground arith, refl, refl))
  | inr fits ↦ rw fits (ground arith, inl (ground arith, refl))
]

-- Every request gets one correlation id, the one that was sent or else a new one: the response
-- carries it, and the handler finds it in the context and in the header.
pub correlation_id-agrees :
    (new_id : Text) (next : Handler) (r : Request)
    → (id : Text) × (r' : Request) × (correlation_id new_id next r
        ≡ set_header correlation_id_header id ∷ next r')
      × (get r'.header correlation_id_header ≡ id)
      × (r'.correlation ≡ some id)
      × (((get r.header correlation_id_header ≢ []) × (id ≡ get r.header correlation_id_header))
          ⊎ ((get r.header correlation_id_header ≡ []) × (id ≡ new_id)))
unfolding correlation_id
correlation_id-agrees new_id next r = (
  _,
  _,
  refl,
  get-set r.header correlation_id_header _,
  refl,
  chosen (get r.header correlation_id_header) new_id,
)

-- The request declares a body of more than `n` bytes.
abbrev pub Declares : Option ℕ → ℕ → Type 0
Declares none n = ⊥
Declares (some l) n = n < l

declares_more-Declares :
    (o : Option ℕ) (n : ℕ)
    → ((declares_more o n ≡ true) × Declares o n) ⊎ ((declares_more o n ≡ false) × (¬ Declares o n))
unfolding declares_more
declares_more-Declares none n = inr (refl, λ h. h)
declares_more-Declares (some l) n = elim (Bool-cases (ltb n l)) [
  | inl e ↦ inl (e, ground arith)
  | inr e ↦ inr (e, λ h. ground arith)
]

-- A body beyond the bound never reaches the handler: exactly the requests that declare more are
-- answered with status 413, and no handler runs. In all other cases the handler reads the body itself
-- if it fits, and else its first `n` bytes and then the error of a body that is too large.
pub max_body-bound :
    (js : Json) (n : ℕ) (next : Handler) (r : Request)
    → (Declares r.content_length n × (max_body js n next r ≡ error_calls js 413 err_body_too_large))
      ⊎ ((¬ Declares r.content_length n)
          × ((b : Body) × (max_body js n next r ≡ next (record r { body = b }))
              × (length b.bytes ≤ n)
              × (((length r.body.bytes ≤ n) × (b ≡ r.body))
                  ⊎ ((n < length r.body.bytes)
                      × (b.bytes ≡ take n r.body.bytes)
                      × (b.failure ≡ some (codes "http: request body too large"))))))
unfolding max_body
max_body-bound js n next r = elim (declares_more-Declares r.content_length n) [
  | inl (e, more) ↦ inl (more, rw e refl)
  | inr (e, fits) ↦
      let (short, whole) = max_bytes_reader-bound n r.body in
      inr (fits, (max_bytes_reader n r.body, rw e refl, short, whole))
]
