-- ===== src/Router/Pipeline.antt =====
-- The order of preprocessors and handler in `callHandler` of pkg/server/router/common.go.
use skygear_server.Common.{
  ℕ, ◌≡◌, ◌≢◌, ◌⊎◌, inl, inr, refl, ap, sym, ◌∙◌, Option, none, some, List, [], ◌∷◌,
}
use skygear_server.Skyerr.{Error}
use skygear_server.Router.{
  Payload, Response, Processor, Handler, Step, returned, panicked, handled, call_loop, after_step,
  unless_error, recovered, stopped, call_handler, status_ok,
}

-- Every preprocessor returned, in order, and left no error; the status is that of the last one.
pub data Passes : List Processor → ℕ → Payload → Response → ℕ → Payload → Response → Type 0 where
  done :
      {status : ℕ} {payload : Payload} {response : Response}
      → Passes [] status payload response status payload response
  next :
      {p : Processor} {pp : List Processor} {s s' s'' : ℕ} {a a' a'' : Payload}
      {r r' r'' : Response}
      → p a r ≡ returned s' a' r'
      → r'.err ≡ none
      → Passes pp s' a' r' s'' a'' r''
      → Passes (p ∷ pp) s a r s'' a'' r''

-- The handler was called after all preprocessors passed, or it was not called, and an error is set.
abbrev Called : List Processor → Handler → ℕ → Payload → Response → Type 0
Called pp handler s a r =
    ((s' : ℕ) × (a' : Payload) × (r' : Response) × Passes pp s a r s' a' r'
      × (call_loop pp handler s a r ≡ handled s' (handler a' r')))
    ⊎ (((other : Handler) → call_loop pp other s a r ≡ call_loop pp handler s a r)
        × ((call_loop pp handler s a r).1.err ≢ none))

module _ (p : Processor) (pp : List Processor) (s : ℕ) (a : Payload) (r : Response) where
  loop_returned :
      (handler : Handler) (err : Option Error) (s' : ℕ) (a' : Payload) (r' : Response)
      → p a r ≡ returned s' a' r'
      → r'.err ≡ err
      → call_loop (p ∷ pp) handler s a r ≡ unless_error err (call_loop pp handler) s' a' r'
  unfolding call_loop after_step
  loop_returned handler err s' a' r' q w =
      ap (after_step (call_loop pp handler)) q
      ∙ ap (λ e. unless_error e (call_loop pp handler) s' a' r') w

  loop_panicked :
      (handler : Handler) (r' : Response) (e : Error)
      → p a r ≡ panicked r' e
      → call_loop (p ∷ pp) handler s a r ≡ recovered r' e
  unfolding call_loop after_step
  loop_panicked handler r' e q = ap (after_step (call_loop pp handler)) q

  -- The loop ended in this round with the same outcome, which has an error, for every handler.
  Called-of_end :
      (handler : Handler) (o : ℕ × Response) (e : Error)
      → ((other : Handler) → call_loop (p ∷ pp) other s a r ≡ o)
      → o.1.err ≡ some e
      → Called (p ∷ pp) handler s a r
  Called-of_end handler o e same h = inr (
    λ other. same other ∙ sym (same handler),
    λ none_here. absurd (cc (h, none_here, ap (λ (x : ℕ × Response). x.1.err) (same handler))),
  )

  Called-of_returned :
      (handler : Handler) (err : Option Error) (s' : ℕ) (a' : Payload) (r' : Response)
      → p a r ≡ returned s' a' r'
      → r'.err ≡ err
      → Called pp handler s' a' r'
      → Called (p ∷ pp) handler s a r
  unfolding unless_error
  Called-of_returned handler (some e) s' a' r' q w ih =
      Called-of_end handler (stopped s' r' e) e (λ other. loop_returned other (some e) s' a' r' q w)
        w
  Called-of_returned handler none s' a' r' q w ih = elim ih [
    | inl (s'', a'', r'', passes, eq) ↦
        inl (s'', a'', r'', Passes.next q w passes, loop_returned handler none s' a' r' q w ∙ eq)
    | inr (same, err) ↦ inr (
      λ other.
          loop_returned other none s' a' r' q w
          ∙ same other
          ∙ sym (loop_returned handler none s' a' r' q w),
      λ none_here. err (
          ap (λ (x : ℕ × Response). x.1.err) (sym (loop_returned handler none s' a' r' q w))
          ∙ none_here),
    )
  ]

  Called-of_step :
      (handler : Handler) (o : Step)
      → p a r ≡ o
      → ((s' : ℕ) (a' : Payload) (r' : Response) → Called pp handler s' a' r')
      → Called (p ∷ pp) handler s a r
  Called-of_step handler (panicked r' e) q ih =
      Called-of_end handler (recovered r' e) e (λ other. loop_panicked other r' e q) refl
  Called-of_step handler (returned s' a' r') q ih =
      Called-of_returned handler r'.err s' a' r' q refl (ih s' a' r')

call_loop_lem :
    (pp : List Processor) (handler : Handler) (s : ℕ) (a : Payload) (r : Response)
    → Called pp handler s a r
unfolding call_loop
call_loop_lem [] handler s a r = inl (s, a, r, Passes.done, refl)
call_loop_lem (p ∷ pp) handler s a r =
    Called-of_step p pp s a r handler (p a r) refl (λ s' a' r'. call_loop_lem pp handler s' a' r')

-- Either all preprocessors of a request return, in order and with no error set, and the answer is what
-- the handler makes of the payload and response that they leave, with the status of the last of them
-- (200 if there is none); or the answer is the same for every handler, and has an error.
pub call_handler_lem :
    (pp : List Processor) (handler : Handler) (a : Payload) (r : Response)
    → ((s' : ℕ) × (a' : Payload) × (r' : Response) × Passes pp status_ok a r s' a' r'
        × (call_handler handler pp a r ≡ handled s' (handler a' r')))
      ⊎ (((other : Handler) → call_handler other pp a r ≡ call_handler handler pp a r)
          × ((call_handler handler pp a r).1.err ≢ none))
unfolding call_handler
call_handler_lem pp handler a r = call_loop_lem pp handler status_ok a r
