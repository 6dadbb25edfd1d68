-- ===== src/Web/Answers.antt =====
-- A request gets one answer, that of the first to send one.
use nodejs_template.Prelude.{
  ◌≡◌, refl, ℕ, Option, none, some, List, [], ◌∷◌, map, arith, if◌then◌else◌, ◌≢◌, ◌++◌, ap, sym,
  ◌∙◌,
}
use nodejs_template.Value.{Value}
use nodejs_template.Flow.Reference.{chain, make_flow-chain}
use nodejs_template.Web.{
  Response, Body, response_body, bad_gateway, server_error, Reply, Request, Outcome, returned,
  threw, Run, RouteMiddleware, Payload, set_status, send, set_headers, reply_all, respond, adapted,
  adapt_middleware, normalize_request_casing, with_state, run_flow, after_route, adapter_with_flow,
}

module _ {E : Type 0} where
  -- The reply at the end of the middlewares, or where one does not go on.
  unfoldable pub ended : Reply E → Reply E
  unfolding send set_status
  ended r = elim r.sent [ some answer ↦ r | none ↦ send bad_gateway (set_status 502 r) ]

  -- The reply of the middlewares in order, described without the flow.
  unfoldable pub serve : Payload E → List (RouteMiddleware E) → Reply E
  unfolding ended adapt_middleware adapted send set_status
  serve p [] = ended p.reply
  serve p (m ∷ ms) =
      let run = m p.request p.reply in
      let after = (adapt_middleware m p).after in
      let rest = serve after ms in
      elim run.outcome [
        | threw error ↦ send (server_error error) (set_status 500 after.reply)
        | returned response ↦ if run.next_was_called then rest else ended after.reply
      ]

  abbrev pub prepared : Request → Reply E → Payload E
  prepared request reply = record {
    request = normalize_request_casing (record request { state = with_state request.state });
    reply = reply;
  }

  serve-chain :
      (p : Payload E) (ms : List (RouteMiddleware E))
      → let (d, how) = chain p (map adapt_middleware ms) in
        after_route (some how) d.reply ≡ serve p ms
  unfolding chain serve after_route adapt_middleware adapted
  serve-chain p [] = refl
  serve-chain p (m ∷ ms) = ground (arith, serve-chain (adapt_middleware m p).after ms)

  -- The reply to a request is what the middlewares make of it one after the other, up to the first
  -- that does not call `next` or throws: a server error where one throws, and a bad gateway where
  -- the chain ends and none has answered.
  pub adapter_with_flow-serve :
      (middlewares : List (RouteMiddleware E)) (request : Request) (reply : Reply E)
      → (adapter_with_flow middlewares request reply).reply
        ≡ serve (prepared request reply) middlewares
  unfolding adapter_with_flow run_flow
  adapter_with_flow-serve middlewares request reply =
      let (shared, how) =
        make_flow-chain (prepared request reply) (map adapt_middleware middlewares) in
      rw (shared, how) (serve-chain (prepared request reply) middlewares)

  -- What a reply has sent stays.
  send-stays :
      (body : Body E) (r : Reply E) (a : ℕ × Body E) → r.sent ≡ some a → (send body r).sent ≡ some a
  unfolding send
  send-stays body r a h = ground arith

  reply_all-stays :
      (bodies : List (ℕ × Value)) (r : Reply E) (a : ℕ × Body E)
      → r.sent ≡ some a
      → (reply_all bodies r).sent ≡ some a
  unfolding reply_all set_status
  reply_all-stays [] r a h = h
  reply_all-stays ((code, body) ∷ rest) r a h =
      reply_all-stays rest (send (response_body body) (set_status code r)) a
        (send-stays (response_body body) (set_status code r) a h)

  respond-stays :
      (response : Option Response) (r : Reply E) (a : ℕ × Body E)
      → r.sent ≡ some a
      → (respond response r).sent ≡ some a
  unfolding respond set_headers set_status send
  respond-stays none r a h = h
  respond-stays (some response) r a h = ground arith

  adapted-stays :
      (outcome : Outcome E) (run : Run E) (p : Payload E) (a : ℕ × Body E)
      → p.reply.sent ≡ some a
      → (adapted outcome run p).after.reply.sent ≡ some a
  unfolding adapted
  adapted-stays (returned response) run p a h =
      respond-stays response (reply_all run.replied p.reply) a
        (reply_all-stays run.replied p.reply a h)
  adapted-stays (threw error) run p a h = reply_all-stays run.replied p.reply a h

  serve-stays :
      (p : Payload E) (ms : List (RouteMiddleware E)) (a : ℕ × Body E)
      → p.reply.sent ≡ some a
      → (serve p ms).sent ≡ some a
  unfolding serve adapt_middleware ended
  serve-stays p [] a h = ground arith
  serve-stays p (m ∷ ms) a h =
      let run = m p.request p.reply in
      let stays = adapted-stays run.outcome run p a h in
      ground (arith, stays, serve-stays (adapted run.outcome run p).after ms a stays)

  send-answered : (body : Body E) (r : Reply E) → (send body r).sent ≢ none
  unfolding send
  send-answered body r = ground arith

  ended-answered : (r : Reply E) → (ended r).sent ≢ none
  unfolding ended
  ended-answered r = ground (arith, send-answered bad_gateway (set_status 502 r))

  serve-answered : (p : Payload E) (ms : List (RouteMiddleware E)) → (serve p ms).sent ≢ none
  unfolding serve adapt_middleware
  serve-answered p [] = ended-answered p.reply
  serve-answered p (m ∷ ms) =
      let run = m p.request p.reply in
      let after = (adapted run.outcome run p).after in
      ground (
        arith,
        serve-answered after ms,
        ended-answered after.reply,
        λ (e : E). send-answered (server_error e) (set_status 500 after.reply),
      )

  -- Every request to a route whose middlewares all settle is answered.
  adapter_with_flow-answered :
      (middlewares : List (RouteMiddleware E)) (request : Request) (reply : Reply E)
      → (adapter_with_flow middlewares request reply).reply.sent ≢ none
  adapter_with_flow-answered middlewares request reply =
      rw (adapter_with_flow-serve middlewares request reply)
        (serve-answered (prepared request reply) middlewares)

  ended-sent :
      (r : Reply E) (code : ℕ) (body : Body E)
      → (ended r).sent ≡ some (code, body)
      → body ≢ bad_gateway
      → r.sent ≡ some (code, body)
  unfolding ended send
  ended-sent r code body h n = ground (arith, n)

  serve-append :
      (p : Payload E) (before after : List (RouteMiddleware E)) (code : ℕ) (body : Body E)
      → (serve p before).sent ≡ some (code, body)
      → body ≢ bad_gateway
      → (serve p (before ++ after)).sent ≡ some (code, body)
  unfolding serve adapt_middleware
  serve-append p [] after code body h n =
      serve-stays p after (code, body) (ended-sent p.reply code body h n)
  serve-append p (m ∷ before) after code body h n =
      let run = m p.request p.reply in
      ground (arith, serve-append (adapted run.outcome run p).after before after code body, n)

  -- An answer that the first middlewares of a route give, other than the bad gateway, is the answer
  -- of the whole route, whatever middlewares follow and whatever they send.
  adapter_with_flow-append :
      (before after : List (RouteMiddleware E)) (request : Request) (reply : Reply E) (code : ℕ)
      (body : Body E)
      → (adapter_with_flow before request reply).reply.sent ≡ some (code, body)
      → body ≢ bad_gateway
      → (adapter_with_flow (before ++ after) request reply).reply.sent ≡ some (code, body)
  adapter_with_flow-append before after request reply code body h n =
      let e = adapter_with_flow-serve before request reply in
      rw (adapter_with_flow-serve (before ++ after) request reply) (
        serve-append (prepared request reply) before after code body
          (ap (λ (r : Reply E). r.sent) (sym e) ∙ h) n)
