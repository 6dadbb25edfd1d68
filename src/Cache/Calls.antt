-- ===== src/Cache/Calls.antt =====
-- Which clients are called.
use nodejs_template.Prelude.{
  ℕ, ◌≡◌, refl, sym, ap, ◌∙◌, true, false, Bool, none, some, List, [], ◌∷◌, ◌||◌, ◌&&◌, ◌⊎◌, arith,
  Bool-cases, All, inl, inr, Option-cases,
}
use nodejs_template.Rabbit.Delivery.{without}
use nodejs_template.Cache.{
  CacheServer, ClientCall, called_ping, called_close, called_get, called_delete, CacheEvent,
  credentials_set, connect_called, first_call_ended, ping_ended, contains, disconnect_called,
  define_called, get_called, delete_called, new_server, set_credentials, open_client, connect,
  call_client, disconnect, disconnected, checked, define, get, delete, step, run, is_falsy,
}

-- The calls that read or write keys.
abbrev pub is_data : ClientCall → Bool
is_data called_ping = false
is_data called_close = false
is_data _ = true

-- A client that reads or writes has answered its first call.
abbrev pub IsServed : List ℕ → ℕ × ClientCall → Type 0
IsServed answered (client, call) = is_data call ≡ true → contains client answered ≡ true

pub record IsLive (s : CacheServer) : Type 0 where
  pub server_answered :
      s.connected ≡ true
      → (client : ℕ) × (s.server ≡ some client) × (contains client s.answered ≡ true)
  pub served : All (IsServed s.answered) s.calls
  -- the first call that has not ended is that of the client in use
  pub alone :
      (s.pinging ≡ [])
      ⊎ ((client : ℕ) × (s.pinging ≡ client ∷ [])
          × (s.server ≡ some client)
          × (s.connected ≡ false))

-- `connect` is not called while the first call of a client has not ended.
unfoldable pub is_orderly : CacheEvent → CacheServer → Bool
is_orderly connect_called s = elim s.pinging [ [] ↦ true | client ∷ rest ↦ false ]
is_orderly event s = true

unfoldable pub orderly : List CacheEvent → CacheServer → Bool
unfolding is_orderly step
orderly [] s = true
orderly (e ∷ es) s = is_orderly e s && orderly es (step e s)

IsServed-more :
    (n : ℕ) (answered : List ℕ) (calls : List (ℕ × ClientCall))
    → All (IsServed answered) calls
    → All (IsServed (n ∷ answered)) calls
IsServed-more n answered [] h = tt
IsServed-more n answered ((client, call) ∷ calls) h =
    ((λ d. ground (arith, h.0 d)), IsServed-more n answered calls h.1)

-- The states that a call leaves.
checked-on :
    (call : ClientCall) (s : CacheServer) (client : ℕ)
    → s.connected ≡ true
    → s.server ≡ some client
    → (checked call s).0 ≡ record s { calls = (client, call) ∷ s.calls }
unfolding checked call_client
checked-on call s client on e = ground arith

checked-off : (call : ClientCall) (s : CacheServer) → s.connected ≡ false → (checked call s).0 ≡ s
unfolding checked
checked-off call s off = ground arith

checked-IsLive : (call : ClientCall) (s : CacheServer) → IsLive s → IsLive (checked call s).0
checked-IsLive call s h = elim (Bool-cases s.connected) [
  | inl on ↦
      let (client, e, a) = h.server_answered on in
      rw (checked-on call s client on e) (record {
        server_answered = h.server_answered;
        served = ((λ _. a), h.served);
        alone = h.alone;
      })
  | inr off ↦ rw (checked-off call s off) h
]

connect-same :
    (s : CacheServer) → (is_falsy s.connection_string || s.connected) ≡ true → (connect s).0 ≡ s
unfolding connect
connect-same s h = ground arith

connect-opens :
    (s : CacheServer)
    → (is_falsy s.connection_string || s.connected) ≡ false
    → (connect s).0 ≡ open_client s
unfolding connect
connect-opens s h = ground arith

connect-IsLive : (s : CacheServer) → s.pinging ≡ [] → IsLive s → IsLive (connect s).0
connect-IsLive s quiet h = elim (Bool-cases (is_falsy s.connection_string || s.connected)) [
  | inl same ↦ rw (connect-same s same) h
  | inr opens ↦ rw (connect-opens s opens) (
      unfold open_client in
      record {
        server_answered = λ on. absurd (ground arith);
        served = ((λ d. cc), h.served);
        alone = inr (s.created, ground (arith, quiet), refl, ground arith);
      })
]

ping_ended-other :
    (client : ℕ) (answers : Bool) (s : CacheServer)
    → contains client s.pinging ≡ false
    → (ping_ended client answers s).0 ≡ s
unfolding ping_ended
ping_ended-other client answers s h = ground arith

ping_ended-answered :
    (client : ℕ) (s : CacheServer)
    → contains client s.pinging ≡ true
    → (ping_ended client true s).0 ≡ record s {
      pinging = without client s.pinging;
      connected = true;
      answered = client ∷ s.answered;
    }
unfolding ping_ended
ping_ended-answered client s h = ground arith

ping_ended-failed :
    (client : ℕ) (s : CacheServer)
    → contains client s.pinging ≡ true
    → (ping_ended client false s).0 ≡ record s { pinging = without client s.pinging }
unfolding ping_ended
ping_ended-failed client s h = ground arith

without-alone : (client n : ℕ) → client ≡ n → without client (n ∷ []) ≡ []
unfolding without
without-alone client n e = ground (arith, e)

ping_ended-IsLive :
    (client : ℕ) (answers : Bool) (s : CacheServer)
    → IsLive s
    → IsLive (ping_ended client answers s).0
ping_ended-IsLive client answers s h = elim (Bool-cases (contains client s.pinging)) [
  | inr other ↦ rw (ping_ended-other client answers s other) h
  | inl mine ↦ elim h.alone [
    | inl none_open ↦ absurd (ground (arith, mine, none_open))
    | inr (n, pinging, server, off) ↦
        let same : client ≡ n = ground (arith, mine, pinging) in
        let alone = ap (without client) pinging ∙ without-alone client n same in
        ended answers mine (server ∙ ap some (sym same)) off alone
  ]
]
  where
    ended :
        (answers : Bool)
        → contains client s.pinging ≡ true
        → s.server ≡ some client
        → s.connected ≡ false
        → without client s.pinging ≡ []
        → IsLive (ping_ended client answers s).0
    ended true mine server off alone = rw (ping_ended-answered client s mine) (record {
      server_answered = λ on. (client, server, ground arith);
      served = IsServed-more client s.answered s.calls h.served;
      alone = inl alone;
    })
    ended false mine server off alone =
        rw (ping_ended-failed client s mine)
          (record { server_answered = h.server_answered; served = h.served; alone = inl alone })

disconnect-none : (s : CacheServer) → s.server ≡ none → (disconnect s).0 ≡ s
unfolding disconnect call_client disconnected
disconnect-none s e = ground arith

disconnect-some :
    (s : CacheServer) (client : ℕ)
    → s.server ≡ some client
    → (disconnect s).0 ≡ record s { connected = false; calls = (client, called_close) ∷ s.calls }
unfolding disconnect call_client disconnected
disconnect-some s client e = ground arith

disconnect-IsLive : (s : CacheServer) → IsLive s → IsLive (disconnect s).0
disconnect-IsLive s h = elim (Option-cases s.server) [
  | inl e ↦ rw (disconnect-none s e) h
  | inr (client, e) ↦ rw (disconnect-some s client e) (record {
    server_answered = λ on. cc;
    served = ((λ d. cc), h.served);
    alone = elim h.alone [
      | inl quiet ↦ inl quiet
      | inr (n, pinging, server, off) ↦ inr (n, pinging, server, refl)
    ];
  })
]

step-IsLive :
    (e : CacheEvent) (s : CacheServer) → is_orderly e s ≡ true → IsLive s → IsLive (step e s)
unfolding step define get delete is_orderly
step-IsLive (credentials_set args) s o h =
    unfold set_credentials in
    record { server_answered = h.server_answered; served = h.served; alone = h.alone }
step-IsLive connect_called s o h = connect-IsLive s (ground (arith, o)) h
step-IsLive (first_call_ended client answers) s o h = ping_ended-IsLive client answers s h
step-IsLive disconnect_called s o h = disconnect-IsLive s h
step-IsLive (define_called method option) s o h = checked-IsLive _ s h
step-IsLive (get_called key) s o h = checked-IsLive (called_get key) s h
step-IsLive (delete_called key) s o h = checked-IsLive (called_delete key) s h

both : (a b : Bool) → (a && b) ≡ true → (a ≡ true) × (b ≡ true)
both a b h = ground (arith, h)

run_from :
    (es : List CacheEvent) (s : CacheServer) → orderly es s ≡ true → IsLive s → IsLive (run es s)
unfolding run orderly
run_from [] s o h = h
run_from (e ∷ es) s o h =
    let (first, others) = both (is_orderly e s) (orderly es (step e s)) o in
    run_from es (step e s) others (step-IsLive e s first h)

-- Whatever is called, but no `connect` while another has not ended: keys are read and written on
-- clients that answered their first call alone, and while the server counts as connected its client
-- is such a one.
pub run-IsLive : (es : List CacheEvent) → orderly es new_server ≡ true → IsLive (run es new_server)
run-IsLive es o =
    run_from es new_server o (record { server_answered = λ on. cc; served = tt; alone = inl refl })
