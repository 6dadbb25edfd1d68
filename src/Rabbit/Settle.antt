-- ===== src/Rabbit/Settle.antt =====
-- How the broker learns what became of a message.
use nodejs_template.Prelude.{
  ℕ, Bool, true, false, Option, none, some, ◌∷◌, ◌≡◌, refl, ap, ◌∙◌, ◌==◌, arith, if◌then◌else◌,
}
use nodejs_template.Text.{Text}
use nodejs_template.Rabbit.State.{Consumer, Sent, rejected_with, acked_with, Server, assign}
use nodejs_template.Rabbit.Delivery.{
  consumer_of, call_on, call_channel, unless_settled, already_settled, truthy, set_rejected,
  set_acked, reject, ack, end_message, arrive, receive, deliver, callback_reject, custom_or_new,
}
use nodejs_template.Loader.{or_else}

if-true : {A : Type 0} (b : Bool) (x y : A) → b ≡ true → (if b then x else y) ≡ x
if-true b x y e = rw e refl

if-false : {A : Type 0} (b : Bool) (x y : A) → b ≡ false → (if b then x else y) ≡ y
if-false b x y e = rw e refl

unless_settled-none :
    (b : Bool) (o : Option Bool) (s s' : Server) → o ≡ none → unless_settled b o s s' ≡ s
unfolding unless_settled
unless_settled-none true o s s' e = rw e refl
unless_settled-none false o s s' e = refl

unless_settled-settled :
    (b : Bool) (o : Option Bool) (s s' : Server) → o ≡ some true → unless_settled b o s s' ≡ s
unfolding unless_settled
unless_settled-settled true o s s' e = rw e refl
unless_settled-settled false o s s' e = refl

unless_settled-unsettled :
    (b : Bool) (o : Option Bool) (s s' : Server)
    → b ≡ true
    → o ≡ some false
    → unless_settled b o s s' ≡ s'
unfolding unless_settled
unless_settled-unsettled b o s s' p e = rw (p, e) refl

-- Without properties both calls end in their `catch`.
reject-unmarked :
    (s : Server) (m : ℕ) (requeue : Option Bool) → s.custom m ≡ none → reject s m requeue ≡ s
unfolding reject already_settled
reject-unmarked s m requeue e = unless_settled-none s.connected _ s _ (ap already_settled e)

ack-unmarked : (s : Server) (m : ℕ) → s.custom m ≡ none → ack s m ≡ s
unfolding ack already_settled
ack-unmarked s m e = unless_settled-none s.connected _ s _ (ap already_settled e)

ack-settled : (s : Server) (m : ℕ) → already_settled (s.custom m) ≡ some true → ack s m ≡ s
unfolding ack
ack-settled s m e = unless_settled-settled s.connected _ s _ e

-- A server that is connected and still has the consumer of a message.
pub record IsLive (s : Server) (tag : Text) : Type 0 where
  pub is_connected : s.connected ≡ true
  pub consumer : Consumer
  pub is_known : consumer_of s tag ≡ some consumer

call_on-sent :
    (o : Option Consumer) (c : Consumer) (s : Server) (call : Sent)
    → o ≡ some c
    → (call_on o s call).sent ≡ call ∷ s.sent
unfolding call_on
call_on-sent o c s call e = rw e refl

ack-unsettled :
    (s : Server) (m : ℕ)
    → IsLive s (s.consumer_tag m)
    → already_settled (s.custom m) ≡ some false
    → (ack s m).sent ≡ acked_with m ∷ s.sent
unfolding ack call_channel set_acked consumer_of
ack-unsettled s m live e =
    ap (λ (t : Server). t.sent) (unless_settled-unsettled s.connected _ s _ live.is_connected e)
    ∙ call_on-sent _ live.consumer _ _ live.is_known

reject-unsettled :
    (s : Server) (m : ℕ) (requeue : Option Bool)
    → IsLive s (s.consumer_tag m)
    → already_settled (s.custom m) ≡ some false
    → (reject s m requeue).sent ≡ rejected_with m requeue ∷ s.sent
unfolding reject call_channel set_rejected consumer_of
reject-unsettled s m requeue live e =
    ap (λ (t : Server). t.sent) (unless_settled-unsettled s.connected _ s _ live.is_connected e)
    ∙ call_on-sent _ live.consumer _ _ live.is_known

==_refl : (n : ℕ) → (n == n) ≡ true
==_refl n = ground arith

assign-at : {A : Type 0} (store : ℕ → A) (i : ℕ) (a : A) → assign store i a i ≡ a
unfolding assign
assign-at store i a = if-true _ _ _ (==_refl i)

call_on-custom :
    (o : Option Consumer) (s : Server) (call : Sent) → (call_on o s call).custom ≡ s.custom
unfolding call_on
call_on-custom none s call = refl
call_on-custom (some c) s call = refl

set_rejected-settled :
    (s : Server) (m : ℕ) → already_settled ((set_rejected s m true).custom m) ≡ some true
unfolding set_rejected assign already_settled truthy
set_rejected-settled s m = ground arith

reject-settled :
    (s : Server) (m : ℕ) (requeue : Option Bool)
    → s.connected ≡ true
    → already_settled (s.custom m) ≡ some false
    → already_settled ((reject s m requeue).custom m) ≡ some true
unfolding reject call_channel
reject-settled s m requeue c e =
    let s' = set_rejected s m true in
    let o = consumer_of s' (s'.consumer_tag m) in
    ap (λ (t : Server). already_settled (t.custom m))
      (unless_settled-unsettled s.connected _ s _ c e)
    ∙ ap (λ f. already_settled (f m)) (call_on-custom o s' (rejected_with m requeue))
    ∙ set_rejected-settled s m

-- The state in which the callback of a new message starts.
unfoldable begun : Server → Text → Server
begun s tag =
    let s' = arrive s tag in
    set_rejected (record s' { messages = s.delivered ∷ s'.messages }) s.delivered false

begun-IsLive :
    (s : Server) (tag : Text)
    → IsLive s tag
    → IsLive (begun s tag) ((begun s tag).consumer_tag s.delivered)
unfolding begun arrive set_rejected consumer_of
begun-IsLive s tag live = rw (assign-at s.consumer_tag s.delivered tag) (record {
  is_connected = live.is_connected;
  consumer = live.consumer;
  is_known = live.is_known;
})

begun-unsettled :
    (s : Server) (tag : Text)
    → s.custom s.delivered ≡ none
    → already_settled ((begun s tag).custom s.delivered) ≡ some false
unfolding begun arrive set_rejected
begun-unsettled s tag e =
    ap already_settled (assign-at s.custom s.delivered _)
    ∙ unfold already_settled truthy custom_or_new in rw e refl

-- A message that arrives while the server closes is neither rejected nor acknowledged: its
-- properties are missing, so that both calls end in their `catch`.
deliver-closing :
    (s : Server) (tag : Text) (is_json : Bool)
    → s.closing ≡ true
    → s.custom s.delivered ≡ none
    → (deliver s (some tag) is_json).sent ≡ s.sent
unfolding deliver receive end_message
deliver-closing s tag is_json closing unmarked =
    let s' = arrive s tag in
    let none_there : s'.custom s.delivered ≡ none = unfold arrive in unmarked in
    ap (λ (t : Server). t.sent) (if-true s'.closing _ _ (unfold arrive in closing))
    ∙ ap (λ (t : Server). (ack t s.delivered).sent) (reject-unmarked s' s.delivered none none_there)
    ∙ ap (λ (t : Server). t.sent) (ack-unmarked s' s.delivered none_there)
    ∙ unfold arrive in refl

deliver-begun :
    (s : Server) (tag : Text) (is_json : Bool)
    → s.closing ≡ false
    → deliver s (some tag) is_json
      ≡ (if is_json then begun s tag else end_message (begun s tag) s.delivered)
unfolding deliver receive begun
deliver-begun s tag is_json h = if-false _ _ _ (unfold arrive in h)

begun-sent : (s : Server) (tag : Text) → (begun s tag).sent ≡ s.sent
unfolding begun arrive set_rejected
begun-sent s tag = refl

end-begun :
    (s : Server) (tag : Text)
    → IsLive s tag
    → s.custom s.delivered ≡ none
    → (end_message (begun s tag) s.delivered).sent ≡ acked_with s.delivered ∷ s.sent
unfolding end_message
end-begun s tag live unmarked =
    ack-unsettled (begun s tag) s.delivered (begun-IsLive s tag live)
      (begun-unsettled s tag unmarked)
    ∙ ap (λ rest. acked_with s.delivered ∷ rest) (begun-sent s tag)

callback_reject-or_else :
    (s : Server) (m : ℕ) (requeue : Option Bool)
    → callback_reject s m requeue ≡ reject s m (some (or_else requeue true))
unfolding callback_reject or_else
callback_reject-or_else s m none = refl
callback_reject-or_else s m (some b) = refl

callback_reject-begun :
    (s : Server) (tag : Text) (requeue : Option Bool)
    → IsLive s tag
    → s.custom s.delivered ≡ none
    → (end_message (callback_reject (begun s tag) s.delivered requeue) s.delivered).sent
      ≡ rejected_with s.delivered (some (or_else requeue true)) ∷ s.sent
unfolding end_message
callback_reject-begun s tag requeue live unmarked =
    let r = some (or_else requeue true) in
    let live' = begun-IsLive s tag live in
    let unsettled = begun-unsettled s tag unmarked in
    rw (callback_reject-or_else (begun s tag) s.delivered requeue) (
      ap (λ (t : Server). t.sent)
        (ack-settled (reject (begun s tag) s.delivered r) s.delivered
          (reject-settled (begun s tag) s.delivered r live'.is_connected unsettled))
      ∙ reject-unsettled (begun s tag) s.delivered r live' unsettled
      ∙ ap (λ rest. rejected_with s.delivered r ∷ rest) (begun-sent s tag))

-- On a live server that is not closing, a message makes exactly one call. It is acknowledged when
-- its callback ends without rejecting it, and also when its content is not JSON, whose processing
-- ends in the same `finally`, although the name of a test says that no acknowledgement is sent then;
-- it is rejected, put back in its queue unless the callback says otherwise, when the callback rejects
-- it.
pub deliver-settles :
    (s : Server) (tag : Text) (requeue : Option Bool)
    → s.closing ≡ false
    → IsLive s tag
    → s.custom s.delivered ≡ none
    → let m = s.delivered in
      let s' = deliver s (some tag) true in
      ((end_message s' m).sent ≡ acked_with m ∷ s.sent)
      × ((deliver s (some tag) false).sent ≡ acked_with m ∷ s.sent)
      × ((end_message (callback_reject s' m requeue) m).sent
          ≡ rejected_with m (some (or_else requeue true)) ∷ s.sent)
deliver-settles s tag requeue h live unmarked =
    let ended = end-begun s tag live unmarked in
    rw (deliver-begun s tag true h, deliver-begun s tag false h)
      (ended, ended, callback_reject-begun s tag requeue live unmarked)
