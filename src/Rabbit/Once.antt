-- ===== src/Rabbit/Once.antt =====
-- Each message object is settled with the broker at most once.
pub mod Frame
pub mod Run
use nodejs_template.Prelude.{
  ℕ, suc, ◌+◌, ◌≤◌, ◌<◌, Bool, true, false, Option, none, some, List, [], ◌∷◌, ◌==◌, ◌≡◌, refl, ap,
  ◌∙◌, ◌⊎◌, inl, inr, arith, if◌then◌else◌, Bool-cases, ==_iff, Option-cases, map_get,
}
use nodejs_template.Text.{Text, text_eq}
use nodejs_template.Rabbit.State.{
  Custom, Consumer, Sent, rejected_with, acked_with, Server, no_server, assign,
}
use nodejs_template.Rabbit.Delivery.{
  already_settled, set_rejected, set_acked, call_on, call_channel, unless_settled, reject, ack,
  end_message, arrive, receive, deliver, callback_reject, custom_or_new, truthy,
}
use nodejs_template.Rabbit.Once.Frame.{messages_of}
use mathlib.Core.Path.{subst}

unfoldable pub message_of : Sent → ℕ
message_of (rejected_with m requeue) = m
message_of (acked_with m) = m

-- How many calls settle a message.
unfoldable pub calls_for : ℕ → List Sent → ℕ
unfolding message_of
calls_for m [] = 0
calls_for m (call ∷ rest) =
    let others = calls_for m rest in if message_of call == m then suc others else others

-- What the properties of a message say of the calls made for it.
abbrev pub Settles : Option Custom → ℕ → Type 0
Settles custom calls = (calls ≡ 0) ⊎ ((already_settled custom ≡ some true) × (calls ≡ 1))

-- A message that has not arrived has no properties, and no call was made for it.
pub record IsRight (s : Server) (m : ℕ) : Type 0 where
  pub fresh : s.delivered ≤ m → (s.custom m ≡ none) × (calls_for m s.sent ≡ 0)
  pub settles : Settles (s.custom m) (calls_for m s.sent)

abbrev pub IsSound : Server → Type 0
IsSound s = (m : ℕ) → IsRight s m

-- A call on a channel is made or not; nothing else changes.
call_on-IsRight :
    (consumer : Option Consumer) (s : Server) (k m : ℕ) (call : Sent)
    → message_of call ≡ k
    → already_settled (s.custom k) ≡ some true
    → calls_for k s.sent ≡ 0
    → k < s.delivered
    → IsRight s m
    → IsRight (call_on consumer s call) m
unfolding call_on calls_for
call_on-IsRight none s k m call e settled unsent old right = right
call_on-IsRight (some consumer) s k m call e settled unsent old right = elim (Bool-cases (k == m)) [
  | inl p ↦
      let q = (==_iff k m).0 p in
      let settled' = subst (λ i. already_settled (s.custom i) ≡ some true) q settled in
      let unsent' = subst (λ i. calls_for i s.sent ≡ 0) q unsent in
      record { fresh = λ h. absurd (omega arith); settles = inr (settled', ground arith) }
  | inr p ↦ record {
    fresh = λ h. let (a, b) = right.fresh h in (a, ground arith);
    settles = rw (e, p) right.settles;
  }
]

-- The properties of a message for which no call was made may become anything.
mark-IsRight :
    (s : Server) (k m : ℕ) (c : Custom)
    → calls_for k s.sent ≡ 0
    → k < s.delivered
    → IsRight s m
    → IsRight (record s { custom = assign s.custom k (some c) }) m
unfolding assign
mark-IsRight s k m c unsent old right = elim (Bool-cases (k == m)) [
  | inl p ↦ record {
    fresh = λ h. absurd (omega (arith, (==_iff k m).0 p));
    settles = inl (subst (λ i. calls_for i s.sent ≡ 0) ((==_iff k m).0 p) unsent);
  }
  | inr p ↦ record { fresh = rw p right.fresh; settles = rw p right.settles }
]

==_refl : (n : ℕ) → (n == n) ≡ true
==_refl n = ground arith

-- A message that can still be settled has arrived, and no call was made for it.
Nat-cases : (n m : ℕ) → (n ≤ m) ⊎ (m < n)
Nat-cases n m = ground arith

still-unsent :
    (s : Server) (k : ℕ)
    → already_settled (s.custom k) ≡ some false
    → IsRight s k
    → (calls_for k s.sent ≡ 0) × (k < s.delivered)
unfolding already_settled
still-unsent s k e right = elim (Nat-cases s.delivered k) [
  | inl h ↦ let (a, b) = right.fresh h in absurd (ground (arith, a))
  | inr h ↦ (elim right.settles [ inl z ↦ z | inr (t, one) ↦ absurd (ground arith) ], h)
]

settle-IsRight :
    (s : Server) (k m : ℕ) (c : Custom) (call : Sent)
    → already_settled (s.custom k) ≡ some false
    → already_settled (some c) ≡ some true
    → message_of call ≡ k
    → IsSound s
    → IsRight (call_channel (record s { custom = assign s.custom k (some c) }) k call) m
settle-IsRight s k m c call e settled of sound =
    let (unsent, old) = still-unsent s k e (sound k) in
    unfold call_channel assign in
    call_on-IsRight _ (record s { custom = assign s.custom k (some c) }) k m call of
      (ap already_settled (unfold assign in rw (==_refl k) refl) ∙ settled) unsent old
      (mark-IsRight s k m c unsent old (sound m))

pub unless_settled-ends :
    (P : Server → Type 0) (connected : Bool) (settled : Option Bool) (s s' : Server)
    → P s
    → (settled ≡ some false → P s')
    → P (unless_settled connected settled s s')
unfolding unless_settled
unless_settled-ends P false settled s s' same marked = same
unless_settled-ends P true none s s' same marked = same
unless_settled-ends P true (some true) s s' same marked = same
unless_settled-ends P true (some false) s s' same marked = marked refl

reject-IsSound :
    (s : Server) (k : ℕ) (requeue : Option Bool) → IsSound s → IsSound (reject s k requeue)
unfolding reject set_rejected message_of
reject-IsSound s k requeue sound m =
    unless_settled-ends (λ t. IsRight t m) s.connected (already_settled (s.custom k)) s _ (sound m)
      (λ e.
        settle-IsRight s k m _ (rejected_with k requeue) e
          (unfold already_settled truthy in ground arith) refl sound)

ack-IsSound : (s : Server) (k : ℕ) → IsSound s → IsSound (ack s k)
unfolding ack set_acked message_of
ack-IsSound s k sound m =
    unless_settled-ends (λ t. IsRight t m) s.connected (already_settled (s.custom k)) s _ (sound m)
      (λ e.
        settle-IsRight s k m _ (acked_with k) e (unfold already_settled truthy in ground arith) refl
          sound)

pub if-ends :
    (P : Server → Type 0) (b : Bool) (s s' : Server) → P s → P s' → P (if b then s else s')
if-ends P true s s' p p' = p
if-ends P false s s' p p' = p'

-- What leaves the messages alone leaves the invariant.
pub frame : (s s' : Server) → messages_of s' ≡ messages_of s → IsSound s → IsSound s'
unfolding messages_of
frame s s' e sound m =
    let d = ap (λ x. x.delivered) e in
    let c = ap (λ x. x.custom) e in
    let t = ap (λ x. x.sent) e in
    record { fresh = rw (d, c, t) (sound m).fresh; settles = rw (c, t) (sound m).settles }

pub end_message-IsSound : (s : Server) (k : ℕ) → IsSound s → IsSound (end_message s k)
unfolding end_message messages_of
end_message-IsSound s k sound = frame (ack s k) _ refl (ack-IsSound s k sound)

arrive-IsSound : (s : Server) (tag : Text) → IsSound s → IsSound (arrive s tag)
unfolding arrive
arrive-IsSound s tag sound m = record {
  fresh = λ h. (sound m).fresh (omega arith);
  settles = (sound m).settles;
}

begin-IsSound :
    (s : Server) (k : ℕ)
    → calls_for k s.sent ≡ 0
    → k < s.delivered
    → IsSound s
    → IsSound (set_rejected (record s { messages = k ∷ s.messages }) k false)
unfolding set_rejected
begin-IsSound s k unsent old sound m =
    mark-IsRight (record s { messages = k ∷ s.messages }) k m _ unsent old
      (record { fresh = (sound m).fresh; settles = (sound m).settles })

receive-IsSound :
    (s : Server) (k : ℕ) (is_json : Bool)
    → calls_for k s.sent ≡ 0
    → k < s.delivered
    → IsSound s
    → IsSound (receive s k is_json)
unfolding receive
receive-IsSound s k is_json unsent old sound =
    let marked = begin-IsSound s k unsent old sound in
    if-ends IsSound s.closing _ _
      (end_message-IsSound (reject s k none) k (reject-IsSound s k none sound))
      (if-ends IsSound is_json _ _ marked (end_message-IsSound _ k marked))

pub deliver-IsSound :
    (s : Server) (tag : Option Text) (is_json : Bool) → IsSound s → IsSound (deliver s tag is_json)
unfolding deliver
deliver-IsSound s none is_json sound = sound
deliver-IsSound s (some tag) is_json sound =
    let (unmarked, unsent) = (sound s.delivered).fresh (omega arith) in
    receive-IsSound (arrive s tag) s.delivered is_json (unfold arrive in unsent)
      (unfold arrive in omega arith) (arrive-IsSound s tag sound)

pub callback_reject-IsSound :
    (s : Server) (k : ℕ) (requeue : Option Bool) → IsSound s → IsSound (callback_reject s k requeue)
unfolding callback_reject
callback_reject-IsSound s k none sound = reject-IsSound s k (some true) sound
callback_reject-IsSound s k (some requeue) sound = reject-IsSound s k (some requeue) sound
