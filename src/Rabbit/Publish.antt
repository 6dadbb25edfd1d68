-- ===== src/Rabbit/Publish.antt =====
-- The array of channels is kept in step with the pool, so that a publication finds its channel.
pub mod Run
use nodejs_template.Prelude.{
  ℕ, zero, suc, ◌≤◌, ◌<◌, Bool, true, false, Option, none, some, List, [], ◌∷◌, length, get_elem?,
  ◌≡◌, ◌≢◌, refl, sym, ap, ◌⊎◌, inl, inr, arith, Bool-cases, Option-cases, map_set, map_delete,
  map_get, if◌then◌else◌,
}
use nodejs_template.Text.{Text, text_eq}
use nodejs_template.Rabbit.State.{Consumer, Server, no_server}
use nodejs_template.Rabbit.Connection.{
  values, same_id, add_channels, StartResult, threw, done, state_of, create_channel_pool,
  channel_closed, start_with, start, send_on, publish_with, consume, Published,
  connection_not_defined, empty_channel_pool, sent_on,
}

abbrev pub IsMirrored : Server → Type 0
IsMirrored s = s.channel_array ≡ values s.channel_pool

add_channels-IsMirrored :
    (s : Server) (created : List (Option (ℕ × ℕ)))
    → IsMirrored s
    → IsMirrored (add_channels s created)
unfolding add_channels
add_channels-IsMirrored s [] h = h
add_channels-IsMirrored s (none ∷ rest) h = add_channels-IsMirrored s rest h
add_channels-IsMirrored s (some (id, channel) ∷ rest) h =
    add_channels-IsMirrored
      (record s {
        channel_pool = map_set same_id s.channel_pool id channel;
        channel_array = values (map_set same_id s.channel_pool id channel);
      })
      rest refl

create-IsMirrored :
    (s : Server) (created : List (Option (ℕ × ℕ)))
    → IsMirrored s
    → IsMirrored (state_of (create_channel_pool s created))
unfolding create_channel_pool state_of
create-IsMirrored s created h = ground (arith, add_channels-IsMirrored s created h)

pub channel_closed-IsMirrored :
    (s : Server) (id : ℕ) (created : List (Option (ℕ × ℕ)))
    → IsMirrored (channel_closed s id created)
unfolding channel_closed
channel_closed-IsMirrored s id created =
    let pool = map_delete same_id s.channel_pool id in
    ground (
      arith,
      create-IsMirrored (record s { channel_pool = pool; channel_array = values pool }) created
          refl,
    )

pub start-IsMirrored :
    (s : Server) (connects : Bool) (created : List (Option (ℕ × ℕ)))
    → IsMirrored s
    → IsMirrored (state_of (start s connects created))
unfolding start start_with state_of
start-IsMirrored s connects created h =
    ground (arith, h, add_channels-IsMirrored (record s { connected = true }) created h)

length-values : (pool : List (ℕ × ℕ)) → length (values pool) ≡ length pool
unfolding values
length-values [] = refl
length-values ((id, channel) ∷ rest) = ap suc (length-values rest)

get_elem?-some :
    {A : Type 0} (xs : List A) (i : ℕ) → i < length xs → (x : A) × (get_elem? xs i ≡ some x)
get_elem?-some [] i h = absurd (omega arith)
get_elem?-some (x ∷ xs) zero h = (x, refl)
get_elem?-some (x ∷ xs) (suc i) h = get_elem?-some xs i (omega arith)

-- What a publication ends with, told from the connection and the pool alone.
pub data IsPublished (connected : Bool) (pool : List (ℕ × ℕ)) : Published → Type 0 where
  unconnected : connected ≡ false → IsPublished connected pool connection_not_defined
  no_channel : pool ≡ [] → IsPublished connected pool empty_channel_pool
  on_channel :
      {channel : ℕ} (i : ℕ)
      → get_elem? (values pool) i ≡ some channel
      → IsPublished connected pool (sent_on channel)

send_on-IsPublished :
    (connected : Bool) (pool : List (ℕ × ℕ)) (array : List ℕ) (i channel : ℕ)
    → array ≡ values pool
    → get_elem? (values pool) i ≡ some channel
    → IsPublished connected pool (send_on (get_elem? array i))
unfolding send_on
send_on-IsPublished connected pool array i channel h e = rw (h, e) (on_channel i e)

pub publish_with-IsPublished :
    (connected : Bool) (pool : List (ℕ × ℕ)) (array : List ℕ) (random_int : ℕ → ℕ)
    → ((n : ℕ) → random_int (suc n) ≤ n)
    → array ≡ values pool
    → IsPublished connected pool (publish_with connected pool array random_int)
unfolding publish_with
publish_with-IsPublished false pool array random_int bound h = unconnected refl
publish_with-IsPublished true [] array random_int bound h = no_channel refl
publish_with-IsPublished true (first ∷ rest) array random_int bound h =
    let i = random_int (suc (length rest)) in
    let (channel, e) =
      get_elem?-some (values (first ∷ rest)) i
        (omega (arith, bound (length rest), length-values (first ∷ rest))) in
    send_on-IsPublished true (first ∷ rest) array i channel h e
