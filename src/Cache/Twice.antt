-- ===== src/Cache/Twice.antt =====
-- A request that is made again.
use nodejs_template.Prelude.{ℕ, ◌+◌, ◌<◌, ◌⊎◌, ◌≡◌, Bool, none, some, ◌&&◌, ltb, leb}
use nodejs_template.Text.{Text}
use nodejs_template.Cache.Request.{CacheService, Codec, Request, max_result_size}

-- What the adapter relies on: a value that was set is read until its time is over and no longer, a
-- value does not appear or change without a call, and what JSON prints is read back. At the very end
-- of its time nothing is said.
pub record IsFaithful {S R : Type 0} (service : CacheService S R) (codec : Codec R) : Type 0 where
  pub response_within :
      (s : S) (now elapsed : ℕ) (key : Text) (r : R) (ttl : ℕ)
      → elapsed < ttl
      → service.get_response (service.set_response s now key r ttl) (now + elapsed) key ≡ some r
  pub response_over :
      (s : S) (now elapsed : ℕ) (key : Text) (r : R) (ttl : ℕ)
      → ttl < elapsed
      → service.get_response (service.set_response s now key r ttl) (now + elapsed) key ≡ none
  pub response_fades :
      (s : S) (now elapsed : ℕ) (key : Text)
      → (service.get_response s (now + elapsed) key ≡ service.get_response s now key)
        ⊎ (service.get_response s (now + elapsed) key ≡ none)
  pub text_within :
      (s : S) (now elapsed : ℕ) (key t : Text) (ttl : ℕ)
      → elapsed < ttl
      → service.get_text (service.set_text s now key t ttl) (now + elapsed) key ≡ some t
  pub text_over :
      (s : S) (now elapsed : ℕ) (key t : Text) (ttl : ℕ)
      → ttl < elapsed
      → service.get_text (service.set_text s now key t ttl) (now + elapsed) key ≡ none
  pub text_fades :
      (s : S) (now elapsed : ℕ) (key : Text)
      → (service.get_text s (now + elapsed) key ≡ service.get_text s now key)
        ⊎ (service.get_text s (now + elapsed) key ≡ none)
  pub parse-stringify : (r : R) → codec.parse (codec.stringify r) ≡ some r

-- A response can be kept: it is within the size, and has two keys at least.
abbrev pub is_kept : {R : Type 0} → Codec R → R → Bool
is_kept codec r =
    leb (codec.byte_length (codec.stringify r)) max_result_size && ltb 1 (codec.count_keys r)
