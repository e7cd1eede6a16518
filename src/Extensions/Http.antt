-- ===== src/Extensions/Http.antt =====
-- src/extensions/http.rs: the bounded GET with its retries. Which URLs are permitted is the url
-- crate's parser with the rules for schemes and hosts, a parameter here; so is the reply to each
-- attempt. Delays are milliseconds, and they are listed; texts of errors are left out.
use pg_embed_setup_unpriv.Prelude.{
  ℕ, zero, suc, ◌+◌, ◌*◌, ◌-◌, ◌^◌, Bool, ◌&&◌, ◌||◌, Option, none, some, List, [], ◌∷◌, take, leb,
  ◌==◌, nat_eq, if◌then◌else◌,
}
use pg_embed_setup_unpriv.Prelude.Texts.{Text}
use pg_embed_setup_unpriv.Error.{Result, ok, err}

abbrev pub http_attempts : ℕ
http_attempts = 3

abbrev pub http_backoff : ℕ
http_backoff = 200

-- What an attempt gives: an error of the transport, or a status with a body that may break off.
pub data Reply : Type 0 where
  redirect_error transport_error : Reply
  response : ℕ → Option (List ℕ) → Reply

pub data Failure : Type 0 where
  transient permanent : Failure

pub record Network : Type 0 where
  pub is_permitted : Text → Bool
  pub can_build_client : Bool
  pub reply : Text → ℕ → Reply

-- Whether the status is a success, a failure that may pass, or another.
unfoldable pub of_status : ℕ → Option (List ℕ) → Result Failure (Option (List ℕ))
of_status status body =
    if leb 200 status && leb status 299
    then ok body
    else if (leb 500 status && leb status 599) || status == 429
    then err transient
    else err permanent

unfoldable pub send : Reply → Result Failure (Option (List ℕ))
send redirect_error = err permanent
send transport_error = err transient
send (response status body) = of_status status body

abbrev pub Fetched : Type 0
Fetched = Result Failure (Option (List ℕ)) × List ℕ

unfoldable pub delayed : ℕ → Fetched → Fetched
delayed delay (result, delays) = (result, delay ∷ delays)

-- The body of the loop; `next` is the loop from a later attempt on.
unfoldable pub after_send : ℕ → Result Failure (Option (List ℕ)) → (ℕ → Fetched) → Fetched
after_send attempt (ok body) next = (ok body, [])
after_send attempt (err permanent) next = (err permanent, [])
after_send attempt (err transient) next =
    if leb http_attempts attempt
    then (err transient, [])
    else delayed (http_backoff * 2 ^ (attempt - 1)) (next (suc attempt))

module _ (net : Network) where
  -- The loop, with a bound on its rounds that is never used up.
  unfoldable pub fetch_loop : Text → ℕ → ℕ → Fetched
  fetch_loop url zero attempt = (err transient, [])
  fetch_loop url (suc left) attempt =
      after_send attempt (send (net.reply url attempt)) (fetch_loop url left)

  unfoldable pub fetch_with_retry : Text → Fetched
  fetch_with_retry url = fetch_loop url http_attempts 1

  -- At most one byte more than the cap is taken.
  unfoldable pub read_body : ℕ → Result Failure (Option (List ℕ)) → Option (List ℕ)
  read_body cap (err failure) = none
  read_body cap (ok none) = none
  read_body cap (ok (some body)) = some (take (cap + 1) body)

  -- The bytes that were received, or none for any error.
  unfoldable pub http_get : Text → ℕ → Option (List ℕ)
  http_get url cap =
      if net.is_permitted url && net.can_build_client
      then read_body cap (fetch_with_retry url).0
      else none
