-- ===== src/Telegram/Secrecy.antt =====
-- What the exceptions of adapters/telegram/bot.py carry.
use talisman_v.Prelude.{ℕ, String, ◌≡◌, false, Option, none, some, List, [], ◌∷◌}
use talisman_v.Prelude.Int.{ℤ}
use talisman_v.Prelude.Raises.{Raises, returns, raises, ◌>>=◌}
use talisman_v.Prelude.Replace.{contains}
use talisman_v.Redaction.Secrets.{IsDistinct, own_value-absent}
use talisman_v.Telegram.{IncomingMessage}
use talisman_v.Telegram.Bot.{
  HttpxError, http_error, other_error, BotError, telegram_transport_error, key_error, uncaught,
  HttpMethod, Payload, RawUpdate, RawMessage, Httpx, Bot, scrub, with_surfaced, as_uncaught,
  incoming, item, text_of_message, appended, parse_updates, request, get_updates, send_message,
}

-- No transport error of an answer has the text in its message.
abbrev pub KeepsSecret : {A : Type 0} → List ℕ → Raises BotError A → Type 0
KeepsSecret secret (returns x) = Unit
KeepsSecret secret (raises (telegram_transport_error text)) = contains secret text ≡ false
KeepsSecret secret (raises (key_error key)) = Unit
KeepsSecret secret (raises (uncaught e)) = Unit

>>=-KeepsSecret :
    {A B : Type 0} (secret : List ℕ) (r : Raises BotError A) (f : A → Raises BotError B)
    → KeepsSecret secret r
    → ((x : A) → KeepsSecret secret (f x))
    → KeepsSecret secret (r >>= f)
>>=-KeepsSecret secret (returns x) f h k = k x
>>=-KeepsSecret secret (raises (telegram_transport_error text)) f h k = h
>>=-KeepsSecret secret (raises (key_error key)) f h k = h
>>=-KeepsSecret secret (raises (uncaught e)) f h k = h

item-KeepsSecret :
    {A : Type 0} (secret : List ℕ) (key : String) (x : Option A) → KeepsSecret secret (item key x)
item-KeepsSecret secret key none = tt
item-KeepsSecret secret key (some x) = tt

uncaught-KeepsSecret :
    {A : Type 0} (secret : List ℕ) (r : Raises String A) → KeepsSecret secret (as_uncaught r)
uncaught-KeepsSecret secret (returns x) = tt
uncaught-KeepsSecret secret (raises e) = tt

appended-KeepsSecret :
    (secret : List ℕ) (update : RawUpdate) (found : Option (RawMessage × List ℕ))
    (rest : Raises BotError (List IncomingMessage))
    → KeepsSecret secret rest
    → KeepsSecret secret (appended update found rest)
appended-KeepsSecret secret update none rest h = h
appended-KeepsSecret secret update (some (message, text)) rest h =
    >>=-KeepsSecret secret (incoming update message text) _
      (>>=-KeepsSecret secret (item "update_id" update.update_id) _
        (item-KeepsSecret secret "update_id" update.update_id)
        (λ u.
          >>=-KeepsSecret secret (item "from" message.from_id) _
            (item-KeepsSecret secret "from" message.from_id)
            (λ f.
              >>=-KeepsSecret secret (item "chat" message.chat_id) _
                (item-KeepsSecret secret "chat" message.chat_id) (λ c. tt))))
      (λ parsed. >>=-KeepsSecret secret rest _ h (λ messages. tt))

parse_updates-KeepsSecret :
    (secret : List ℕ) (updates : List RawUpdate) → KeepsSecret secret (parse_updates updates)
unfolding parse_updates
parse_updates-KeepsSecret secret [] = tt
parse_updates-KeepsSecret secret (update ∷ updates) =
    appended-KeepsSecret secret update (text_of_message update.message) (parse_updates updates)
      (parse_updates-KeepsSecret secret updates)

module _ {W R : Type 0} (httpx : Httpx W R) (self : Bot) (distinct : IsDistinct self.token) where
  surfaced-KeepsSecret : (r : Raises HttpxError R) → KeepsSecret self.token (with_surfaced self r)
  unfolding scrub
  surfaced-KeepsSecret (returns x) = tt
  surfaced-KeepsSecret (raises (other_error e)) = tt
  surfaced-KeepsSecret (raises (http_error text)) = own_value-absent self.token distinct text

  request-KeepsSecret :
      (method : HttpMethod) (path : List ℕ) (payload : Payload) (timeout : ℕ) (w : W)
      → KeepsSecret self.token (request httpx self method path payload timeout w).0
  unfolding request
  request-KeepsSecret method path payload timeout w = surfaced-KeepsSecret _

  -- A transport error that polling for updates or sending a message raises does not have the
  -- bot's token in its text, whatever text httpx gave its own exception, the URL with the token
  -- included. (The token has no bracket, and some character that the marker does not have.)
  pub token_never_surfaces :
      (offset timeout : ℕ) (chat_id : ℤ) (text : String) (w : W)
      → KeepsSecret self.token (get_updates httpx self offset timeout w).0
        × KeepsSecret self.token (send_message httpx self chat_id text w).0
  unfolding get_updates send_message
  token_never_surfaces offset timeout chat_id text w = (
    >>=-KeepsSecret self.token _ _ (request-KeepsSecret _ _ _ _ w) (λ r.
        >>=-KeepsSecret self.token _ _ (uncaught-KeepsSecret self.token (httpx.updates_of r))
          (λ updates. parse_updates-KeepsSecret self.token updates)),
    >>=-KeepsSecret self.token _ _ (request-KeepsSecret _ _ _ _ w) (λ r. tt),
  )
