-- ===== src/Telegram/Bot.antt =====
-- adapters/telegram/bot.py: the requests of the bot, and what it reads of an update.
--
-- httpx and the JSON of a response are parameters: a request gives a response or raises an
-- `httpx.HTTPError` with a text, or another exception. An update is the keys that the code reads,
-- each `none` where it is absent.
use talisman_v.Prelude.{ℕ, ◌+◌, String, Option, none, some, List, [], ◌∷◌, ◌++◌}
use talisman_v.Prelude.Int.{ℤ}
use talisman_v.Prelude.Raises.{Raises, returns, raises, ◌>>=◌}
use talisman_v.Prelude.Codes.{code_points}
use talisman_v.Redaction.{redact_value}
use talisman_v.Telegram.{IncomingMessage, TelegramBot}

pub data HttpxError : Type 0 where
  http_error : List ℕ → HttpxError
  other_error : String → HttpxError

-- `TelegramTransportError`, a `KeyError`, and what `_request` does not catch
pub data BotError : Type 0 where
  telegram_transport_error : List ℕ → BotError
  key_error : String → BotError
  uncaught : String → BotError

pub data HttpMethod : Type 0 where
  get post : HttpMethod

-- `params` and `json`
pub data Payload : Type 0 where
  params : ℕ → ℕ → Payload
  json : ℤ → String → Payload

pub record RawMessage : Type 0 where
  pub text : Option (List ℕ)
  pub from_id : Option ℤ
  pub chat_id : Option ℤ

pub record RawUpdate : Type 0 where
  pub update_id : Option ℕ
  pub message : Option RawMessage

pub record Httpx (W R : Type 0) : Type 0 where
  pub send : HttpMethod → List ℕ → Payload → ℕ → W → Raises HttpxError R × W
  pub raise_for_status : R → Raises HttpxError (Unit {0})
  -- `response.json()["result"]`
  pub updates_of : R → Raises String (List RawUpdate)

-- `TelegramBot.__init__`
pub record Bot : Type 0 where
  pub token : List ℕ
  pub base_url : List ℕ
  pub allowed_user_ids : List ℤ

abbrev pub base : Bot → List ℕ
base self = self.base_url ++ code_points "/bot" ++ self.token

-- `_scrub`, whose body is that of one step of `redact_secrets`
unfoldable pub scrub : Bot → List ℕ → List ℕ
scrub self text = redact_value self.token text

-- the `except` branch
abbrev pub surfaced : Bot → HttpxError → BotError
surfaced self (http_error text) = telegram_transport_error (scrub self text)
surfaced self (other_error e) = uncaught e

abbrev pub with_surfaced : {A : Type 0} → Bot → Raises HttpxError A → Raises BotError A
with_surfaced self (returns x) = returns x
with_surfaced self (raises e) = raises (surfaced self e)

abbrev pub as_uncaught : {A : Type 0} → Raises String A → Raises BotError A
as_uncaught (returns x) = returns x
as_uncaught (raises e) = raises (uncaught e)

-- `d[key]`
abbrev pub item : {A : Type 0} → String → Option A → Raises BotError A
item key none = raises (key_error key)
item key (some x) = returns x

-- the body of the loop of `get_updates`, of a message with a text
abbrev pub incoming : RawUpdate → RawMessage → List ℕ → Raises BotError IncomingMessage
incoming update message text = do
  update_id ← item "update_id" update.update_id
  user_id ← item "from" message.from_id
  chat_id ← item "chat" message.chat_id
  returns (record { update_id = update_id; user_id = user_id; chat_id = chat_id; text = text })

abbrev pub text_of_message : Option RawMessage → Option (RawMessage × List ℕ)
text_of_message none = none
text_of_message (some message) = elim message.text [
  | none ↦ none
  | some text ↦ some (message, text)
]

abbrev pub appended :
    RawUpdate
    → Option (RawMessage × List ℕ)
    → Raises BotError (List IncomingMessage)
    → Raises BotError (List IncomingMessage)
appended update none rest = rest
appended update (some (message, text)) rest =
    incoming update message text >>= λ parsed. rest >>= λ messages. returns (parsed ∷ messages)

-- the loop of `get_updates`
unfoldable pub parse_updates : List RawUpdate → Raises BotError (List IncomingMessage)
parse_updates [] = returns []
parse_updates (update ∷ updates) =
    appended update (text_of_message update.message) (parse_updates updates)

module _ {W R : Type 0} (httpx : Httpx W R) (self : Bot) where
  abbrev pub checked : R → Raises HttpxError R
  checked response = do _ ← httpx.raise_for_status response; returns response

  -- `_request`
  unfoldable pub request : HttpMethod → List ℕ → Payload → ℕ → W → Raises BotError R × W
  unfolding scrub
  request method path payload timeout w =
      let (response, w') =
        httpx.send method (base self ++ code_points "/" ++ path) payload timeout w in
      (with_surfaced self (response >>= checked), w')

  -- `get_updates`
  unfoldable pub get_updates : ℕ → ℕ → W → Raises BotError (List IncomingMessage) × W
  unfolding request parse_updates
  get_updates offset timeout_seconds w =
      let (response, w') =
        request get (code_points "getUpdates") (params offset timeout_seconds)
          (timeout_seconds + 10) w in
      (response >>= λ r. as_uncaught (httpx.updates_of r) >>= parse_updates, w')

  -- `send_message`
  unfoldable pub send_message : ℤ → String → W → Raises BotError (Unit {0}) × W
  unfolding request
  send_message chat_id text w =
      let (response, w') = request post (code_points "sendMessage") (json chat_id text) 15 w in
      (response >>= λ _. returns tt, w')

abbrev pub with_text : {A : Type 0} → (BotError → String) → Raises BotError A → Raises String A
with_text shown (returns x) = returns x
with_text shown (raises e) = raises (shown e)

-- The bot as the approver uses it; `shown` is the text of an exception.
unfoldable pub telegram_bot : {W R : Type 0} → (BotError → String) → Httpx W R → Bot → TelegramBot W
unfolding get_updates send_message
telegram_bot shown httpx self = record {
  allowed_user_ids = self.allowed_user_ids;
  get_updates = λ offset timeout w.
      let (r, w') = get_updates httpx self offset timeout w in (with_text shown r, w');
  send_message =
      λ chat text w. let (r, w') = send_message httpx self chat text w in (with_text shown r, w');
}
