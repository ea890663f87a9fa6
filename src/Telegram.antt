-- ===== src/Telegram.antt =====
-- adapters/telegram/: the users who may command, and the approver that waits for a reply.
--
-- Texts are lists of code points; `strip`, `lower` and `int` are Python's. Update ids are natural
-- numbers. The bot's requests and the clock's `sleep` are functions over a world; a request that
-- fails raises `TelegramTransportError` with a text. The two loops wait on the outside and take
-- fuel; `none` is a loop that has not ended yet.
pub mod Fresh
pub mod Bot
pub mod Secrecy
pub mod Textless
use talisman_v.Prelude.{
  ℕ, zero, suc, ◌+◌, String, Bool, true, false, ◌||◌, ◌&&◌, not, Option, none, some, List, [], ◌∷◌,
  ◌++◌, ◌==◌, if◌then◌else◌,
}
use talisman_v.Prelude.Int.{ℤ, pos, negsuc}
use talisman_v.Prelude.Raises.{Raises, returns, raises, ◌>>=◌}
use talisman_v.Prelude.Codes.{code_points, same_codes, strip_left}
use talisman_v.Spiral.State.{ApprovalDecision, approve, reject}
use talisman_v.Composition.{ApprovalRequest}
use Prim.Native.String.{◌++◌ as text_append}

-- adapters/telegram/allowlist.py

abbrev pub same_int : ℤ → ℤ → Bool
same_int (pos m) (pos n) = m == n
same_int (negsuc m) (negsuc n) = m == n
same_int (pos m) (negsuc n) = false
same_int (negsuc m) (pos n) = false

-- `TelegramAllowlist.is_allowed`
unfoldable pub is_allowed_user : List ℤ → ℤ → Bool
is_allowed_user [] user_id = false
is_allowed_user (id ∷ ids) user_id = same_int user_id id || is_allowed_user ids user_id

-- the exceptions of the allowlist
pub data AllowlistError : Type 0 where
  permission_error : ℤ → AllowlistError
  value_error : AllowlistError

-- `TelegramAllowlist.ensure_allowed`
unfoldable pub ensure_allowed_user : List ℤ → ℤ → Raises AllowlistError (Unit {0})
unfolding is_allowed_user
ensure_allowed_user ids user_id =
    if is_allowed_user ids user_id then returns tt else raises (permission_error user_id)

-- `not line or line.startswith("#")`
abbrev is_skipped : List ℕ → Bool
is_skipped [] = true
is_skipped (c ∷ s) = c == 35

-- `load_allowlist`, of the lines of the file; the order and repetition of the ids do not matter
unfoldable pub load_allowlist :
    (List ℕ → List ℕ)
    → (List ℕ → Raises AllowlistError ℤ)
    → List (List ℕ)
    → Raises AllowlistError (List ℤ)
load_allowlist strip to_int [] = returns []
load_allowlist strip to_int (raw_line ∷ raw_lines) =
    let rest = load_allowlist strip to_int raw_lines in
    if is_skipped (strip raw_line)
    then rest
    else (do id ← to_int (strip raw_line); ids ← rest; returns (id ∷ ids))

-- adapters/telegram/bot.py

pub record IncomingMessage : Type 0 where
  pub update_id : ℕ
  pub user_id : ℤ
  pub chat_id : ℤ
  pub text : List ℕ

pub record TelegramBot (W : Type 0) : Type 0 where
  pub allowed_user_ids : List ℤ
  pub get_updates : ℕ → ℕ → W → Raises String (List IncomingMessage) × W
  pub send_message : ℤ → String → W → Raises String (Unit {0}) × W

abbrev pub is_authorized : {W : Type 0} → TelegramBot W → IncomingMessage → Bool
is_authorized bot message = is_allowed_user bot.allowed_user_ids message.user_id

-- adapters/telegram/approver.py

-- `TelegramApprover`, but for its offset, which is state; `strip` and `lower` of Python's texts
pub record TelegramApprover (W : Type 0) : Type 0 where
  pub bot : TelegramBot W
  pub chat_id : ℤ
  pub poll_timeout : ℕ
  pub sleep : W → W
  pub strip : List ℕ → List ℕ
  pub lower : List ℕ → List ℕ

abbrev pub gate_message : ApprovalRequest → String
gate_message request = text_append "TalisMan gate: " (
    text_append request.gate_id
      (text_append "\n" (text_append request.message "\n\nReply APPROVE or REJECT.")))

abbrev last_of : IncomingMessage → List IncomingMessage → IncomingMessage
last_of m [] = m
last_of m (m' ∷ ms) = last_of m' ms

module _ {W : Type 0} (self : TelegramApprover W) where
  -- `_parse_decision`
  unfoldable pub parse_decision : List ℕ → Option ApprovalDecision
  unfolding strip_left same_codes
  parse_decision text =
      let word = self.strip (strip_left (λ (c : ℕ). c == 47) (self.lower (self.strip text))) in
      if same_codes word (code_points "approve")
      then some approve
      else if same_codes word (code_points "reject")
      then some reject
      else none

  -- `_drain_pending_updates`: the offset that it leaves
  abbrev drained :
      (ℕ → W → Option (Raises String ℕ × W))
      → ℕ
      → Raises String (List IncomingMessage) × W
      → Option (Raises String ℕ × W)
  drained again offset (raises e, w) = some (raises e, w)
  drained again offset (returns [], w) = some (returns offset, w)
  drained again offset (returns (m ∷ ms), w) = again ((last_of m ms).update_id + 1) w

  unfoldable pub drain_pending_updates : ℕ → ℕ → W → Option (Raises String ℕ × W)
  drain_pending_updates zero offset w = none
  drain_pending_updates (suc fuel) offset w =
      drained (drain_pending_updates fuel) offset (self.bot.get_updates offset 0 w)

  -- whether a message is a decision: the right chat, an allowed user, and one of the two words
  abbrev pub decision_of : IncomingMessage → Option ApprovalDecision
  decision_of message =
      if not (same_int message.chat_id self.chat_id)
      then none
      else if not (is_authorized self.bot message)
      then none
      else parse_decision message.text

  -- the `for` loop over a batch: the decision that it returns, and the offset
  abbrev scanned :
      ℕ → Option ApprovalDecision × ℕ → Option ApprovalDecision → Option ApprovalDecision × ℕ
  scanned offset rest none = rest
  scanned offset rest (some decision) = (some decision, offset)

  unfoldable pub scan : ℕ → List IncomingMessage → Option ApprovalDecision × ℕ
  unfolding is_allowed_user parse_decision
  scan offset [] = (none, offset)
  scan offset (message ∷ messages) =
      scanned (message.update_id + 1) (scan (message.update_id + 1) messages) (decision_of message)

  -- the `while` loop: the decision, with the offset that is left
  abbrev pub Reply : Type 0
  Reply = Option (Raises String (ApprovalDecision × ℕ) × W)

  abbrev after_scan : (ℕ → W → Reply) → W → Option ApprovalDecision × ℕ → Reply
  after_scan again w (some decision, offset) = some (returns (decision, offset), w)
  after_scan again w (none, offset) = again offset (self.sleep w)

  abbrev polled : (ℕ → W → Reply) → ℕ → Raises String (List IncomingMessage) × W → Reply
  polled again offset (raises e, w) = some (raises e, w)
  polled again offset (returns messages, w) = after_scan again w (scan offset messages)

  unfoldable pub wait_for_reply : ℕ → ℕ → W → Reply
  unfolding scan
  wait_for_reply zero offset w = none
  wait_for_reply (suc fuel) offset w =
      polled (wait_for_reply fuel) offset (self.bot.get_updates offset self.poll_timeout w)

  abbrev after_post : ℕ → ℕ → Raises String (Unit {0}) × W → Reply
  after_post fuel offset (raises e, w) = some (raises e, w)
  after_post fuel offset (returns _, w) = wait_for_reply fuel offset w

  abbrev after_drain : ℕ → ApprovalRequest → Option (Raises String ℕ × W) → Reply
  after_drain fuel request none = none
  after_drain fuel request (some (raises e, w)) = some (raises e, w)
  after_drain fuel request (some (returns offset, w)) =
      after_post fuel offset (self.bot.send_message self.chat_id (gate_message request) w)

  -- `request_approval`
  unfoldable pub request_approval : ℕ → ApprovalRequest → ℕ → W → Reply
  unfolding drain_pending_updates wait_for_reply
  request_approval fuel request offset w =
      after_drain fuel request (drain_pending_updates fuel offset w)
