-- ===== src/Telegram/Fresh.antt =====
-- Whose reply adapters/telegram/approver.py takes for a decision, and from when.
use talisman_v.Prelude.{ℕ, ◌+◌, ◌≤◌, String, ◌≡◌, ◌⊎◌, true, Option, none, some, List, [], ◌∷◌, All}
use talisman_v.Prelude.Raises.{Raises, returns, raises}
use talisman_v.Spiral.State.{ApprovalDecision}
use talisman_v.Telegram.{
  same_int, is_authorized, IncomingMessage, TelegramApprover, parse_decision, Reply,
}

-- A message is one of a batch.
abbrev pub Within : IncomingMessage → List IncomingMessage → Type 0
Within message [] = ⊥
Within message (m ∷ ms) = (message ≡ m) ⊎ Within message ms

abbrev pub FromOffset : ℕ → Raises String (List IncomingMessage) → Type 0
FromOffset offset (raises e) = Unit
FromOffset offset (returns ms) = All (λ (m : IncomingMessage). offset ≤ m.update_id) ms

-- Telegram's `getUpdates` hands out no update below the offset that is asked for.
module _ {W : Type 0} (self : TelegramApprover W)
    (get_updates_from : (offset timeout : ℕ) (w : W)
      → FromOffset offset (self.bot.get_updates offset timeout w).0) where
  -- A message that a poll of the wait returned, from an offset no lower than `first`.
  pub record Received (first : ℕ) (message : IncomingMessage) : Type 0 where
    pub offset : ℕ
    pub before : W
    pub after : W
    pub batch : List IncomingMessage
    pub polled_batch : self.bot.get_updates offset self.poll_timeout before ≡ (returns batch, after)
    pub in_batch : Within message batch
    pub later : first ≤ offset
    pub fresh : first ≤ message.update_id

  -- A received message that decides: from the operator's chat, of an allowed user, with the exact word.
  pub record Decides (first : ℕ) (decision : ApprovalDecision) (offset : ℕ) : Type 0 where
    pub message : IncomingMessage
    pub received : Received first message
    pub in_chat : same_int message.chat_id self.chat_id ≡ true
    pub authorized : is_authorized self.bot message ≡ true
    pub parsed : parse_decision self message.text ≡ some decision
    pub next : offset ≡ message.update_id + 1

  -- What a scan gives: a decision of one of the messages, or an offset no lower than `first`.
  abbrev ScanGood : ℕ → Option ApprovalDecision × ℕ → Type 0
  ScanGood first (none, offset) = first ≤ offset
  ScanGood first (some d, offset) = Decides first d offset

  -- What the loop answers: if it returns a decision, that of a message from `first` on.
  abbrev ReplyGood : ℕ → Reply self → Type 0
  ReplyGood first none = Unit
  ReplyGood first (some (raises e, w)) = Unit
  ReplyGood first (some (returns (d, offset), w)) = Decides first d offset

  -- Draining ends where a poll at the offset that it leaves is empty.
  abbrev DrainGood : Option (Raises String ℕ × W) → Type 0
  DrainGood none = Unit
  DrainGood (some (raises e, w)) = Unit
  DrainGood (some (returns offset, w)) =
      (w₀ : W) × (self.bot.get_updates offset 0 w₀ ≡ (returns [], w))
