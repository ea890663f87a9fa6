-- ===== src/Telegram/Textless.antt =====
-- Updates without a text, in adapters/telegram/bot.py and adapters/telegram/approver.py.
use talisman_v.Prelude.{ℕ, zero, suc, ◌+◌, String, ◌≡◌, refl, ap, none, List, [], ◌∷◌, ◌++◌, All}
use talisman_v.Prelude.Raises.{Raises, returns}
use talisman_v.Prelude.Codes.{code_points}
use talisman_v.Composition.{ApprovalRequest}
use talisman_v.Telegram.{
  TelegramApprover, drain_pending_updates, gate_message, scan, wait_for_reply, request_approval,
}
use talisman_v.Telegram.Bot.{
  BotError, RawUpdate, Httpx, get, params, Bot, base, text_of_message, parse_updates, request,
  get_updates, send_message, with_text, telegram_bot,
}

-- an update with no message, or with a message that has no text
abbrev pub IsTextless : RawUpdate → Type 0
IsTextless update = text_of_message update.message ≡ none

parse_updates-IsTextless :
    (updates : List RawUpdate) → All IsTextless updates → parse_updates updates ≡ returns []
unfolding parse_updates
parse_updates-IsTextless [] h = refl
parse_updates-IsTextless (update ∷ updates) (h, hs) =
    rw (h, parse_updates-IsTextless updates hs) refl

module _ {W R : Type 0} (shown : BotError → String) (httpx : Httpx W R) (bot : Bot)
    (approver : TelegramApprover W) (offset : ℕ) where
  abbrev pub live_approver : TelegramApprover W
  live_approver = record approver { bot = telegram_bot shown httpx bot }

  -- an answer to a poll from the offset: updates without a text, after which `After` holds
  pub record TextlessAnswer (After : W → Type 0) (timeout : ℕ) (w : W) : Type 0 where
    pub response : R
    pub updates : List RawUpdate
    pub world : W
    pub sent :
        httpx.send get
          (base bot ++ code_points "/" ++ code_points "getUpdates")
          (params offset timeout)
          (timeout + 10)
          w
        ≡ (returns response, world)
    pub accepted : httpx.raise_for_status response ≡ returns tt
    pub read : httpx.updates_of response ≡ returns updates
    pub textless : All IsTextless updates
    pub after : After world

  empty_poll :
      (After : W → Type 0) (timeout : ℕ) (w : W)
      → (a : TextlessAnswer After timeout w)
      → live_approver.bot.get_updates offset timeout w ≡ (returns [], a.world)
  unfolding telegram_bot get_updates request
  empty_poll After timeout w a =
      rw (a.sent, a.accepted, a.read, parse_updates-IsTextless a.updates a.textless) refl

  -- worlds in which polls from the offset are answered by updates without a text only
  module _ (Stuck : W → Type 0)
      (polls : (timeout : ℕ) (w : W) → Stuck w → TextlessAnswer Stuck timeout w)
      (sleeps : (w : W) → Stuck w → Stuck (approver.sleep w))
      (sends : (text : String) (w : W)
        → Stuck w
        → (w' : W) × (send_message httpx bot approver.chat_id text w ≡ (returns tt, w'))
          × Stuck w') where
    wait_stuck : (fuel : ℕ) (w : W) → Stuck w → wait_for_reply live_approver fuel offset w ≡ none
    unfolding wait_for_reply scan
    wait_stuck zero w h = refl
    wait_stuck (suc fuel) w h =
        let a = polls approver.poll_timeout w h in
        rw (empty_poll Stuck approver.poll_timeout w a)
          (wait_stuck fuel (approver.sleep a.world) (sleeps a.world a.after))

    posted :
        (text : String) (w : W)
        → Stuck w
        → (w' : W) × (live_approver.bot.send_message approver.chat_id text w ≡ (returns tt, w'))
          × Stuck w'
    unfolding telegram_bot
    posted text w h =
        let (w', e, h') = sends text w h in
        (w', ap (λ (p : Raises BotError (Unit {0}) × W). (with_text shown p.0, p.1)) e, h')

    -- An approver never answers, after however many polls, where a poll from its offset is
    -- answered by updates without a text, again and again: they leave the offset as it is, both
    -- in draining and in waiting, so a reply that stands after them is never asked for.
    pub textless_updates_block :
        (fuel : ℕ) (request : ApprovalRequest) (w : W)
        → Stuck w
        → request_approval live_approver fuel request offset w ≡ none
    unfolding request_approval drain_pending_updates
    textless_updates_block zero request w h = refl
    textless_updates_block (suc fuel) request w h =
        let a = polls 0 w h in
        let (w', e, h') = posted (gate_message request) a.world a.after in
        rw (empty_poll Stuck 0 w a, e) (wait_stuck (suc fuel) w' h')
