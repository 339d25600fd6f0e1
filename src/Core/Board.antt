-- ===== src/Core/Board.antt =====
-- backend/internal/core/service.go: the spectator board.
use deeperseek.Core.State.{Service, Result, ok, answer_text_locked, input_chars}
use deeperseek.Core.Types.{Message, Request, RequestStatus, abandoned, BoardTicket}
use deeperseek.Prelude.{
  ℕ, suc, String, count, ◌<>◌, Bool, true, false, not, ◌&&◌, ◌||◌, List, [], ◌∷◌, ℤ, pos, negsuc,
  map, Dict, take, ◌==◌, ltb, leb, if◌then◌else◌,
}

abbrev pub user_turns : List Message → ℕ
user_turns [] = 0
user_turns (m ∷ ms) = if m.role == "user" then suc (user_turns ms) else user_turns ms

unfoldable pub question_category : List Message → String
question_category messages =
    let runes = input_chars messages in
    let category : String =
      if leb runes 40 then "闪电问答" else if ltb 400 runes then "长篇大论" else "常规提问" in
    if ltb 1 (user_turns messages) then category <> " · 连续追问" else category

abbrev pub is_abandoned : RequestStatus → Bool
is_abandoned abandoned = true
is_abandoned RequestStatus.created = false
is_abandoned RequestStatus.queued = false
is_abandoned RequestStatus.assigned = false
is_abandoned RequestStatus.typing = false
is_abandoned RequestStatus.streaming = false
is_abandoned RequestStatus.completed = false
is_abandoned RequestStatus.timeout_completed = false
is_abandoned RequestStatus.requeued = false

abbrev pub is_shown : Request → Bool
is_shown r = r.board_eligible && not (is_abandoned r.status)

unfoldable pub shown : Dict Request → List Request
shown [] = []
shown ((id, r) ∷ m) = if is_shown r then r ∷ shown m else shown m

-- `sort.Slice` by `CreatedAt.After`: newest first. The order of equal times is one that it may give.
unfoldable pub place : Request → List Request → List Request
place r [] = r ∷ []
place r (x ∷ xs) = if ltb r.created_at x.created_at then x ∷ place r xs else r ∷ x ∷ xs

unfoldable pub newest_first : List Request → List Request
newest_first [] = []
newest_first (r ∷ rs) = place r (newest_first rs)

-- `if limit <= 0 || limit > 200 { limit = 50 }`
unfoldable pub board_limit : ℤ → ℕ
board_limit (negsuc n) = 50
board_limit (pos n) = if leb n 0 || ltb 200 n then 50 else n

abbrev pub ticket : Service → Request → BoardTicket
ticket s r = record {
  request_id = r.id;
  category = question_category r.messages;
  status = r.status;
  responder_kind = r.responder_kind;
  responder_display = r.responder_display;
  reaction = r.reaction;
  answer_length = count (answer_text_locked s r.id);
  created_at = r.created_at;
}

unfoldable pub board : ℤ → Service → Result (List BoardTicket)
board limit s = ok (map (ticket s) (take (board_limit limit) (newest_first (shown s.requests))))
