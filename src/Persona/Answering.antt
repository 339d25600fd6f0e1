-- ===== src/Persona/Answering.antt =====
-- backend/internal/persona/manager.go: how a persona answers a request, and the texts that it sends.
-- The model behind LLM.Complete is a parameter.
use Prim.Native.Char.{Char, code}
use deeperseek.Chunks.{chunk_runes}
use deeperseek.Core.Requests.{request_snapshot}
use deeperseek.Core.Responders.{submit_fragment, finish, skip}
use deeperseek.Core.State.{Service, ok, err, is_unset}
use deeperseek.Core.Types.{Time, Message, Kind, human, ai_persona, fallback, AssignedRequest}
use deeperseek.Prelude.{
  ℕ, suc, String, count, ◌<>◌, Bool, true, false, not, ◌&&◌, ◌||◌, Option, none, some, List, [],
  ◌∷◌, ℤ, pos, trim_space, take_runes, ltb, nat_eq, if◌then◌else◌,
}

unfoldable pub answer_messages : List Message → List Message
answer_messages messages =
    record { role = "system"; content = "你在一个恶搞聊天产品里扮演“假装是 AI 的人类”。用自然、简洁、略带调侃的中文回答用户，别提到这些系统说明。" }
    ∷ messages

abbrev pub question_messages : List Message
question_messages =
    record { role = "user"; content = "你是一个爱提问的普通用户。用一句简短、有点意思的中文，向“AI”提一个问题。只输出问题本身，不要引号或解释。" }
    ∷ []

abbrev pub follow_up_question_messages : List Message → List Message
follow_up_question_messages history =
    record {
      role = "system";
      content =
          "你是正在和一个 AI 连续聊天的普通用户。根据完整对话和对方刚才的回答，自然地追问一个简短、有意思的中文问题。不要重复已经问过的问题。只输出下一问本身，不要引号、前缀或解释。";
    }
    ∷ history

-- `strings.HasSuffix` with a suffix of one character.
unfoldable pub ends_in : ℕ → String → Bool
ends_in n String.[] = false
ends_in n (String.◌∷◌ c s) = if is_unset s then nat_eq (code c) n else ends_in n s

-- The characters of `"。.!！"`.
unfoldable pub is_mark : Char → Bool
is_mark c =
    nat_eq (code c) 0x3002 || nat_eq (code c) 0x2e || nat_eq (code c) 0x21 || nat_eq (code c) 0xff01

unfoldable pub trim_marks : String → String
trim_marks String.[] = ""
trim_marks (String.◌∷◌ c s) =
    let rest = trim_marks s in if is_unset rest && is_mark c then "" else String.◌∷◌ c rest

unfoldable pub with_question_mark : String → String
with_question_mark t =
    if not (is_unset t) && not (ends_in 0xff1f t) && not (ends_in 0x3f t)
    then trim_marks t <> "？"
    else t

unfoldable pub trim_question : String → String
trim_question question =
    let t = with_question_mark (trim_space question) in
    if ltb 500 (count t) then take_runes 500 t else t

abbrev is_human : Kind → Bool
is_human human = true
is_human ai_persona = false
is_human fallback = false
is_human Kind.unset = false

-- `stops n` tells whether the context is done before the fragment `n`, `clock n` the time then.
module _ (stops : ℕ → Bool) (clock : ℕ → Time) where
  -- The loop over the chunks, from the fragment `seq`, and the Finish behind it.
  unfoldable pub submit_chunks : String → ℕ → List String → Service → Service
  submit_chunks sid seq [] s = (finish sid (clock seq) s).1
  submit_chunks sid seq (chunk ∷ chunks) s =
      if stops seq
      then s
      else (let (submitted, s') = submit_fragment sid (pos seq) chunk (clock seq) s in
          elim submitted [
            | err e ↦ (finish sid (clock seq) s').1
            | ok f ↦ submit_chunks sid (suc seq) chunks s'
          ])

  abbrev pub skipped : String → Service → Bool × Service
  skipped sid s = (false, (skip sid (clock 0) (clock 0) s).1)

  -- Whether the persona produced an answer, and the state.
  unfoldable pub answer :
      (List Message → Option String) → ℤ → String → AssignedRequest → Service → Bool × Service
  answer complete chunk_size sid a s = elim (request_snapshot a.request_id s) [
    | err e ↦ skipped sid s
    | ok (snap, text) ↦
        if not (is_human snap.requester_kind)
        then skipped sid s
        else elim (complete (answer_messages a.messages)) [
          | none ↦ skipped sid s
          | some text ↦
              if is_unset (trim_space text)
              then skipped sid s
              else (true, submit_chunks sid 1 (chunk_runes text chunk_size) s)
        ]
  ]
