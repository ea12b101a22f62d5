-- ===== src/Dialogs/Models.antt =====
-- backend/src/smeshariki_ai/dialogs/models.py and errors.py. Identifiers and times are numbers, as
-- in authentication. A message of a dialog has no tool call, so that `Message` of
-- backend/src/smeshariki_ai/agent/models.py is its role and its content here.
use Prim.Native.String.{count, ◌++◌}
use bmstu_nirs.Common.{Bool, List, Option, String, false, if◌then◌else◌, leb, suc, true, zero, ℕ}
pub use bmstu_nirs.Agent.Models.{MessageRole, system, user, assistant, tool}

abbrev pub Uuid : Type 0
Uuid = ℕ

abbrev pub Time : Type 0
Time = ℕ

abbrev pub is_user : MessageRole → Bool
is_user user = true
is_user _ = false

abbrev pub is_assistant : MessageRole → Bool
is_assistant assistant = true
is_assistant _ = false

pub record Message : Type 0 where
  pub role : MessageRole
  pub content : String

pub data ReportReason : Type 0 where
  scary rude wrong other : ReportReason

pub data ReportState : Type 0 where
  sent reviewed : ReportState

pub record StoredMessage : Type 0 where
  pub id : ℕ
  pub role : MessageRole
  pub content : String
  pub created_at : Time
  pub feedback : Option ℕ
  pub report : Option ReportState

pub record DialogSummary : Type 0 where
  pub dialog_id : Uuid
  pub title : Option String
  pub created_at : Time
  pub updated_at : Time

pub record ReportNews : Type 0 where
  pub report_id : ℕ
  pub dialog_id : Option Uuid
  pub dialog_title : Option String

pub record DialogTranscript : Type 0 where
  pub dialog_id : Uuid
  pub title : Option String
  pub messages : List StoredMessage

pub data DialogError : Type 0 where
  dialog_not_found : Uuid → DialogError
  message_not_found : Uuid → ℕ → DialogError
  report_exists : Uuid → ℕ → DialogError

pub data Result {ℓ} (A : Type ℓ) : Type ℓ where
  ok : A → Result A
  err : DialogError → Result A

-- `text[:n]`
unfoldable pub take_chars : ℕ → String → String
take_chars zero s = ""
take_chars (suc n) String.[] = ""
take_chars (suc n) (String.◌∷◌ c s) = String.◌∷◌ c (take_chars n s)

-- `" ".join(text.split())` and `str.rstrip` come as parameters.
unfoldable pub dialog_title : (String → String) → (String → String) → String → String
dialog_title one_line rstrip text =
    let title = one_line text in
    if leb (count title) 200 then title else rstrip (take_chars 200 title) ++ "…"
