-- ===== src/Edms/Status.antt =====
-- DOCUMENT_TRANSITIONS of modules/edms/entities/document.entity.ts.
use coes_platform.Base.{Bool, true, false, List, [], ◌∷◌, any}
use coes_platform.Edms.State.{
  DocumentStatus, draft, registered, in_workflow, completed, archived, cancelled,
}

unfoldable pub document_transitions : DocumentStatus → List DocumentStatus
document_transitions draft = registered ∷ cancelled ∷ []
document_transitions registered = in_workflow ∷ completed ∷ cancelled ∷ []
document_transitions in_workflow = completed ∷ registered ∷ cancelled ∷ []
document_transitions completed = archived ∷ []
document_transitions archived = []
document_transitions cancelled = []

abbrev pub same_status : DocumentStatus → DocumentStatus → Bool
same_status draft draft = true
same_status registered registered = true
same_status in_workflow in_workflow = true
same_status completed completed = true
same_status archived archived = true
same_status cancelled cancelled = true
same_status _ _ = false

-- `allowed.includes(target)`.
unfoldable pub may_become : DocumentStatus → DocumentStatus → Bool
unfolding document_transitions
may_become from target = any (same_status target) (document_transitions from)

-- issueResolution refuses these, and assertDocumentAllowsCompletion of resolution.service.ts.
abbrev pub is_closed_to_work : DocumentStatus → Bool
is_closed_to_work draft = true
is_closed_to_work cancelled = true
is_closed_to_work archived = true
is_closed_to_work _ = false
