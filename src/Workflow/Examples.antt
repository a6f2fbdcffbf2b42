-- ===== src/Workflow/Examples.antt =====
-- The theorems on the workflow engine at the small workflow.
use coes_platform.Base.{ℕ, Option, none, some, List, [], ◌∷◌, count, ◌≡◌, refl, map, find, arith}
use coes_platform.Base.Action.{Exception, raise}
use coes_platform.Org.Samples.{officers}
use coes_platform.Workflow.State.{
  DocumentStatus, signing, fixed_position, WorkflowReport, WorkflowStore, document_of, rejected,
}
use coes_platform.Workflow.Engine.{activate_next}
use coes_platform.Workflow.Actions.{admit_action, act_on_step, mark_overdue_steps}
use coes_platform.Workflow.Templates.{
  CreateTemplateDto, serves, create_template, create_template-active,
}
use coes_platform.Workflow.Runs.{
  Request, start, act, resume, detection, serve_requests, serve_requests-IsOrderly,
}
use coes_platform.Workflow.Samples.{
  occupant, definitions, decree, circulation, first_step, office, actor, approve, reject, delegated,
  program,
}
use coes_platform.Workflow.Skips.{IsAscending, is_next, go_to, activate_next_lem}
use coes_platform.Workflow.Acting.{admit_action-delegated, act_on_step-overdue}
use coes_platform.Workflow.Foreign.{act_on_step-other_document}
use coes_platform.Workflow.Valid.{IsOrderly}

office-IsOrderly : IsOrderly office
office-IsOrderly = ground arith

definitions-IsAscending : IsAscending definitions
definitions-IsAscending = ground arith

activate_next_lem_example :
    (reports : List WorkflowReport) × (who : Option ℕ) × (activate_next officers occupant 30
        circulation decree 1
        (some 2)
        definitions
        office
      ≡ go_to officers occupant 30 circulation decree who
          (find (is_next 1 decree) definitions)
          (record office { reports = reports }))
activate_next_lem_example =
    activate_next_lem officers occupant 30 circulation decree 1 (some 2) definitions office
      definitions-IsAscending

admit_action-delegated_example :
    admit_action officers occupant 6 8 delegated (actor 4) office
    ≡ admit_action officers occupant 6 8 delegated (record (actor 4) { position_id = 2 }) office
admit_action-delegated_example =
    admit_action-delegated officers occupant 6 8 delegated (actor 4) 2 office refl

-- A second document, which has no workflow.
abbrev two_documents : WorkflowStore
two_documents = record office { documents = record decree { id = 9 } ∷ office.documents }

-- A rejection of a step of document 6 in a request that names document 9 ends the workflow of 6 and
-- cancels 9.
foreign_rejection :
    let after = (act_on_step officers occupant 30 9 8 reject (actor 2) two_documents).1 in
    (document_of 9 after ≡ some (record decree { id = 9; status = DocumentStatus.cancelled }))
    × (document_of 6 after ≡ some decree)
    × (map (λ i. i.status) after.instances ≡ rejected ∷ [])
unfolding program
foreign_rejection = (refl, refl, refl)

act_on_step-other_document_example :
    document_of 6 (act_on_step officers occupant 30 9 8 reject (actor 2) two_documents).1
    ≡ document_of 6 two_documents
act_on_step-other_document_example =
    act_on_step-other_document officers occupant 30 9 8 reject (actor 2) 6 two_documents refl

act_on_step-overdue_example :
    let after = (mark_overdue_steps 60 office).1 in
    (e : Exception) × (act_on_step officers occupant 70 6 8 approve (actor 2) after
      ≡ (raise e, after))
act_on_step-overdue_example =
    act_on_step-overdue officers occupant 60 70 6 approve (actor 2) office first_step (ground arith)
      refl refl

-- A shorter circulation for the same document type.
abbrev shorter : CreateTemplateDto
shorter = record {
  name = "signing only";
  description = none;
  document_type_id = 1;
  steps =
      record {
        step_order = 1;
        step_name = "signing";
        step_type = signing;
        target_resolver = record {
          type = fixed_position;
          position_id = some 1;
          department_id = 1;
          level = none;
          role = none;
        };
        is_parallel = none;
        parallel_threshold = none;
        timeout_hours = some 24;
        secondary_escalation_hours = none;
        return_to_step = none;
        condition = none;
        is_optional = none;
      }
      ∷ [];
}

create_template-active_example : count (serves 1) (create_template shorter 3 office).1.templates ≡ 1
create_template-active_example = create_template-active shorter 3 1 office

-- Some requests: an approval, a detection, a rejection of the wrong type, a start and a resumption.
abbrev week : List Request
week =
    act 30 6 8 approve (actor 2)
    ∷ detection 60
    ∷ act 70 6 20 reject (actor 2)
    ∷ start 80 6 3 none
    ∷ resume 90 6 (actor 3)
    ∷ []

serve_requests-IsOrderly_example : IsOrderly (serve_requests officers occupant week office)
serve_requests-IsOrderly_example =
    serve_requests-IsOrderly officers occupant week office office-IsOrderly
