-- ===== src/Workflow/Templates.antt =====
-- `createTemplate`.
use coes_platform.Base.{
  ℕ, suc, ap, ◌∙◌, String, Bool, true, false, ◌&&◌, Option, List, [], ◌∷◌, ◌≡◌, refl, map, ◌==◌,
  or_else, if◌then◌else◌, count, arith,
}
use coes_platform.Base.Action.{Action, >>-eq, return, modify, pure, for_each, ◌>>=◌, ◌>>◌}
use coes_platform.Workflow.State.{
  StepType, TargetResolver, StepCondition, StepDefinition, Template, WorkflowStore, audit, report,
  fresh_id,
}

pub record StepDefinitionDto : Type 0 where
  pub step_order : ℕ
  pub step_name : String
  pub step_type : StepType
  pub target_resolver : TargetResolver
  pub is_parallel : Option Bool
  pub parallel_threshold : Option ℕ
  pub timeout_hours : Option ℕ
  pub secondary_escalation_hours : Option ℕ
  pub return_to_step : Option ℕ
  pub condition : Option StepCondition
  pub is_optional : Option Bool

pub record CreateTemplateDto : Type 0 where
  pub name : String
  pub description : Option String
  pub document_type_id : ℕ
  pub steps : List StepDefinitionDto

-- The test of an active template of a document type.
abbrev pub serves : ℕ → Template → Bool
serves k t = t.document_type_id == k && t.active

-- `update({ documentTypeId, active: true }, { active: false })`.
abbrev pub retire : ℕ → Template → Template
retire k t = if serves k t then record t { active = false } else t

abbrev pub add_definition : ℕ → StepDefinitionDto → Action WorkflowStore (Unit {0})
add_definition template dto = do
  new_id ← fresh_id
  let def : StepDefinition = record {
    id = new_id;
    template_id = template;
    step_order = dto.step_order;
    step_name = dto.step_name;
    step_type = dto.step_type;
    target_resolver = dto.target_resolver;
    is_parallel = or_else dto.is_parallel false;
    parallel_threshold = dto.parallel_threshold;
    timeout_hours = dto.timeout_hours;
    secondary_escalation_hours = dto.secondary_escalation_hours;
    return_to_step = dto.return_to_step;
    condition = dto.condition;
    is_optional = or_else dto.is_optional false;
  }
  modify (λ s. record s { definitions = def ∷ s.definitions })

unfoldable pub create_template : CreateTemplateDto → (actor : ℕ) → Action WorkflowStore Template
create_template dto actor = do
  modify (λ s. record s { templates = map (retire dto.document_type_id) s.templates })
  new_id ← fresh_id
  let template : Template = record {
    id = new_id;
    name = dto.name;
    description = dto.description;
    document_type_id = dto.document_type_id;
    version = 1;
    active = true;
  }
  modify (λ s. record s { templates = template ∷ s.templates })
  for_each (add_definition new_id) dto.steps
  report (audit "WORKFLOW_TEMPLATE_CREATED" new_id actor ∷ [])
  pure template

count-retire :
    (j k : ℕ) (ts : List Template)
    → count (serves j) (map (retire k) ts) ≡ (if j == k then 0 else count (serves j) ts)
count-retire j k [] = ground arith
count-retire j k (t ∷ ts) = let rest = count-retire j k ts in ground arith

add_definitions-templates :
    (k : ℕ) (dtos : List StepDefinitionDto) (s : WorkflowStore)
    → ((for_each (add_definition k) dtos s).0 ≡ return tt)
      × ((for_each (add_definition k) dtos s).1.templates ≡ s.templates)
add_definitions-templates k [] s = (refl, refl)
add_definitions-templates k (dto ∷ dtos) s =
    add_definitions-templates k dtos (add_definition k dto s).1

-- After a template is created it is the one active template of its document type, and every other
-- type has as many active templates as before.
pub create_template-active :
    (dto : CreateTemplateDto) (actor j : ℕ) (s : WorkflowStore)
    → count (serves j) (create_template dto actor s).1.templates
      ≡ (if j == dto.document_type_id then 1 else count (serves j) s.templates)
unfolding create_template
create_template-active dto actor j s =
    let template : Template = record {
      id = s.next_id;
      name = dto.name;
      description = dto.description;
      document_type_id = dto.document_type_id;
      version = 1;
      active = true;
    } in
    let placed : WorkflowStore = record s {
      templates = template ∷ map (retire dto.document_type_id) s.templates;
      next_id = suc s.next_id;
    } in
    let (returns, keeps) = add_definitions-templates s.next_id dto.steps placed in
    let retired = count-retire j dto.document_type_id s.templates in
    ap (λ o. count (serves j) o.1.templates)
      (>>-eq (for_each (add_definition s.next_id) dto.steps) _ placed returns)
    ∙ ap (count (serves j)) keeps
    ∙ ground arith
