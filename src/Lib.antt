-- ===== src/Lib.antt =====
-- The core services of the backend of the coordination platform: who stands above whom, who may do
-- what, what happens to a task and to a document from its creation to its end, how a document passes
-- through its workflow and is carried out, and how events are handed over between the modules.
--
-- The parts, and how they interact. Paths are from the root of the repository; "modules" stands for
-- apps/backend/src/modules.
--
--   Org     modules/org/services/org.service.ts, org/entities, org/dto. Departments and positions are
--           two tables. `getCommandChain` follows the superiors of a position, `isSubordinateTo` asks
--           whether a position is on that chain. Org/Grounded: tables in which each superior is an
--           older row. Org/Chain: when the loop ends. Org/Authority: the relation. Org/Port: what the
--           other services rely on, as a record that the position table fills.
--   Tasks   modules/tasks/services/tasks.service.ts, tasks/entities, tasks/dto. Each public method is
--           a function on the tables of the service, given the chain of command: Create (createTask),
--           Transition (transitionStatus, propagateToParent), Edit (updateTask, updateProgress,
--           comments, attachments), Executors (addExecutor, removeExecutor, reassignTask), Extensions
--           (requestDeadlineExtension, reviewDeadlineExtension, markOverdueTasks), on State (entities,
--           tables), Status (TASK_TRANSITIONS) and Checks (the private checks of the service). The
--           proofs: Valid and Invariant (well-formed rows), Moves (transitions), Creation, Overdue,
--           Requests (extensions), Runs (any sequence of requests), Secrecy (clearance), Machine
--           (reachable statuses), Oversight (what the checks leave open).
--   Authz   modules/authorization. Roles with parents, the roles of users and of positions,
--           delegations, rules on the separation of duties, and a cache of decisions. State: entities
--           and tables. Roles: the walk along the parents. Decide: checkRbacWithScope and its cache.
--           Grants: positions, delegations and `can`. Sod: create and check rules, and the scan of
--           governance.service.ts. Admin: the changes of roles and assignments. Delegated:
--           delegated-admin.service.ts. Portal: what a user is shown. The proofs: Lineage (the walk
--           ends), Capabilities (portal and check), Duties (separation of duties), Cached, Justified,
--           Positions and Access (what a decision rests on), Backing, Requests, Trusted and Runs (the
--           cache through any requests).
--   Edms    modules/edms/services/edms.service.ts, resolution.service.ts, the assignment rounds of
--           edms-scheduler.service.ts, edms/listeners, edms/entities, edms/dto. State, Status,
--           Documents, Registry (registration numbers) and Lifecycle (statuses, attachments, archive)
--           are the document service; Executors, Execution, Issuing and Extensions the resolution
--           service; Listing the list of documents; Sync the scheduler and the listener for completed tasks. The proofs: Numbering,
--           Valid, Changes and Runs (documents), Orders, Reviews and Proceedings (resolutions). The
--           resolution service asks the chain of command of Org and reads the documents; the tasks
--           that the published resolutions lead to come back as completed tasks.
--   Outbox  modules/outbox/services/outbox.service.ts, outbox/entities. Events are stored and handed
--           to the listeners until they succeed or run out of attempts. Summary holds the reports for
--           operators. The proofs: Valid (well-formed rows), Retry (attempts and backoff), Batch (what
--           a batch does to each row), Reports, Runs (any sequence of requests).
--   Inbox   modules/inbox/services/inbox.service.ts, inbox/entities. A consumer runs its handler once
--           for each message. Once: any interleaving of the steps of calls.
--           Sequential: calls in turn.
--   Workflow modules/edms/services/workflow.service.ts, edms/entities, edms/dto/act-on-step.dto.ts. A
--           document passes through the steps of a template. State: the entities and tables. Resolve:
--           the position of a step and the conditions. Instances: how an instance ends or is suspended.
--           Engine: activateStep, getNextStepDef, advanceWorkflow. Actions: startWorkflow, actOnStep,
--           resumeWorkflow, markOverdueSteps. Templates: createTemplate. The proofs: Valid
--           (well-formed rows), Runs (any sequence of requests), Skips (which step comes next), Acting
--           (who may act on a step), Foreign (the documents that a request does not name). It reads the positions of Org.
--   Base    The helpers that the models share: tests on numbers, lists, tables of rows, and actions
--           that read and write a store and may throw.
--
-- How code is modelled.
--   - A repository of TypeORM is a list of rows, the newest first; `findOne` is the first row that
--     passes the test, `save` writes over the row with the id or adds it. An id that the database
--     generates is a number: an argument, or the next number of the store. A UUID is a number, a date
--     a day number, a time a number of milliseconds.
--   - A method is a function from a store to a result and a store. An exception keeps what was written
--     before it, since the services open no transaction. The messages of exceptions are left out.
--   - History rows, audit events, emitted events and published notifications are entries of a list,
--     without their JSON snapshots.
--   - The event emitter with its listeners is a parameter of the outbox: what it throws, if it does.
--     The handler of the inbox is a parameter, or a step of its own.
--   - `getCommandChain` is a loop on fuel, one round for each row and one for the end; that is shown to
--     be enough on the tables that `createPosition` builds.
--   - `activateStep` and `getNextStepDef` call each other down the sorted definitions of a template, so
--     they are one recursion on that list. A column that holds a UUID refuses a step for no position.
--   - Who occupies a position is a parameter of the workflow engine. Where it asks for a command chain
--     whose loop does not end, the chain is taken as empty.
--   - `executeOnce` is three steps, the look-up, the write of the claim and the end of the handler, in any
--     interleaving of calls. The unique index refuses a second row for a key.
--
--   - The cache of decisions is a list of entries under the user, the permission and the department; an
--     entry that expires or is evicted is a step of its own. Whether Redis answers when the entries of
--     a user are deleted is an argument. The descendants of a department and the sort of the portal's
--     capabilities are parameters, which are TypeORM's and the runtime's.
--   - The walk along the parents of a role is on fuel, one round for each role and two more, which is
--     shown to be enough for every table, also for one with a cycle.
--   - A registration number is kept by its series, number and year; the text `<series>-<seq>/<year>` is
--     left out. The transaction of a registration is one step. The years of retention are added by a
--     parameter, the calendar of the runtime.
--   - A request for a later deadline carries a text that nothing validates. What `new Date` makes of it
--     and which day the DATE column makes of it are two parameters; the entity that the method returns
--     has the day. Days and times are counted from the earliest time of a Date.
--   - A round of the automatic archiving writes a text that is no UUID into a UUID column, and the
--     database refuses it.
--
-- Not modelled: the other listings with paging, the maintenance of task types, tree queries of departments,
-- administration reports, the hash of a message's payload, `retryMessage`, and the other modules of the
-- backend (calls, chat, files, analytics, notifications, the sign-in and the rest), the gateway, the
-- media server and the user interfaces; of the documents the list of the archive and the secondary
-- escalation of workflow steps, and what saving a document with the attachments that its author may
-- see does to the ones that are filtered out; of the authorization the listings, the other governance reports and
-- the HTTP guards.
pub mod Base
pub mod Org
pub mod Authz
pub mod Outbox
pub mod Edms
pub mod Inbox
pub mod Tasks
pub mod Workflow
