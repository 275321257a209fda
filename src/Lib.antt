-- ===== src/Lib.antt =====
-- A verification of the core of the enterprise RAG assistant (backend/enterprise_rag).
--
-- The assistant serves several tenants from one database. A request enters with a verified login;
-- backend/enterprise_rag/application/tenant_context.py resolves it to an identity of one tenant,
-- from stored rows alone, and checks operations against a permission matrix. Work that takes
-- long is written as a job and an outbox row in one transaction; a dispatcher
-- (backend/enterprise_rag/infrastructure/queue.py) claims outbox rows, publishes them to a queue
-- and retries or poisons what the broker refuses; workers take deliveries from the queue and hold
-- jobs by leases (backend/enterprise_rag/application/task_leases.py). A question is answered from
-- evidence that two searches find, that is fused, and that is checked against the database before
-- it is used.
--
-- Base holds what the parts share: keys and times (numbers), tests, lists, results, signed
-- integers and a stable sort. Domain is backend/enterprise_rag/domain/types.py: Domain/Lifecycle
-- the state machines of tenants, memberships and invitations, Domain/Message the task message.
-- Access is tenant_context.py: Access/Permission the matrices (TENANT_PERMISSION_MATRIX,
-- require_tenant_permission), Access/Context the resolution (effective_roles,
-- resolve_tenant_context). Queue is InProcessQueue, QueueDelivery and consume_with_retry;
-- Queue/System puts it among publishers and consumers. Outbox is OutboxService and
-- OutboxDispatcher. Lease is TaskLeaseService. Retrieval is
-- backend/enterprise_rag/application/retrieval.py and security.py: Retrieval/Scope compiles what a
-- caller may search, Retrieval/Fusion merges ranked lists, Retrieval/Evidence checks candidates
-- against the database and selects evidence, Retrieval/Service composes them.
--
-- Limits is backend/enterprise_rag/infrastructure/limits.py and the memory store of cache.py; Gateway
-- is ModelGateway of backend/enterprise_rag/application/providers.py, which calls a language model
-- under a limit, with retries and a circuit. Audit is AuditService of
-- backend/enterprise_rag/application/audit.py, the hash chain of the events of each tenant.
--
-- Config is TenantConfigurationService of
-- backend/enterprise_rag/application/tenant_configuration.py: Config/Lookup reads the tables of
-- Config/Tables, Config writes versions of a configuration and activates them. Quota is
-- TenantQuotaService of the same file: Quota/Ledger is the account that it promises each tenant and
-- resource, Quota/Runs and Quota/Reservations play calls of all tenants, Quota/Reconcile counts
-- usage as calculate_tenant_usage does. Members is TenantMembershipService of
-- backend/enterprise_rag/application/tenant_membership.py: Members/Rows holds the rows and what each
-- change ends with, Members the members, Members/Groups, Members/Invitations and Members/Recovery
-- the rest. Platform is PlatformTenantService of
-- backend/enterprise_rag/application/tenant_admin.py. These services write audit events by Audit
-- and outbox rows by Outbox, members count against Quota, which reads the limits by Config, and the
-- rows that Members and Platform write are those that Access resolves logins against. Search is the
-- indexes in memory of backend/enterprise_rag/infrastructure/search.py (_MemorySearchBase,
-- MemoryVectorSearch, MemoryLexicalSearch), searches of the kind that Retrieval takes as arguments.
-- Cleanup is IndexGenerationCleanupService of
-- backend/enterprise_rag/application/generation_cleanup.py, which deletes from them.
--
-- Conventions. A table is the list of its rows and a query the comprehension over them; a text
-- that is only compared is a number (Key), a moment is a number of seconds (Time), given as an
-- argument where the code reads the clock. Ids that `new_id` makes are arguments. Rows that other
-- transactions lock are told by a function (SKIP LOCKED passes over them). An operation that raises
-- returns a Result; an operation that waits returns what it waits with. The loops are structural
-- recursion over lists, so there is no fuel. `str`, `strip`, the hash, pydantic's validation of a
-- configuration, the type of scores, the embedding, the searches and the reranker are parameters.
--
-- Not modelled: ingestion, the orchestration of queries, the loop of the worker, evaluation,
-- reconciliation, guardrails, the services of assistants and knowledge spaces, the HTTP layer, the
-- adapters of external services (RabbitMQ, Redis, Milvus, Qdrant, OpenSearch, object stores),
-- parsers, telemetry and the wiring of the application.
pub mod Access
pub mod Audit
pub mod Base
pub mod Cleanup
pub mod Config
pub mod Domain
pub mod Gateway
pub mod Lease
pub mod Limits
pub mod Members
pub mod Outbox
pub mod Platform
pub mod Queue
pub mod Quota
pub mod Retrieval
pub mod Search
