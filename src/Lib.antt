-- ===== src/Lib.antt =====
-- opsdesk: a model of the API of a multi-tenant helpdesk.
--
-- Paths are from the root of the repository; S stands for apps/api/src.
--
-- The API's services read and write one database, append to its audit log, tell the realtime gateway
-- what changed, and hand email deliveries to a job queue. State.antt is that shared state: the tables
-- as lists of rows, a fresh row at the head, the calls of the realtime service and those of the queue.
-- A method of a service is an action: a function from the state to a result and the state after it. A
-- thrown exception is a result too, and keeps what was written before it; `transaction` takes the
-- writes of its body back when the body throws. Ids and dates are natural numbers, and the id and the
-- time of a new row are arguments.
--
-- Requests run at the same time. Between the reads of a method and its writes stands an argument
-- `others : State → State`, which is whatever other requests commit there; the theorems hold for every
-- such function, or for every one that keeps the invariant. A transaction is one step: the database
-- locks the rows that it writes, and the role change runs at the serializable level.
--
-- Files:
--   Base        Base/Tests has Boolean tests and equality, Base/Rows queries and updates of tables
--               (lemmas in Base/Keys and Base/Deletions), Base/Texts texts that the code walks,
--               with lemmas in Base/Trimming,
--               Base/Actions results and actions, Base/Rules proofs about what an action does to the
--               state
--   Enums, Schema   the enums and the models of apps/api/prisma/schema.prisma
--   State       the state, the tenant of a request, the calls of the realtime service
--   Audit       S/audit/audit.service.ts: record, recordForTenant; Audit/Lists is list
--   Listing     the pages of the three lists: Listing/Order is orderBy, Listing/Filters the optional
--               parts of a where argument, Listing/Pages follows the pages of a list
--   Attachments S/attachments/attachments.service.ts: initiateUpload, completeUpload,
--               createDownloadUrl; Attachments/Policy is attachment-policy.ts, Attachments/Cleanup
--               cleanupAbandonedUploads with the job of S/jobs/maintenance.worker.ts.
--               Attachments/Filenames, Completion, Kept and Reclaimed are about them
--   Composer    apps/web/src/lib/attachments/policy.ts: validateFiles, with Composer/Agreement about it
--               and the API's policy
--   Rbac        S/rbac: the table of permissions, PermissionsService, PermissionGuard
--   Tenancy     S/users/users.service.ts: syncAuthenticatedUser; S/memberships/memberships.service.ts:
--               findForUserAndOrganization; S/tenancy: TenantContextService, TenantMembershipGuard.
--               Tenancy/Access is about both guards together
--   Tags        S/tags/tags.service.ts: create, with Tags/Names about it
--   Members     S/members/members.service.ts: updateRole. Members/Outcomes has the branches of a call,
--               Members/Owners what they keep
--   Organizations   S/organizations/organizations.service.ts: createForUser, listForUser, findById,
--               generateSlug. Organizations/Owned is about the owners, with the operations of Members
--               and Invitations
--   Customers   S/customers/customers.service.ts: create, update, archive, restore, findOne;
--               Customers/Lists is list, Customers/Addresses and Customers/Changes are about the addresses of
--               active customers
--   Tickets     S/tickets/tickets.service.ts: create, update, updateStatus; Tickets/Assignment has
--               assign, addTag, removeTag and findOne, Tickets/Lists list and listMessages,
--               Tickets/Queries what they share,
--               Tickets/Messages is createMessage. Tickets/Transitions is about the life cycle,
--               Tickets/Lifecycle, Tickets/Requests and Tickets/Service about the time stamps,
--               Tickets/Isolation and Tickets/Tenants about tenants, on the lemmas of Tickets/Parts,
--               Tickets/Messages/Sending, Cases, Duplicates, Rows, Outcome, Links and Limits about messages
--   Deliveries  the email deliveries: Deliveries/Worker is processTicketReply and Deliveries/Recovery
--               processRecovery of S/jobs/email.worker.ts, Deliveries/Events is
--               S/email/outbound-email-events.service.ts. Deliveries/Machine is the diagram of the
--               statuses; Deliveries/Evolution and Deliveries/History show that each job follows it,
--               Deliveries/Runs that every sequence of them does; Deliveries/Replay is about events
--               that come twice, Deliveries/Claims about jobs that do, Deliveries/Stale about
--               deliveries that got stuck
--   Invitations S/invitations/invitations.service.ts: create, cancel, accept, getStatus.
--               Invitations/Acceptance and Issuing have the outcomes of a call, SingleUse and
--               Cancellation what follows from them
--   Inbound     S/email/inbound-email.service.ts: handleReceivedEmail, with getReceivedEmail of
--               S/email/inbound-email-provider.service.ts; errors of the provider and of the database
--               are arguments. Inbound/Recorded and Inbound/Replay are about emails that come twice,
--               Inbound/Stored and Inbound/Reopening about the ticket of a stored one.
--               Inbound/Routing is S/email/inbound-email-routing.ts on texts, with Routing/Addresses
--               about it
--   JobQueue    S/jobs/jobs.service.ts: ensureEmailDeliveryQueued over an interface of the queue library,
--               with JobQueue/Ensured about it; elsewhere the state only lists what was handed to it
--   Webhooks    S/email/resend-webhook.controller.ts and resend-webhook-verification.service.ts: the call
--               of the provider, which hands an event to Inbound or to Deliveries.
--               Webhooks/Authenticity is about requests that are not signed, Webhooks/Redelivery about
--               events that come again
--   Analytics   S/analytics/analytics.service.ts: getOverview with buildEmailHealth. Analytics/Groups is
--               groupBy and what the loops over groups write, Analytics/Trends the window, the trends
--               and buildDailyVolume, Analytics/Workload buildWorkload. Analytics/Grouped and Statuses
--               count the rows of a group, Analytics/Volume, Counts and Load are about the overview
--   Rendering   S/email/ticket-reply-email.ts, with Rendering/Escaping about escapeHtml
--   Realtime    S/realtime: the handlers of realtime.gateway.ts for one socket, the rooms of
--               realtime.rooms.ts (Realtime/Rooms) and the audiences of realtime.service.ts
--               (Realtime/Delivery). Realtime/Messages is one message to a socket, Realtime/Leaving,
--               Forgetting and Subscriptions keep its rooms in step with `client.data`,
--               Realtime/Refinement and Runs specify its rooms without that, Realtime/Delivery and
--               Parting are about what it hears
--   Tests       inputs and instances of the theorems
--
-- A socket's rooms are kept by the socket library; the model has the sequence of the calls of `join`
-- and `leave`, and a socket is in the rooms that it joined and did not leave since. Messages of one
-- socket are handled one after the other, except where a handler takes as an argument what others do
-- while its queries run.
--
-- Loops run over lists and need no fuel; who follows the pages of a list has fuel for one page more
-- than there are rows, which is enough. A run of the recovery job takes at most 100 stale and 100
-- pending deliveries, as the code does.
--
-- Not modelled: the columns that a query selects for the response only; the web application apart from
-- the composer's policy; the identity provider, the email provider, the object store and the queue
-- library, whose answers are arguments; logs and metrics; failures of the database other than those
-- that the queries themselves lead to, except in handleReceivedEmail, where they are an argument; the
-- average and the rounded rates of the overview; the text that is taken from an email in HTML.
-- `trim()`, `toLowerCase()` and Unicode normalisation, the SHA-256 digest and the text functions of
-- handleReceivedEmail are arguments too: the theorems hold for every such function, or for every one
-- that they describe. Where a text is walked, it is a list of UTF-16 code units, and `trim()` is
-- defined.
mod Base
pub mod Enums
pub mod Schema
pub mod State
pub mod Audit
pub mod Rbac
pub mod Members
pub mod Tickets
pub mod Deliveries
pub mod Invitations
pub mod Inbound
pub mod Tenancy
pub mod Tags
pub mod Customers
pub mod Realtime
pub mod Attachments
pub mod Listing
pub mod Rendering
pub mod Analytics
pub mod Webhooks
pub mod Organizations
pub mod JobQueue
pub mod Composer
mod Tests
