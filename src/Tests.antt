-- ===== src/Tests.antt =====
-- Inputs and instances: the theorems of the components at concrete states.
mod Sample
mod Team
mod Tickets
mod Deliveries
mod Invitations
mod Inbound
mod Access
mod Customers
mod Realtime
mod Attachments
mod Listing
mod Routing
mod Rendering
mod Analytics
mod Webhooks
mod Organizations
mod JobQueue
mod Composer
