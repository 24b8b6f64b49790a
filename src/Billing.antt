-- ===== src/Billing.antt =====
-- internal/service/service.go (SubscriptionService), internal/handler/webhook/platega.go and the
-- sweeps of internal/worker/worker.go: payments from the checkout to the worker's queue.
pub mod Gateway
pub mod Checkout
pub mod Status
pub mod Webhook
pub mod Balance
pub mod Prices
