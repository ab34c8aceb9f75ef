-- ===== src/PaymentSearch.antt =====
-- apps/api/src/payment-search.ts: the bounded search for an input that pays an invoice.
pub mod Retain
pub mod Search
