-- ===== src/Worker/Store.antt =====
-- services/scan-store.js of the worker: one module for each group of its transactions.
pub mod Transaction
pub mod Results
pub mod Billing
pub mod Begin
pub mod Marks
pub mod Reject
