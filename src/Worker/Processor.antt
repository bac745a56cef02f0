-- ===== src/Worker/Processor.antt =====
-- services/message-processor.js: what the worker does with one Service Bus message. What comes from
-- outside (the schema validator, Azure, the clock, the broker, the connections) is a record of answers.
pub mod Exec
pub mod Environment
pub mod Process
pub mod Settles
pub mod Outcomes
