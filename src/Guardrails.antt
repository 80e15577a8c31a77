-- ===== src/Guardrails.antt =====
-- agperms/src/agperms/_guardrails.py: the rate limiter, the circuit breaker and the anomaly detector.
pub mod Rate
pub mod Circuit
pub mod Anomaly
