-- ===== src/Errors.antt =====
-- The error systems: the unified error system (errors/unified_error_system.go), the collector of
-- the processors (processors/error_collector.go), and the interceptors that turn log lines into
-- errors (errors/stderr_interceptor.go, errors/mysql_logger.go, errors/migration.go).
pub mod Filter
pub mod Unified
pub mod UnifiedLaws
pub mod Served
pub mod Collector
pub mod CollectorLaws
pub mod LogLines
pub mod Parsed
pub mod Sequences
pub mod Intercepted
pub mod DriverLog
pub mod Routed
pub mod Agreement
pub mod Reports
pub mod Flushed
mod Tests
