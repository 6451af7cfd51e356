-- ===== src/Service.antt =====
-- pkg/broker: service definitions, their plans and variables, and the providers behind them.
pub mod Provider
pub mod Schema
pub mod Definition
pub mod Validity
pub mod Plans
pub mod Variables
pub mod Prohibited
pub mod Precedence
