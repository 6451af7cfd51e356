-- ===== src/Tf.antt =====
-- pkg/providers/tf: services that Terraform provides.
pub mod Module
pub mod Workspace
pub mod JobRunner
pub mod Definition
pub mod Provider
pub mod Lifecycle
pub mod Shell
pub mod Transformer
pub mod ImportJob
