-- ===== src/Node.antt =====
-- node: how the program is put together. Options is options.go, and Builder is builder.go, with the
-- options that a configuration gives.
pub mod Options
pub mod Builder
