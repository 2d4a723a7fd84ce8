-- ===== src/Cmd.antt =====
-- cmd: the commands that set the program up and start it. Init is init.go, Run is run.go with the
-- waits for the node, Addresses is address.go.
pub mod Init
pub mod Queries
pub mod Run
pub mod Addresses
