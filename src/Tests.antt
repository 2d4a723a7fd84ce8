-- ===== src/Tests.antt =====
-- The theorems at concrete inputs, and runs of the model.
mod Run
mod SlashFilter
mod Recorder
mod Printer
mod Records
mod Miner
mod Participants
mod Attempts
mod Table
mod Rounds
mod F3
mod Repo
mod Journal
mod Winners
mod Lifecycle
mod Api
mod Cmd
mod Queue
mod Node
mod Schedules
