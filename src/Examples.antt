-- ===== src/Examples.antt =====
-- The theorems at concrete states of a small kernel.
mod Sample
mod Procs
mod Reaped
mod Waits
mod Pages
mod Lines
mod Machine
mod Turns
mod Calls
mod FirstRun
mod Exec
mod Forks
mod Programs
mod Lists
