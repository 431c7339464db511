-- ===== src/App.antt =====
-- src/worker.cpp, src/application.cpp and src/acppsrv.cpp: the pools of threads, the start and the
-- stop of the server, and the main program.
pub mod Pool
pub mod Shutdown
pub mod Main
pub mod Examples
