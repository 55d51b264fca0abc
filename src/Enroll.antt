-- ===== src/Enroll.antt =====
-- agent/src/enroll.c: the first registration of the agent, from the bootstrap file to agent.conf.
pub mod Bootstrap
pub mod Machine
pub mod Http
pub mod Response
pub mod Flow
