-- ===== src/Tools.antt =====
-- The command line tools of spoki/tools that keep a state of their own.
pub mod UdpProcessor
