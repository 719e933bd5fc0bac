-- ===== src/Command.antt =====
-- postprocess/postprocess.py, "Command tokenizing and scoping": from a container's command to
-- the flags of one invocation.
pub mod Segments
pub mod Convert
pub mod Flags
