-- ===== src/Ptyd.antt =====
-- The pseudo-terminal server, ptyd/src: the line discipline of one terminal, the resources that
-- handles stand for, and the scheme that keeps the handles.
pub mod Termios
pub mod Pty
pub mod Resource
pub mod Scheme
