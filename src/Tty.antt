-- ===== src/Tty.antt =====
-- kernel/tty: the ring buffers, the pseudo terminals over them and the virtual terminals.
pub mod Rbuf
pub mod Pty
pub mod Vt
