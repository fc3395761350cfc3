-- ===== src/Tunnel.antt =====
-- pkg/tunnel: the handshake that opens a tunnel websocket.
pub mod Hex
pub mod Handshake
