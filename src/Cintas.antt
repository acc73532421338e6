-- ===== src/Cintas.antt =====
-- The belts of api/: bounded buffers in distributed shared memory.
pub mod Lado
pub mod Turnos
pub mod Checkin
pub mod Carga
pub mod Principal
pub mod Escaner
pub mod Despachante
