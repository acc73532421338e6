-- ===== src/AnilloDeBrokers/Replica.antt =====
-- Replicas whose blocks come in order.
use aeropuerto.Base.{
  ℕ, zero, suc, ◌+◌, ◌-◌, ◌*◌, ◌≤◌, ◌<◌, ◌≡◌, ◌∙◌, refl, List, [], ◌∷◌, false, length, arith,
}
use aeropuerto.Transferencia.{data_size, cantidad_de_bloques}
use aeropuerto.Transferencia.Viaje.{cantidad_de_bloques_lem, cantidad-zero}
use aeropuerto.AnilloDeBrokers.{Mensaje, Receptor, procesar_memory_update, recibir_replica}

-- Messages with the numbers from `i` on, for a memory of this size.
abbrev pub Numerados : (tamanio i : ℕ) → List Mensaje → Type 0
Numerados tamanio i [] = Unit {0}
Numerados tamanio i (m ∷ ms) =
    (m.numero_de_mensaje ≡ i) × (m.cantidad_bytes_total ≡ tamanio) × Numerados tamanio (i + 1) ms

-- Nothing of a replica has got to the memory.
abbrev pub SinReplica : Receptor → Receptor → Type 0
SinReplica r r' = (r'.data_token ≡ r.data_token) × (r'.replica_ok ≡ false)

-- The receiver before block `k + 1`: it has counted one block less than came.
abbrev Atrasado : ℕ → Receptor → Type 0
Atrasado k r =
    (r.siguiente_replica ≡ k)
    × (r.cantidad_recibida_replica ≡ k * data_size)
    × (r.replica_ok ≡ false)

primer_bloque :
    (m : Mensaje) (r : Receptor)
    → m.numero_de_mensaje ≡ 0
    → let r' = (procesar_memory_update m r).0 in Atrasado 0 r' × (r'.data_token ≡ r.data_token)
unfolding procesar_memory_update
primer_bloque m r n = ground arith

otro_bloque :
    (k : ℕ) (m : Mensaje) (r : Receptor)
    → m.numero_de_mensaje ≡ k + 1
    → (k + 1) * data_size < m.cantidad_bytes_total
    → Atrasado k r
    → let r' = (procesar_memory_update m r).0 in
      Atrasado (k + 1) r' × (r'.data_token ≡ r.data_token)
unfolding procesar_memory_update
otro_bloque k m r n t v = ground arith

mas_de_un_bloque :
    (tamanio : ℕ)
    → 2 ≤ cantidad_de_bloques tamanio
    → (cantidad_de_bloques tamanio - 1) * data_size < tamanio
mas_de_un_bloque zero h = absurd (omega (arith, cantidad-zero, h))
mas_de_un_bloque (suc t) h = omega (arith, (cantidad_de_bloques_lem (suc t)).2 (omega arith))

demas :
    (tamanio k : ℕ) (ms : List Mensaje) (r : Receptor)
    → Numerados tamanio (k + 1) ms
    → (k + length ms) * data_size < tamanio
    → Atrasado k r
    → SinReplica r (recibir_replica ms r)
unfolding recibir_replica
demas tamanio k [] r n t v = (refl, v.2)
demas tamanio k (m ∷ ms) r (n, q, resto) t v =
    let (w, same) = otro_bloque k m r n (omega arith) v in
    let (a, b) = demas tamanio (k + 1) ms (procesar_memory_update m r).0 resto (omega arith) w in
    (a ∙ same, b)

-- A replica whose blocks come in order, from the first to the last, never gets to the memory, whatever
-- the state of the receiver: the first block is dropped, and the others are counted one short.
pub recibir_replica-SinReplica :
    (tamanio : ℕ) (ms : List Mensaje) (r : Receptor)
    → length ms ≡ cantidad_de_bloques tamanio
    → Numerados tamanio 0 ms
    → SinReplica r (recibir_replica ms r)
unfolding recibir_replica
recibir_replica-SinReplica tamanio [] r l n =
    absurd (omega (arith, cantidad_de_bloques_lem tamanio))
recibir_replica-SinReplica tamanio (m ∷ []) r l (n, q, resto) =
    let (w, same) = primer_bloque m r n in (same, w.2)
recibir_replica-SinReplica tamanio (m ∷ x ∷ ms) r l (n, q, resto) =
    let (w, same) = primer_bloque m r n in
    let h = mas_de_un_bloque tamanio (omega arith) in
    let (a, b) = demas tamanio 0 (x ∷ ms) (procesar_memory_update m r).0 resto (omega arith) w in
    (a ∙ same, b)
