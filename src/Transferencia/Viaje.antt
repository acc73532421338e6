-- ===== src/Transferencia/Viaje.antt =====
-- A memory that is sent in blocks is received as it was.
use aeropuerto.Base.{
  ℕ, zero, suc, ◌+◌, ◌-◌, ◌*◌, ◌≤◌, ◌<◌, ◌≡◌, ◌∙◌, refl, sym, ap, List, [], ◌∷◌, ◌++◌, false,
  if◌then◌else◌, ◌==◌, ltb, take, drop, replicate, length, length-replicate, arith, Bool-cases, inl,
  inr,
}
use aeropuerto.Transferencia.{
  data_size, Peticion, es_leave, Mensaje, memcpy, cantidad_de_bloques, bytes_del_bloque,
  enviar_desde, completa, en_espera, recibir_desde, esperar_desde, token_free, token_leave,
}
use aeropuerto.Transferencia.Copia.{
  mezcla, mezcla-bloque, memcpy-EsBloque, mezcla_all, length-memcpy, length-drop,
}
use aeropuerto.Transferencia.ClientHandler
use aeropuerto.Transferencia.LocalBrokerComm

-- The messages are as many as hold the memory, and one if there is none; all but the last are full.
pub cantidad_de_bloques_lem :
    (tamanio : ℕ)
    → let n = cantidad_de_bloques tamanio in
      (0 < n) × (tamanio ≤ n * data_size) × (0 < tamanio → (n - 1) * data_size < tamanio)
unfolding cantidad_de_bloques
cantidad_de_bloques_lem tamanio = ground arith

-- The blocks from `i` on are those of a memory that ends in them.
abbrev QuedanBloques : (bloques i tamanio : ℕ) → Type 0
QuedanBloques bloques i tamanio =
    (tamanio ≤ (i + bloques) * data_size) × (0 < bloques → (i + bloques - 1) * data_size < tamanio)

quedan_menos :
    (bloques i tamanio : ℕ)
    → QuedanBloques (suc bloques) i tamanio
    → QuedanBloques bloques (i + 1) tamanio
quedan_menos bloques i tamanio v = (omega arith, λ h. omega (arith, v.1 (omega arith)))

-- A buffer that holds block `i` of a memory is stored.
pub guardar_lem :
    (tamanio : ℕ) (mem : List ℕ)
    → length mem ≡ tamanio
    → (i : ℕ) (memoria datos : List ℕ) → i * data_size ≤ tamanio
    → length memoria ≡ tamanio
    → let b = bytes_del_bloque tamanio i in
      let guardada = memcpy memoria (i * data_size) datos b in
      b ≤ length datos
      → take b datos ≡ take b (drop (i * data_size) mem)
      → (length guardada ≡ tamanio)
        × (mezcla ((i + 1) * data_size) guardada mem ≡ mezcla (i * data_size) memoria mem)
guardar_lem tamanio mem l i memoria datos h k d z =
    let p = i * data_size in
    let b = bytes_del_bloque tamanio i in
    let q = (i + 1) * data_size in
    let guardada = memcpy memoria p datos b in
    let lg : length guardada ≡ tamanio = length-memcpy p b memoria datos (omega arith) d ∙ k in
    let cabe : p + b ≤ length mem = omega arith in
    let copia =
      λ (r : ℕ) (h : r ≡ p + b). mezcla-bloque p b r memoria mem datos cabe z (k ∙ sym l) h in
    (
      lg,
      elim (Bool-cases (ltb q tamanio)) [
        | inl more ↦ copia q (ground arith)
        | inr last ↦
            mezcla_all q guardada mem (ground arith) (ground arith)
            ∙ sym (mezcla_all (p + b) guardada mem (ground arith) (ground arith))
            ∙ copia (p + b) refl
      ],
    )

module _ (tamanio : ℕ) (mem : List ℕ) (l : length mem ≡ tamanio) (peticion : Peticion) where
  -- One block sent and stored.
  paso :
      (i : ℕ) (memoria datos : List ℕ)
      → i * data_size < tamanio
      → length memoria ≡ tamanio
      → length datos ≡ data_size
      → let b = bytes_del_bloque tamanio i in
        let llenos = memcpy datos 0 (drop (i * data_size) mem) b in
        let guardada = memcpy memoria (i * data_size) llenos b in
        (length llenos ≡ data_size)
        × (length guardada ≡ tamanio)
        × (mezcla ((i + 1) * data_size) guardada mem ≡ mezcla (i * data_size) memoria mem)
  paso i memoria datos h k d =
      let p = i * data_size in
      let b = bytes_del_bloque tamanio i in
      let llenos = memcpy datos 0 (drop p mem) b in
      let lx = length-drop p mem in
      let ll : length llenos ≡ data_size =
        length-memcpy 0 b datos (drop p mem) (omega arith) (omega arith) ∙ d in
      let (lg, e) =
        guardar_lem tamanio mem l i memoria llenos (omega arith) k (omega arith)
          (memcpy-EsBloque p b mem datos (omega arith)) in
      (ll, lg, e)

  recibir_desde-enviar_desde :
      (bloques i : ℕ) (memoria datos : List ℕ) (ms : List Mensaje)
      → es_leave peticion ≡ false
      → QuedanBloques bloques i tamanio
      → length memoria ≡ tamanio
      → length datos ≡ data_size
      → recibir_desde bloques i tamanio memoria
          (enviar_desde bloques i tamanio mem datos peticion ++ ms)
        ≡ completa (mezcla (i * data_size) memoria mem) ms
  unfolding recibir_desde enviar_desde
  recibir_desde-enviar_desde zero i memoria datos ms s v k d =
      ap (λ t. completa t ms)
        (sym (mezcla_all (i * data_size) memoria mem (omega arith) (omega arith)))
  recibir_desde-enviar_desde (suc bloques) i memoria datos ms s v k d =
      let h : i * data_size < tamanio = omega (arith, v.1 (omega arith)) in
      let nz : (tamanio == 0) ≡ false = ground arith in
      let (ll, lg, e) = paso i memoria datos h k d in
      rw (nz, s)
        (recibir_desde-enviar_desde bloques (i + 1) _ _ ms s (quedan_menos bloques i tamanio v) lg
            ll
          ∙ ap (λ t. completa t ms) e)

  esperar_desde-enviar_desde :
      (bloques i : ℕ) (memoria datos : List ℕ) (ms : List Mensaje)
      → QuedanBloques bloques i tamanio
      → length memoria ≡ tamanio
      → length datos ≡ data_size
      → esperar_desde bloques i tamanio 0 memoria
          (enviar_desde bloques i tamanio mem datos peticion ++ ms)
        ≡ completa (mezcla (i * data_size) memoria mem) ms
  unfolding esperar_desde enviar_desde
  esperar_desde-enviar_desde zero i memoria datos ms v k d =
      ap (λ t. completa t ms)
        (sym (mezcla_all (i * data_size) memoria mem (omega arith) (omega arith)))
  esperar_desde-enviar_desde (suc bloques) i memoria datos ms v k d =
      let h : i * data_size < tamanio = omega (arith, v.1 (omega arith)) in
      let nz : (tamanio == 0) ≡ false = ground arith in
      let (ll, lg, e) = paso i memoria datos h k d in
      rw nz (
        esperar_desde-enviar_desde bloques (i + 1) _ _ ms (quedan_menos bloques i tamanio v) lg ll
        ∙ ap (λ t. completa t ms) e)

quedan_todos : (tamanio : ℕ) → 0 < tamanio → QuedanBloques (cantidad_de_bloques tamanio) 0 tamanio
quedan_todos tamanio h =
    let v = cantidad_de_bloques_lem tamanio in (omega arith, λ k. omega (arith, v.2 h))

-- Without memory one message goes and nothing is stored.
pub cantidad-zero : cantidad_de_bloques 0 ≡ 1
unfolding cantidad_de_bloques
cantidad-zero = refl

vacia : (mem : List ℕ) → length mem ≡ 0 → mem ≡ []
vacia [] h = refl
vacia (x ∷ xs) h = absurd (omega arith)

recibido :
    (tamanio : ℕ) (mem datos memoria : List ℕ) (peticion : Peticion) (ms : List Mensaje)
    → length mem ≡ tamanio
    → length datos ≡ data_size
    → length memoria ≡ tamanio
    → es_leave peticion ≡ false
    → let n = cantidad_de_bloques tamanio in
      recibir_desde n 0 tamanio memoria (enviar_desde n 0 tamanio mem datos peticion ++ ms)
      ≡ completa mem ms
unfolding recibir_desde enviar_desde
recibido zero mem datos memoria peticion ms l d k s =
    rw (cantidad-zero, vacia mem l, vacia memoria k, s) refl
recibido (suc t) mem datos memoria peticion ms l d k s =
    recibir_desde-enviar_desde (suc t) mem l peticion (cantidad_de_bloques (suc t)) 0 memoria datos
      ms s (quedan_todos (suc t) (omega arith)) k d

esperado :
    (tamanio : ℕ) (mem datos memoria : List ℕ) (peticion : Peticion) (ms : List Mensaje)
    → length mem ≡ tamanio
    → length datos ≡ data_size
    → length memoria ≡ tamanio
    → let n = cantidad_de_bloques tamanio in
      esperar_desde n 0 tamanio 0 memoria (enviar_desde n 0 tamanio mem datos peticion ++ ms)
      ≡ completa mem ms
unfolding esperar_desde enviar_desde
esperado zero mem datos memoria peticion ms l d k =
    rw (cantidad-zero, vacia mem l, vacia memoria k) refl
esperado (suc t) mem datos memoria peticion ms l d k =
    esperar_desde-enviar_desde (suc t) mem l peticion (cantidad_de_bloques (suc t)) 0 memoria datos
      ms (quedan_todos (suc t) (omega arith)) k d

sin_leave : (salir : ℕ) → es_leave (if salir == 0 then token_free else token_leave) ≡ false
sin_leave salir = ground arith

module _ (tamanio : ℕ) (mem datos : List ℕ) (l : length mem ≡ tamanio)
    (d : length datos ≡ data_size) (ms : List Mensaje) where
  -- The broker sends the token with a memory, whatever stood in the buffer of the message, and the
  -- client has that memory afterwards, whatever he had before; no other message is taken.
  pub wait_token-send_token :
      (memory : List ℕ) (peticion : Peticion)
      → length memory ≡ tamanio
      → LocalBrokerComm.wait_token tamanio 0 memory
          (ClientHandler.send_token tamanio mem datos peticion ++ ms)
        ≡ completa mem ms
  unfolding LocalBrokerComm.wait_token ClientHandler.send_token
  wait_token-send_token memory peticion k = esperado tamanio mem datos memory peticion ms l d k

  -- The client sends the token back with his memory, also if he has to leave, and the broker stores
  -- that memory; no other message is taken.
  pub recv_token-send_token :
      (salir : ℕ)
      → ClientHandler.recv_token tamanio (LocalBrokerComm.send_token tamanio salir mem datos ++ ms)
        ≡ completa mem ms
  unfolding LocalBrokerComm.send_token ClientHandler.recv_token
  recv_token-send_token salir =
      recibido tamanio mem datos (replicate tamanio 0) _ ms l d (length-replicate tamanio 0)
        (sin_leave salir)

-- With no message there, both sides wait.
pub wait_token-nil :
    (tamanio salir : ℕ) (memory : List ℕ)
    → LocalBrokerComm.wait_token tamanio salir memory [] ≡ en_espera
unfolding LocalBrokerComm.wait_token esperar_desde
wait_token-nil tamanio salir memory =
    let n = cantidad_de_bloques tamanio in
    let e : n ≡ suc (n - 1) = omega (arith, cantidad_de_bloques_lem tamanio) in rw e refl

pub recv_token-nil : (tamanio : ℕ) → ClientHandler.recv_token tamanio [] ≡ en_espera
unfolding ClientHandler.recv_token recibir_desde
recv_token-nil tamanio =
    let n = cantidad_de_bloques tamanio in
    let e : n ≡ suc (n - 1) = omega (arith, cantidad_de_bloques_lem tamanio) in rw e refl
