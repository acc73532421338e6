-- ===== src/AnilloDeBrokers/Token.antt =====
-- A token whose blocks come in order is received whole.
use aeropuerto.Base.{
  ℕ, suc, ◌+◌, ◌*◌, ◌≤◌, ◌<◌, ◌≡◌, ◌∙◌, refl, sym, ap, subst, List, [], ◌∷◌, Bool, true, false, not,
  ◌==◌, leb, take, drop, length, arith, Bool-cases, inl, inr, ◌⊎◌,
}
use aeropuerto.Transferencia.{data_size, memcpy, cantidad_de_bloques, bytes_del_bloque}
use aeropuerto.Transferencia.Copia.{mezcla, mezcla_all}
use aeropuerto.Transferencia.Viaje.{guardar_lem, cantidad_de_bloques_lem}
use aeropuerto.AnilloDeBrokers.{
  Mensaje, Receptor, bytes_recibidos, empezar_token, bloque_de_token, procesar_recepcion_token,
  recibir_token,
}

-- The messages from number `i` on of a token with the memory `mem`: each has its number, the size of
-- the memory, and in its first bytes the block.
pub data Bloques (mem : List ℕ) : (bloques i : ℕ) → List Mensaje → Type 0 where
  ninguno : {i : ℕ} → Bloques mem 0 i []
  uno :
      {bloques i : ℕ} {ms : List Mensaje} (m : Mensaje)
      → m.numero_de_mensaje ≡ i
      → m.cantidad_bytes_total ≡ length mem
      → length m.data_bytes ≡ data_size
      → (let b = bytes_del_bloque (length mem) i in
          take b m.data_bytes ≡ take b (drop (i * data_size) mem))
      → Bloques mem bloques (i + 1) ms
      → Bloques mem (suc bloques) i (m ∷ ms)

-- The receiver before block `i`, with what came before.
pub record Espera (mem : List ℕ) (i : ℕ) (r : Receptor) : Type 0 where
  pub mem_size : r.mem_size ≡ length mem
  pub length_data : length r.data_token ≡ length mem
  pub siguiente : r.siguiente ≡ i
  pub cantidad : r.cantidad_recibida_token ≡ i * data_size

-- After a block in its turn: it was the last one exactly if the memory ends in it, and the boundary of
-- what came moved behind it.
module _ (mem : List ℕ) (i : ℕ) (r : Receptor) (m : Mensaje) (h : i * data_size ≤ length mem)
    (n : m.numero_de_mensaje ≡ i) (t : m.cantidad_bytes_total ≡ length mem)
    (d : length m.data_bytes ≡ data_size)
    (z : let b = bytes_del_bloque (length mem) i in
      take b m.data_bytes ≡ take b (drop (i * data_size) mem))
    (v : Espera mem i r) where
  guardada : List ℕ
  guardada = memcpy r.data_token (i * data_size) m.data_bytes (bytes_del_bloque (length mem) i)

  bytes : bytes_recibidos r.mem_size m.numero_de_mensaje ≡ bytes_del_bloque (length mem) i
  bytes = ground (arith, v.mem_size)

  data_token-bloque : (bloque_de_token m r).0.data_token ≡ guardada
  unfolding guardada
  data_token-bloque =
      let g =
        memcpy r.data_token (m.numero_de_mensaje * data_size) m.data_bytes
          (bytes_recibidos r.mem_size m.numero_de_mensaje) in
      let e : (bloque_de_token m r).0.data_token ≡ g = ground arith in
      e
      ∙ ap (memcpy r.data_token (m.numero_de_mensaje * data_size) m.data_bytes) bytes
      ∙ ap (λ n. memcpy r.data_token (n * data_size) m.data_bytes (bytes_del_bloque (length mem) i))
          n

  guardada_lem :
      (length guardada ≡ length mem)
      × (mezcla ((i + 1) * data_size) guardada mem ≡ mezcla (i * data_size) r.data_token mem)
  unfolding guardada
  guardada_lem =
      guardar_lem (length mem) mem refl i r.data_token m.data_bytes h v.length_data (omega arith) z

  completo-bloque : (bloque_de_token m r).1 ≡ leb (length mem) ((i + 1) * data_size)
  completo-bloque = ground (arith, v.cantidad)

  bloque_sigue : (bloque_de_token m r).1 ≡ false → Espera mem (i + 1) (bloque_de_token m r).0
  bloque_sigue f = record {
    mem_size = ground (arith, v.mem_size);
    length_data = ap length data_token-bloque ∙ guardada_lem.0;
    siguiente = ground (arith, v.siguiente);
    cantidad = ground (arith, v.cantidad);
  }

  bloque_final :
      (bloque_de_token m r).1 ≡ true
      → ((bloque_de_token m r).0.siguiente ≡ 0)
        × ((bloque_de_token m r).0.cantidad_recibida_token ≡ 0)
  bloque_final f = ground arith

  mezcla-bloque :
      mezcla ((i + 1) * data_size) (bloque_de_token m r).0.data_token mem
      ≡ mezcla (i * data_size) r.data_token mem
  mezcla-bloque = ap (λ g. mezcla ((i + 1) * data_size) g mem) data_token-bloque ∙ guardada_lem.1

-- The token is whole: the memory is there, and the receiver is ready for the next one.
abbrev pub EsEntero : (mem : List ℕ) → Receptor × Bool → Type 0
EsEntero mem (r, completo) =
    (completo ≡ true)
    × (r.data_token ≡ mem)
    × (r.siguiente ≡ 0)
    × (r.cantidad_recibida_token ≡ 0)
    × (r.token_inicializado ≡ true)

empezar-Espera :
    (mem : List ℕ) (i : ℕ) (m : Mensaje) (r : Receptor)
    → m.numero_de_mensaje ≡ i
    → r.mem_size ≡ length mem
    → length r.data_token ≡ length mem
    → (i ≡ 0) ⊎ Espera mem i r
    → Espera mem i (empezar_token m r) × ((empezar_token m r).data_token ≡ r.data_token)
empezar-Espera mem i m r n s l (inl z) = ground arith
empezar-Espera mem i m r n s l (inr v) = ground arith

-- A message in its turn is stored.
procesar_en_orden :
    (i : ℕ) (m : Mensaje) (r : Receptor)
    → m.numero_de_mensaje ≡ i
    → (empezar_token m r).siguiente ≡ i
    → let (r', completo) = bloque_de_token m (empezar_token m r) in
      procesar_recepcion_token m r ≡ (record r' { token_inicializado = true }, [], completo)
unfolding procesar_recepcion_token
procesar_en_orden i m r n s =
    let e : not (m.numero_de_mensaje == (empezar_token m r).siguiente) ≡ false = ground arith in
    rw (procesar_recepcion_token, e) refl

recibir_token-Bloques :
    (mem : List ℕ) (i : ℕ) (r : Receptor) {bloques : ℕ} {ms : List Mensaje}
    → Bloques mem bloques i ms
    → 0 < bloques
    → i * data_size ≤ length mem
    → length mem ≤ (i + bloques) * data_size
    → r.mem_size ≡ length mem
    → length r.data_token ≡ length mem
    → (i ≡ 0) ⊎ Espera mem i r
    → EsEntero (mezcla (i * data_size) r.data_token mem) (recibir_token ms r)
unfolding recibir_token
recibir_token-Bloques mem i r ninguno pos lo hi s l v = absurd (omega arith)
recibir_token-Bloques mem i r (uno {bloques = b} {ms = ms} m n t d z resto) pos lo hi s l v =
    let (w, same) = empezar-Espera mem i m r n s l v in
    let r1 = empezar_token m r in
    let p = procesar_en_orden i m r n w.siguiente in
    let q = mezcla-bloque mem i r1 m lo n t d z w in
    let c = completo-bloque mem i r1 m lo n t d z w in
    let bloque = bloque_de_token m r1 in
    let r' : Receptor = record bloque.0 { token_inicializado = true } in
    let largo =
      ap length (data_token-bloque mem i r1 m lo n t d z w)
      ∙ (guardada_lem mem i r1 m lo n t d z w).0 in
    let fin = mezcla (i * data_size) r.data_token mem in
    let antes = ap (λ g. mezcla (i * data_size) g mem) same in
    elim (Bool-cases bloque.1) [
      | inl last ↦
          let k : recibir_token (m ∷ ms) r ≡ (r', true) = rw (recibir_token, p, last) refl in
          let todo : length mem ≤ (i + 1) * data_size = ground (arith, c) in
          let (x, y) = bloque_final mem i r1 m lo n t d z w last in
          subst (EsEntero fin) (sym k) (
            refl,
            sym (
                  mezcla_all ((i + 1) * data_size) bloque.0.data_token mem (omega (arith, largo))
                    todo)
                ∙ q
                ∙ antes,
            x,
            y,
            refl,
          )
      | inr more ↦
          let k : recibir_token (m ∷ ms) r ≡ recibir_token ms r' =
            rw (recibir_token, p, more) refl in
          let falta : (i + 1) * data_size < length mem = ground (arith, c) in
          let e = bloque_sigue mem i r1 m lo n t d z w more in
          let e' : Espera mem (i + 1) r' = record {
            mem_size = e.mem_size;
            length_data = e.length_data;
            siguiente = e.siguiente;
            cantidad = e.cantidad;
          } in
          subst (λ x. EsEntero x (recibir_token (m ∷ ms) r)) (q ∙ antes)
            (subst (EsEntero (mezcla ((i + 1) * data_size) bloque.0.data_token mem)) (sym k) (
              recibir_token-Bloques mem (i + 1) r' resto (omega arith) (omega arith) (omega arith)
                e.mem_size largo (inr e')))
    ]

-- A token whose blocks come in order, from the first to the last, is received whole, by a receiver in
-- any state: also after one that was broken off.
pub recibir_token-EsEntero :
    (mem : List ℕ) (r : Receptor) (ms : List Mensaje)
    → r.mem_size ≡ length mem
    → length r.data_token ≡ length mem
    → Bloques mem (cantidad_de_bloques (length mem)) 0 ms
    → EsEntero mem (recibir_token ms r)
recibir_token-EsEntero mem r ms s l b =
    let v = cantidad_de_bloques_lem (length mem) in
    recibir_token-Bloques mem 0 r b v.0 (omega arith) (omega (arith, v.1)) s l (inl refl)
