-- ===== src/AnilloDeBrokers/Envio.antt =====
-- What a token looks like that `GroupSender::send_token` has sent.
use aeropuerto.Base.{
  ℕ, zero, suc, ◌+◌, ◌-◌, ◌*◌, ◌≤◌, ◌≡◌, ◌∙◌, refl, sym, ap, subst, List, [], ◌∷◌, ◌++◌, true, take,
  drop, length, arith, Bool-cases, inl, inr, ◌⊎◌,
}
use aeropuerto.Transferencia.{data_size, memcpy, cantidad_de_bloques}
use aeropuerto.Transferencia.Viaje.{cantidad_de_bloques_lem}
use aeropuerto.AnilloDeBrokers.{
  GroupMsg, token_deliver, sprintf_numero, Mensaje, Receptor, bytes_recibidos,
  procesar_recepcion_token, recibir_token, enviar_bloques,
}

-- A copy behind the first two bytes leaves them.
take-memcpy :
    (i n : ℕ) (destino origen : List ℕ)
    → 2 ≤ i
    → 2 ≤ length destino
    → take 2 (memcpy destino i origen n) ≡ take 2 destino
take-memcpy zero n destino origen h l = absurd (omega arith)
take-memcpy (suc zero) n destino origen h l = absurd (omega arith)
take-memcpy (suc (suc i)) n [] origen h l = absurd (omega arith)
take-memcpy (suc (suc i)) n (x ∷ []) origen h l = absurd (omega arith)
take-memcpy (suc (suc i)) n (x ∷ y ∷ zs) origen h l = refl

-- The first two bytes are "0" and its end.
abbrev pub Cero : List ℕ → Type 0
Cero memoria = take 2 memoria ≡ 48 ∷ 0 ∷ []

-- Every message has a number from `i` on.
abbrev pub Desde : ℕ → List Mensaje → Type 0
Desde i [] = Unit {0}
Desde i (m ∷ ms) = (i ≤ m.numero_de_mensaje) × Desde i ms

enviar_bloques-Desde :
    (bloques i : ℕ) (tipo : GroupMsg) (memoria detras data_bytes : List ℕ)
    → 1 ≤ i
    → Desde 1 (enviar_bloques bloques i tipo memoria detras data_bytes).0
unfolding enviar_bloques
enviar_bloques-Desde zero i tipo memoria detras data_bytes h = tt
enviar_bloques-Desde (suc bloques) i tipo memoria detras data_bytes h =
    (h, enviar_bloques-Desde bloques (i + 1) tipo memoria detras _ (omega arith))

dos_bytes : (memoria : List ℕ) → Cero memoria → 2 ≤ length memoria
dos_bytes [] c = absurd (omega (arith, ap length c))
dos_bytes (x ∷ []) c = absurd (omega (arith, ap length c))
dos_bytes (x ∷ y ∷ zs) c = omega arith

procesar-data_token :
    (m : Mensaje) (r : Receptor)
    → 1 ≤ m.numero_de_mensaje
    → let nuevos = (procesar_recepcion_token m r).0.data_token in
      (nuevos ≡ r.data_token)
      ⊎ (nuevos
          ≡ memcpy r.data_token
              (m.numero_de_mensaje * data_size)
              m.data_bytes
              (bytes_recibidos r.mem_size m.numero_de_mensaje))
unfolding procesar_recepcion_token
procesar-data_token m r h = ground arith

procesar-Cero :
    (m : Mensaje) (r : Receptor)
    → 1 ≤ m.numero_de_mensaje
    → Cero r.data_token
    → Cero (procesar_recepcion_token m r).0.data_token
procesar-Cero m r h c = elim (procesar-data_token m r h) [
  | inl e ↦ subst Cero (sym e) c
  | inr e ↦ subst Cero (sym e) (
      take-memcpy (m.numero_de_mensaje * data_size) _ r.data_token m.data_bytes (omega arith)
        (dos_bytes r.data_token c)
      ∙ c)
]

-- What holds of the memory after a message, and after the rest of them, holds of what is received.
recibir-Cero :
    (m : Mensaje) (ms : List Mensaje) (r : Receptor)
    → let r' = (procesar_recepcion_token m r).0 in
      Cero r'.data_token
      → Cero (recibir_token ms r').0.data_token
      → Cero (recibir_token (m ∷ ms) r).0.data_token
unfolding recibir_token
recibir-Cero m ms r c d =
    let (r', _, completo) = procesar_recepcion_token m r in
    elim (Bool-cases completo) [
      | inl todo ↦
          let e : recibir_token (m ∷ ms) r ≡ (r', true) = rw (recibir_token, todo) refl in
          subst (λ x. Cero x.0.data_token) (sym e) c
      | inr falta ↦
          let e : recibir_token (m ∷ ms) r ≡ recibir_token ms r' = rw (recibir_token, falta) refl in
          subst (λ x. Cero x.0.data_token) (sym e) d
    ]

los_demas :
    (ms : List Mensaje) (r : Receptor)
    → Desde 1 ms
    → Cero r.data_token
    → Cero (recibir_token ms r).0.data_token
unfolding recibir_token
los_demas [] r h c = c
los_demas (m ∷ ms) r (h, hs) c =
    let p = procesar-Cero m r h c in
    recibir-Cero m ms r p (los_demas ms (procesar_recepcion_token m r).0 hs p)

Cero-memcpy :
    (n : ℕ) (destino origen : List ℕ) → 2 ≤ n → Cero origen → Cero (memcpy destino 0 origen n)
Cero-memcpy zero destino origen h c = absurd (omega arith)
Cero-memcpy (suc zero) destino origen h c = absurd (omega arith)
Cero-memcpy (suc (suc n)) destino [] h c = absurd (omega (arith, ap length c))
Cero-memcpy (suc (suc n)) destino (x ∷ []) h c = absurd (omega (arith, ap length c))
Cero-memcpy (suc (suc n)) destino (x ∷ y ∷ zs) h c = c

-- The first message puts its block at the start.
primero-Cero :
    (m : Mensaje) (r : Receptor)
    → m.numero_de_mensaje ≡ 0
    → 2 ≤ r.mem_size
    → Cero m.data_bytes
    → Cero (procesar_recepcion_token m r).0.data_token
unfolding procesar_recepcion_token
primero-Cero m r n h c =
    let b = bytes_recibidos r.mem_size m.numero_de_mensaje in
    let e : (procesar_recepcion_token m r).0.data_token
        ≡ memcpy r.data_token (m.numero_de_mensaje * data_size) m.data_bytes b =
      ground arith in
    let e' = e ∙ ap (λ i. memcpy r.data_token (i * data_size) m.data_bytes b) n in
    subst Cero (sym e') (Cero-memcpy b r.data_token m.data_bytes (ground arith) c)

sprintf_numero-Cero : (data_bytes : List ℕ) → Cero (sprintf_numero 0 data_bytes)
sprintf_numero-Cero data_bytes = refl

enviado-Cero :
    (bloques : ℕ) (memoria detras data_bytes : List ℕ) (r : Receptor)
    → 2 ≤ r.mem_size
    → let (ms, _) = enviar_bloques (suc bloques) 0 token_deliver memoria detras data_bytes in
      Cero (recibir_token ms r).0.data_token
unfolding enviar_bloques
enviado-Cero bloques memoria detras data_bytes r h =
    let bloque = memcpy data_bytes 0 (drop (0 * data_size) (memoria ++ detras)) data_size in
    let llenos = sprintf_numero 0 bloque in
    let m : Mensaje = record {
      tipo = token_deliver;
      numero_de_mensaje = 0;
      cantidad_bytes_total = length memoria;
      data_bytes = llenos;
    } in
    let (ms, _) = enviar_bloques bloques 1 token_deliver memoria detras llenos in
    let b = primero-Cero m r refl h (sprintf_numero-Cero bloque) in
    let d = enviar_bloques-Desde bloques 1 token_deliver memoria detras llenos (omega arith) in
    recibir-Cero m ms r b (los_demas ms (procesar_recepcion_token m r).0 d b)

-- The receiver of a token that `GroupSender` sends finds "0" and its end in the first two bytes of the
-- memory, whatever the memory, of at least two bytes, was: the number of the message is printed over
-- the block.
pub recibir_token-enviar_bloques :
    (memoria detras data_bytes : List ℕ) (r : Receptor)
    → 2 ≤ length memoria
    → r.mem_size ≡ length memoria
    → let (ms, _) =
        enviar_bloques
          (cantidad_de_bloques (length memoria))
          0
          token_deliver
          memoria
          detras
          data_bytes in
      Cero (recibir_token ms r).0.data_token
recibir_token-enviar_bloques memoria detras data_bytes r h s =
    let n = cantidad_de_bloques (length memoria) in
    let e : n ≡ suc (n - 1) = omega (arith, cantidad_de_bloques_lem (length memoria)) in
    subst
      (λ n.
        Cero
          (recibir_token (enviar_bloques n 0 token_deliver memoria detras data_bytes).0
            r).0.data_token)
      (sym e) (enviado-Cero (n - 1) memoria detras data_bytes r (omega arith))
