-- ===== src/Registracion/Union.antt =====
-- What a client and its handler know once it has joined.
use aeropuerto.Base.{
  ℕ, zero, suc, ◌+◌, ◌/◌, ◌%◌, ◌≤◌, ◌<◌, ◌≡◌, ◌≢◌, ◌∙◌, refl, sym, ap, List, [], ◌∷◌, ◌++◌, Bool,
  true, false, Option, none, some, ◌==◌, ltb, take, length, length-append, arith, Bool-cases,
  Option-cases, inl, inr, true_ne_false,
}
use aeropuerto.Grupo.{
  Nombre, Resultado, registrado, cantidad_maxima_alcanzada, ya_esta_registrado, max_nombre_recurso,
}
use aeropuerto.Grupo.{join as unir}
use aeropuerto.Init.Decimal.{cifras, decimal, es_cifra_of_digit, cifras-append, valor_desde-decimal}
use aeropuerto.Transferencia.{cantidad_de_bloques, Peticion, join, join_fork}
use aeropuerto.Transferencia.Copia.{take_all}
use aeropuerto.AnilloDeBrokers.Textos.{c_str}
use aeropuerto.Registracion.{
  Respuesta, Handler, y_despues, responder_join, leer_respuesta, pedido, Final, espera, lanza,
  devuelve, avisar_creacion_grupo, join_group, dos_numeros, procesar_peticion, tras_cifras,
  sscanf_dos_numeros, Comm, unirse,
}

tras_cifras-cifras :
    (rounds n : ℕ) (acc : List ℕ) → n < rounds → tras_cifras (cifras rounds n acc) ≡ tras_cifras acc
tras_cifras-cifras zero n acc h = absurd (omega arith)
tras_cifras-cifras (suc rounds) n acc h = elim (Bool-cases (ltb n 10)) [
  | inl digit ↦ let small : n < 10 = ground arith in rw digit (rw (es_cifra_of_digit n small) refl)
  | inr more ↦
      let big : 10 ≤ n = ground arith in
      rw more (
        tras_cifras-cifras rounds (n / 10) ((48 + n % 10) ∷ acc) (omega arith)
        ∙ rw (es_cifra_of_digit (n % 10) (omega arith)) refl)
]

-- What is read are the numbers that were printed.
sscanf_dos_numeros-dos_numeros :
    (anterior a b : ℕ) (resto : List ℕ)
    → sscanf_dos_numeros anterior (dos_numeros a b resto) ≡ (a, b)
sscanf_dos_numeros-dos_numeros anterior a b resto =
    let cola = 58 ∷ (decimal b ++ (0 ∷ resto)) in
    let e : tras_cifras (dos_numeros a b resto) ≡ cola =
      ap tras_cifras (cifras-append (a + 1) a [] cola (omega arith))
      ∙ tras_cifras-cifras (a + 1) a cola (omega arith) in
    rw
      (
        e,
        valor_desde-decimal a 58 (decimal b ++ (0 ∷ resto)) refl,
        valor_desde-decimal b 0 resto refl,
      )
      refl

tamanios :
    (anterior mem_size : ℕ) (resto : List ℕ)
    → let (a, b) =
        sscanf_dos_numeros anterior (dos_numeros (cantidad_de_bloques mem_size) mem_size resto) in
      (a ≡ cantidad_de_bloques mem_size) × (b ≡ mem_size)
tamanios anterior mem_size resto =
    let v = sscanf_dos_numeros-dos_numeros anterior (cantidad_de_bloques mem_size) mem_size resto in
    (ap (λ p. p.0) v, ap (λ p. p.1) v)

abbrev pub SinCeros : Nombre → Type 0
SinCeros [] = Unit {0}
SinCeros (c ∷ cs) = (c ≢ 0) × SinCeros cs

c_str-append : (nombre resto : List ℕ) → SinCeros nombre → c_str (nombre ++ 0 ∷ resto) ≡ nombre
c_str-append [] resto s = refl
c_str-append (c ∷ cs) resto (n, s) = elim (Bool-cases (c == 0)) [
  | inl z ↦ absurd (n (ground arith))
  | inr z ↦ rw (z, c_str-append cs resto s) refl
]

-- What a client's `join` comes to.
abbrev pub TrasUnirse : Nombre → Handler → Final (Handler × Option Comm) → Type 0
TrasUnirse nombre_grupo h espera = unir h.nombre_cliente h.grupo ≡ none
TrasUnirse nombre_grupo h (lanza h') =
    (r : Resultado) × (unir h.nombre_cliente h.grupo ≡ some (h'.grupo, r))
    × (r ≢ registrado)
    × (h'.nombre_grupo ≡ nombre_grupo)
    × (h'.cola_token_manager ≡ h.cola_token_manager ++ record { mtype = 1; tipo = 3 } ∷ [])
    × (h'.tamanio_memoria ≡ h.tamanio_memoria)
TrasUnirse nombre_grupo h (devuelve (h', none)) = ⊥
TrasUnirse nombre_grupo h (devuelve (h', some c)) =
    (unir h.nombre_cliente h.grupo ≡ some (h'.grupo, registrado))
    × (c.tamanio_memoria ≡ h'.grupo.mem_size)
    × (c.cantidad_de_bloques ≡ cantidad_de_bloques h'.grupo.mem_size)
    × (h'.tamanio_memoria ≡ c.tamanio_memoria)
    × (h'.cantidad_de_bloques_a_enviar ≡ c.cantidad_de_bloques)
    × (h'.nombre_grupo ≡ nombre_grupo)
    × (h'.cola_token_manager ≡ h.cola_token_manager ++ record { mtype = 1; tipo = 3 } ∷ [])

abbrev es_registrado : Resultado → Bool
es_registrado registrado = true
es_registrado cantidad_maxima_alcanzada = false
es_registrado ya_esta_registrado = false

maxima_ne : cantidad_maxima_alcanzada ≢ registrado
maxima_ne e = true_ne_false (sym (ap es_registrado e))

ya_esta_ne : ya_esta_registrado ≢ registrado
ya_esta_ne e = true_ne_false (sym (ap es_registrado e))

-- The name gets to the handler.
recibido :
    (nombre : Nombre)
    → length nombre < max_nombre_recurso
    → SinCeros nombre
    → c_str (take max_nombre_recurso (nombre ++ 0 ∷ [])) ≡ nombre
recibido nombre l s =
    ap c_str (
      take_all max_nombre_recurso (nombre ++ 0 ∷ []) (omega (arith, length-append nombre (0 ∷ []))))
    ∙ c_str-append nombre [] s

module _ (basura : Respuesta) (anterior : ℕ) (nombre_grupo : Nombre) (h : Handler)
    (l : length nombre_grupo < max_nombre_recurso) (s : SinCeros nombre_grupo) where
  -- The same for both requests.
  responder_join_lem :
      (peticion : Peticion)
      → TrasUnirse nombre_grupo h (
          y_despues
            (responder_join peticion (pedido basura peticion nombre_grupo) h)
            (λ r. devuelve (r.0, leer_respuesta anterior r.1)))
  unfolding responder_join join_group avisar_creacion_grupo
  responder_join_lem peticion =
      let n = recibido nombre_grupo l s in
      elim (Option-cases (unir h.nombre_cliente h.grupo)) [
        | inl wait ↦ rw (responder_join, join_group, wait) wait
        | inr ((g, registrado), e) ↦
            let (a, b) =
              tamanios anterior g.mem_size (take max_nombre_recurso (nombre_grupo ++ 0 ∷ [])) in
            rw (responder_join, join_group, e) (e, b, a, sym b, sym a, n, refl)
        | inr ((g, cantidad_maxima_alcanzada), e) ↦
            rw (responder_join, join_group, e)
              (cantidad_maxima_alcanzada, e, maxima_ne, n, refl, refl)
        | inr ((g, ya_esta_registrado), e) ↦
            rw (responder_join, join_group, e) (ya_esta_registrado, e, ya_esta_ne, n, refl, refl)
      ]

-- A client that joins a resource with a name of less than 64 characters, none of them 0, waits exactly
-- if `join` of the group waits. It is told that it has joined exactly if the group has registered it;
-- then it and its handler agree on the size of the memory and on the number of blocks for it. If the
-- group refuses it, the process of the handler ends and nothing is sent. In both cases the token
-- manager has been asked to create the group before.
pub unirse_lem :
    (basura : Respuesta) (compartida : Bool) (anterior : ℕ) (nombre_grupo : Nombre) (h : Handler)
    → length nombre_grupo < max_nombre_recurso
    → SinCeros nombre_grupo
    → TrasUnirse nombre_grupo h (unirse basura compartida anterior nombre_grupo h)
unfolding unirse procesar_peticion
unirse_lem basura true anterior nombre_grupo h l s =
    responder_join_lem basura anterior nombre_grupo h l s join
unirse_lem basura false anterior nombre_grupo h l s =
    responder_join_lem basura anterior nombre_grupo h l s join_fork
