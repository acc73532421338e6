-- ===== src/Multiplexer.antt =====
-- The process that hands the messages from the other hosts to the receivers of the groups: class
-- `GroupMultiplexer` of local_broker/group_multiplexer.cpp. Its table lies in shared memory, and each
-- `GroupReceiver` has registered its group there.
pub mod Registro
pub mod Reparto
mod Tests
use aeropuerto.Base.{
  ℕ, suc, ◌+◌, ◌-◌, List, [], ◌∷◌, ◌++◌, Bool, true, false, not, ◌&&◌, Option, none, some,
  if◌then◌else◌, ◌==◌, get_or, take, replicate,
}
use aeropuerto.Grupo.{Nombre, no_vacio, strncmp_igual, max_nombre_recurso}
use aeropuerto.Init.{cmp}
use aeropuerto.AnilloDeBrokers.{GroupMsg, leader, Mensaje}

-- A message with the name of its group.
pub record Paquete : Type 0 where
  pub nombre_grupo : Nombre
  pub mensaje : Mensaje

pub record EnEspera : Type 0 where
  pub mtype : ℕ
  pub contenido : Paquete

-- The memory, the count of its semaphore, the map of the process that hands the messages out, and the
-- two queues.
pub record Multiplexer : Type 0 where
  pub lider : ℕ
  pub grupos_creados : List Nombre
  pub mutex : ℕ
  pub grupos : List (Nombre × ℕ)
  pub interfaz_grupos : List Paquete
  pub cola_espera_grupos : List EnEspera

-- The first constructor, which leaves the first name alone.
abbrev pub inicializar : List Nombre → List Nombre
inicializar [] = []
inicializar (x ∷ xs) = x ∷ replicate 127 []

abbrev pub es_este : Nombre → Nombre → Bool
es_este nombre n = no_vacio n && strncmp_igual max_nombre_recurso n nombre

-- The loop of the second constructor from index `i` on, and the number that it finds.
abbrev pub apuntar_desde : ℕ → Nombre → List Nombre → List Nombre × Option ℕ
apuntar_desde i nombre [] = ([], none)
apuntar_desde i nombre (x ∷ xs) =
    let (ys, numero) = apuntar_desde (i + 1) nombre xs in
    if es_este nombre x
    then (x ∷ xs, some (i + 1))
    else if not (no_vacio x)
    then (take max_nombre_recurso nombre ∷ xs, some (i + 1))
    else (x ∷ ys, numero)

-- The loop of `forward_message` from index `i` on.
abbrev pub buscar_desde : ℕ → Nombre → List Nombre → Option ℕ
buscar_desde i nombre [] = none
buscar_desde i nombre (x ∷ xs) =
    let rest = buscar_desde (i + 1) nombre xs in
    if es_este nombre x then some (i + 1) else if not (no_vacio x) then none else rest

unfoldable pub wait_on_mutex : Multiplexer → Option Multiplexer
wait_on_mutex s = if s.mutex == 0 then none else some (record s { mutex = s.mutex - 1 })

unfoldable pub signalize_mutex : Multiplexer → Multiplexer
signalize_mutex s = record s { mutex = s.mutex + 1 }

-- The second constructor. `contenido` is what stands in the message that it fills with a kind alone.
-- Where the table is full, `numero_cola_asignada` is not set, and it is `anterior`.
unfoldable pub registrar :
    (anterior : ℕ) (contenido : Paquete) → Nombre → Multiplexer → Option (Multiplexer × ℕ)
registrar anterior contenido nombre s = elim (wait_on_mutex s) [
  | none ↦ none
  | some s' ↦
      let (names, hallado) = apuntar_desde 0 nombre s'.grupos_creados in
      let numero : ℕ = elim hallado [ none ↦ anterior | some k ↦ k ] in
      let aviso : EnEspera = record {
        mtype = numero;
        contenido = record contenido { mensaje = record contenido.mensaje { tipo = leader } };
      } in
      some (
        signalize_mutex (record s' {
          grupos_creados = names;
          cola_espera_grupos =
              (if s'.lider == 1
                then s'.cola_espera_grupos ++ aviso ∷ []
                else s'.cola_espera_grupos);
        }),
        numero,
      )
]

abbrev pub es_leader : GroupMsg → Bool
es_leader leader = true
es_leader tipo = false

-- The loop that tells all groups, from index `i` on.
abbrev pub avisar_desde : ℕ → Paquete → List Nombre → List EnEspera
avisar_desde i p [] = []
avisar_desde i p (x ∷ xs) =
    let rest = avisar_desde (i + 1) p xs in
    if no_vacio x then record { mtype = i + 1; contenido = p } ∷ rest else rest

-- `grupos.at`.
abbrev pub buscar_en : Nombre → List (Nombre × ℕ) → Option ℕ
buscar_en nombre [] = none
buscar_en nombre ((k, v) ∷ xs) =
    let rest = buscar_en nombre xs in if cmp nombre k then some v else rest

-- The number of the group, which it learns from the table the first time. It signals the mutex, for
-- which it has not waited, twice.
unfoldable pub averiguar : Nombre → Multiplexer → Multiplexer × Option ℕ
averiguar nombre s = elim (buscar_en nombre s.grupos) [
  | some k ↦ (s, some k)
  | none ↦
      let s' = signalize_mutex (signalize_mutex s) in
      elim (buscar_desde 0 nombre s.grupos_creados) [
        | none ↦ (s', none)
        | some k ↦ (
          record s' { grupos = s.grupos ++ (get_or s.grupos_creados (k - 1) [], k) ∷ [] },
          some k,
        )
      ]
]

abbrev pub entregar : Paquete → Multiplexer × Option ℕ → Multiplexer
entregar p (s, none) = record s { interfaz_grupos = s.interfaz_grupos ++ p ∷ [] }
entregar p (s, some k) = record s {
  cola_espera_grupos = s.cola_espera_grupos ++ record { mtype = k; contenido = p } ∷ [];
}

unfoldable pub forward_leader : Paquete → Multiplexer → Option Multiplexer
forward_leader p s = elim (wait_on_mutex s) [
  | none ↦ none
  | some s' ↦ some (
      signalize_mutex (record s' {
        lider = 1;
        cola_espera_grupos = s'.cola_espera_grupos ++ avisar_desde 0 p s'.grupos_creados;
      }))
]

unfoldable pub forward_message : Multiplexer → Option Multiplexer
forward_message s = elim s.interfaz_grupos [
  | [] ↦ none
  | p ∷ ps ↦
      let s' = record s { interfaz_grupos = ps } in
      if es_leader p.mensaje.tipo
      then forward_leader p s'
      else some (entregar p (averiguar p.nombre_grupo s'))
]
