-- ===== src/Grupos.antt =====
-- The table of the groups of a broker, which its processes share: the constructors of class `Grupo`
-- of local_broker/grupo.cpp and `Grupo::existe_grupo`. Semaphore 0 of the set guards the table, and
-- on semaphore 1 wait those who look for a group that nobody has created.
pub mod Creacion
mod Tests
use aeropuerto.Base.{
  ℕ, zero, suc, ◌+◌, ◌*◌, List, [], ◌∷◌, Bool, true, false, Option, none, some, if◌then◌else◌,
  get_or, set, take, replicate, wait_on, signalize,
}
use aeropuerto.Grupo.{Nombre, strncmp_igual, no_vacio, primero, max_nombre_recurso}

abbrev pub max_grupos : ℕ
max_grupos = 128

pub record Grupos : Type 0 where
  pub semaforos : List ℕ
  pub cantidad_clientes_esperando : ℕ
  pub grupos_creados : List Nombre
  pub offsets : List ℕ

-- The constructor for the whole memory, whose bytes are 0 before. The size of the table is a
-- parameter, since it depends on those of `int` and of a pointer.
abbrev pub grupos_inicial : (tamanio_tabla_grupos cantidad_de_grupos : ℕ) → Grupos
grupos_inicial tamanio_tabla_grupos cantidad_de_grupos = record {
  semaforos = set (replicate (cantidad_de_grupos + 2) 1) 1 0;
  cantidad_clientes_esperando = 0;
  grupos_creados = replicate max_grupos [];
  offsets = set (replicate max_grupos 0) 0 tamanio_tabla_grupos;
}

abbrev pub es_grupo : Nombre → Nombre → Bool
es_grupo nombre n = if no_vacio n then strncmp_igual max_nombre_recurso nombre n else false

-- Where the loop of the creation breaks: at the group, or at a free slot before it.
abbrev pub es_grupo_o_libre : Nombre → Nombre → Bool
es_grupo_o_libre nombre n = if no_vacio n then strncmp_igual max_nombre_recurso nombre n else true

unfoldable pub existe_grupo : Nombre → Grupos → Option (Grupos × Bool)
existe_grupo nombre t = elim (wait_on t.semaforos 0) [
  | none ↦ none
  | some s ↦ some (
    record t { semaforos = signalize s 0 },
    elim (primero (es_grupo nombre) t.grupos_creados) [ none ↦ false | some i ↦ true ],
  )
]

-- A pass of the loop in the constructor that looks for a group: the position of the group, or `none`
-- if there is no such group and it goes on to wait on semaphore 1.
unfoldable pub buscar_grupo : Nombre → Grupos → Option (Grupos × Option ℕ)
buscar_grupo nombre t = elim (wait_on t.semaforos 0) [
  | none ↦ none
  | some s ↦ elim (primero (es_grupo nombre) t.grupos_creados) [
    | none ↦ some (
      record t {
        semaforos = signalize s 0;
        cantidad_clientes_esperando = t.cantidad_clientes_esperando + 1;
      },
      none,
    )
    | some i ↦ some (record t { semaforos = signalize s 0 }, some i)
  ]
]

abbrev pub despertar_esperando : ℕ → List ℕ → List ℕ
despertar_esperando zero s = s
despertar_esperando (suc n) s = despertar_esperando n (signalize s 1)

-- What the constructor that creates a group does to the table, with the position of the group.
-- `none` is a table that is full: the code goes on with a position that it never set.
unfoldable pub crear_con_lock :
    (tamanio_tabla_clientes : ℕ) → Nombre → (tamanio : ℕ) → Grupos → Option (Grupos × ℕ)
crear_con_lock tamanio_tabla_clientes nombre tamanio t =
    elim (primero (es_grupo_o_libre nombre) t.grupos_creados) [
      | none ↦ none
      | some i ↦ some (
        record {
          grupos_creados =
              (if no_vacio (get_or t.grupos_creados i [])
                then t.grupos_creados
                else set t.grupos_creados i (take max_nombre_recurso nombre));
          semaforos = signalize (despertar_esperando t.cantidad_clientes_esperando t.semaforos) 0;
          cantidad_clientes_esperando = 0;
          offsets = set t.offsets (i + 1) (get_or t.offsets i 0 + tamanio + tamanio_tabla_clientes);
        },
        i,
      )
    ]

unfoldable pub crear_grupo :
    (tamanio_tabla_clientes : ℕ) → Nombre → (tamanio : ℕ) → Grupos → Option (Grupos × ℕ)
crear_grupo tamanio_tabla_clientes nombre tamanio t = elim (wait_on t.semaforos 0) [
  | none ↦ none
  | some s ↦ crear_con_lock tamanio_tabla_clientes nombre tamanio (record t { semaforos = s })
]
