-- ===== src/Init.antt =====
-- The files that describe the initial contents of a shared memory: class `InitParser` of
-- local_broker/init_parser.cpp, and `Grupo::inicializar_memoria`, which writes what it reads.
pub mod Constantes
pub mod Decimal
pub mod Lineas
mod Tests
use aeropuerto.Base.{
  ℕ, codes, zero, suc, ◌+◌, ◌-◌, ◌*◌, List, [], ◌∷◌, ◌++◌, Bool, true, false, ◌||◌, ◌&&◌, Option,
  none, some, ltb, leb, ◌==◌, if◌then◌else◌, length, replicate,
}

-- A C string is the list of its characters' codes before the first '\0'.
abbrev pub Texto : Type 0
Texto = List ℕ

-- An `int`, without its bounds: `atoi` is not defined on a number that does not fit.
pub data ℤ : Type 0 where
  pos : ℕ → ℤ
  negsuc : ℕ → ℤ

abbrev pub neg : ℕ → ℤ
neg zero = pos 0
neg (suc n) = negsuc n

-- `strcmp(a, b) == 0`.
abbrev pub cmp : Texto → Texto → Bool
cmp [] [] = true
cmp [] (y ∷ ys) = false
cmp (x ∷ xs) [] = false
cmp (x ∷ xs) (y ∷ ys) = let rest = cmp xs ys in if x == y then rest else false

abbrev pub es_cifra : ℕ → Bool
es_cifra c = leb 48 c && leb c 57

-- How far `while (val [pos] >= '0' && val [pos] <= '9' && val [pos] != '\0') pos++` goes.
abbrev pub contar_cifras : Texto → ℕ
contar_cifras [] = 0
contar_cifras (c ∷ cs) = let rest = contar_cifras cs in if es_cifra c then suc rest else 0

-- The number that the digits at the front of a text make behind `acc`.
abbrev pub valor_desde : ℕ → Texto → ℕ
valor_desde acc [] = acc
valor_desde acc (c ∷ cs) =
    let rest = valor_desde (acc * 10 + (c - 48)) cs in if es_cifra c then rest else acc

-- `atoi` of a text that is a minus sign or nothing, and digits.
abbrev pub atoi : Texto → ℤ
atoi [] = pos 0
atoi (c ∷ cs) = if c == 45 then neg (valor_desde 0 cs) else pos (valor_desde 0 (c ∷ cs))

abbrev pub Tabla : Type 0
Tabla = List (Texto × ℕ)

-- The chain of `if (cmp(val, ...)) return ...`, which ends in `return 0`.
abbrev pub buscar : Texto → Tabla → ℕ
buscar val [] = 0
buscar val ((k, v) ∷ t) = let rest = buscar val t in if cmp val k then v else rest

-- The test `pos == len` of `parse_int_val`.
abbrev pub es_entero : Texto → Bool
es_entero [] = true
es_entero (c ∷ cs) =
    if c == 45 then contar_cifras cs == length cs else contar_cifras (c ∷ cs) == length (c ∷ cs)

pub data Tipo : Type 0 where
  t_int : Tipo

pub record InitParser : Type 0 where
  pub tipo : Tipo
  pub cant_vector : ℤ
  pub valor_int : ℤ

-- The text before the first character at which a loop stops, and what follows it. A text without one
-- is read past its end: `none`.
abbrev pub hasta : (ℕ → Bool) → Texto → Option (Texto × Texto)
hasta p [] = none
hasta p (c ∷ cs) =
    let rest = hasta p cs in
    if p c then some ([], cs) else elim rest [ none ↦ none | some (a, b) ↦ some (c ∷ a, b) ]

abbrev pub saltar_espacios : Texto → Texto
saltar_espacios [] = []
saltar_espacios (c ∷ cs) = let rest = saltar_espacios cs in if c == 32 then rest else c ∷ cs

-- The parts of a line: `tipo`, `vector` if there is one, `valor`.
pub record Partes : Type 0 where
  pub tipo : Texto
  pub vector : Option Texto
  pub valor : Texto

abbrev pub tras_tipo : Texto → Texto → Option Partes
tras_tipo tipo [] = some (record { tipo = tipo; vector = none; valor = [] })
tras_tipo tipo (c ∷ cs) =
    if c == 91
    then elim (hasta (λ k. k == 32 || k == 93) cs) [
      | none ↦ none
      | some (v, rest) ↦
          some (record { tipo = tipo; vector = some v; valor = saltar_espacios rest })
    ]
    else some (record { tipo = tipo; vector = none; valor = c ∷ cs })

unfoldable pub partir : Texto → Option Partes
partir line = elim (hasta (λ k. k == 32) line) [
  | none ↦ none
  | some (tipo, rest) ↦ tras_tipo tipo (saltar_espacios rest)
]

-- The sizes of `int` and of `Equipaje`, which the compiler knows.
-- The numbers from -2 ^ 31 to 2 ^ 31 - 1.
abbrev pub cabe_en_int : ℤ → Bool
cabe_en_int (pos n) = ltb n 2147483648
cabe_en_int (negsuc n) = ltb n 2147483648

module _ (sizeof_int sizeof_equipaje : ℕ) where
  -- The names of `parse_int_val`, in its order.
  abbrev pub tabla_int : Tabla
  tabla_int =
      (codes "CAPACIDAD_CINTA_CHECKIN", 10)
      ∷ (codes "CAPACIDAD_CINTA_SCANNER", 10)
      ∷ (codes "CAPACIDAD_CINTA_CENTRAL", 10)
      ∷ (codes "CANTIDAD_MAX_PRODUCTORES_CINTA_CHECKIN", 4)
      ∷ (codes "CANTIDAD_MAX_CONSUMIDORES_CINTA_CHECKIN", 1)
      ∷ (codes "CANTIDAD_MAX_PRODUCTORES_CINTA_SCANNER", 1)
      ∷ (codes "CANTIDAD_MAX_CONSUMIDORES_CINTA_SCANNER", 1)
      ∷ (codes "CANTIDAD_MAX_PRODUCTORES_CINTA_CONTENEDOR", 1)
      ∷ (codes "CANTIDAD_MAX_CONSUMIDORES_CINTA_CONTENEDOR", 1)
      ∷ (codes "CANTIDAD_MAX_PRODUCTORES_CINTA_CENTRAL", 6)
      ∷ (codes "CANTIDAD_MAX_CONSUMIDORES_CINTA_CENTRAL", 3)
      ∷ (codes "CANTIDAD_MAX_CINTAS_CONTENEDOR", 8)
      ∷ (codes "CAPACIDAD_CINTA_CONTENEDOR", 10)
      ∷ (codes "MAX_SCANNERS", 4)
      ∷ (codes "ZONAS_POR_ROBOT_DESPACHO", 2)
      ∷ (codes "MAX_ROBOTS_INTERCARGO_ESPERANDO_POR_ZONAS", 10)
      ∷ (codes "MAX_CLIENTS", 50)
      ∷ (codes "TAMANIO_MEMORIA_CINTA_PRINCIPAL", (8 + 6 + 3) * sizeof_int + sizeof_equipaje * 10)
      ∷ (codes "TAMANIO_MEMORIA_CINTA_SCANNER", sizeof_int * 5 + 10 * sizeof_equipaje)
      ∷ (codes "TAMANIO_MEMORIA_CONTROL_CINTA_SCANNER", sizeof_int * 2 + sizeof_int * 4 * 2)
      ∷ (
        codes "TAMANIO_MEMORIA_CINTA_CARGA",
        10 * sizeof_int + sizeof_int * (8 + 8) + sizeof_equipaje * 10,
      )
      ∷ (
        codes "TAMANIO_MEMORIA_CINTA_CHECKIN",
        8 * sizeof_int + sizeof_int * (4 + 1) + 10 * sizeof_equipaje,
      )
      ∷ (codes "TAMANIO_MEMORIA_ZONAS_ASIGNADAS", sizeof_int * (10 + 10))
      ∷ (codes "MAX_INTERCARGOS_ESPERANDO", 10)
      ∷ (codes "CANT_MUTEX_CENTRAL", 1)
      ∷ (codes "Q_ZONAS", 6)
      ∷ (codes "Q_PUESTOS_CHECKIN", 5)
      ∷ (codes "Q_CONTENEDORES", 4)
      ∷ (codes "Q_TRASBORDO_LISTO", 3)
      ∷ (codes "Q_CHECKINS_CERRADO", 2)
      ∷ (codes "Q_CHECKINS_HABILITADOS", 1)
      ∷ (codes "MTX_CENTRAL", 0)
      ∷ []

  -- The names of `parse_size_t_val`, in its order.
  abbrev pub tabla_size_t : Tabla
  tabla_size_t =
      (codes "CAPACIDAD_CINTA_CHECKIN", 10)
      ∷ (codes "CAPACIDAD_CINTA_SCANNER", 10)
      ∷ (codes "CAPACIDAD_CINTA_CENTRAL", 10)
      ∷ (codes "CANTIDAD_MAX_PRODUCTORES_CINTA_CHECKIN", 4)
      ∷ (codes "CANTIDAD_MAX_CONSUMIDORES_CINTA_CHECKIN", 1)
      ∷ (codes "CANTIDAD_MAX_PRODUCTORES_CINTA_SCANNER", 1)
      ∷ (codes "CANTIDAD_MAX_CONSUMIDORES_CINTA_SCANNER", 1)
      ∷ (codes "CANTIDAD_MAX_PRODUCTORES_CINTA_CONTENEDOR", 1)
      ∷ (codes "CANTIDAD_MAX_CONSUMIDORES_CINTA_CONTENEDOR", 1)
      ∷ (codes "CANTIDAD_MAX_PRODUCTORES_CINTA_CENTRAL", 6)
      ∷ (codes "CANTIDAD_MAX_CONSUMIDORES_CINTA_CENTRAL", 3)
      ∷ (codes "CANTIDAD_MAX_CINTAS_CONTENEDOR", 8)
      ∷ (codes "CAPACIDAD_CINTA_CONTENEDOR", 10)
      ∷ (codes "TAMANIO_MEMORIA_CINTA_PRINCIPAL", (8 + 6 + 3) * sizeof_int + sizeof_equipaje * 10)
      ∷ (codes "TAMANIO_MEMORIA_CINTA_SCANNER", sizeof_int * 5 + 10 * sizeof_equipaje)
      ∷ (codes "TAMANIO_MEMORIA_CONTROL_CINTA_SCANNER", sizeof_int * 2 + sizeof_int * 4 * 2)
      ∷ (
        codes "TAMANIO_MEMORIA_CINTA_CARGA",
        10 * sizeof_int + sizeof_int * (8 + 8) + sizeof_equipaje * 10,
      )
      ∷ (
        codes "TAMANIO_MEMORIA_CINTA_CHECKIN",
        8 * sizeof_int + sizeof_int * (4 + 1) + 10 * sizeof_equipaje,
      )
      ∷ (codes "TAMANIO_MEMORIA_ZONAS_ASIGNADAS", sizeof_int * (10 + 10))
      ∷ (codes "MAX_SCANNERS", 4)
      ∷ (codes "ZONAS_POR_ROBOT_DESPACHO", 2)
      ∷ (codes "MAX_ROBOTS_INTERCARGO_ESPERANDO_POR_ZONAS", 10)
      ∷ (codes "MAX_CLIENTS", 50)
      ∷ (codes "MAX_INTERCARGOS_ESPERANDO", 10)
      ∷ (codes "CANT_MUTEX_CENTRAL", 1)
      ∷ (codes "Q_ZONAS", 6)
      ∷ (codes "Q_PUESTOS_CHECKIN", 5)
      ∷ (codes "Q_CONTENEDORES", 4)
      ∷ (codes "Q_TRASBORDO_LISTO", 3)
      ∷ (codes "Q_CHECKINS_CERRADO", 2)
      ∷ (codes "Q_CHECKINS_HABILITADOS", 1)
      ∷ (codes "MTX_CENTRAL", 0)
      ∷ []

  unfoldable pub parse_int_val : Texto → ℤ
  parse_int_val val = if es_entero val then atoi val else pos (buscar val tabla_int)

  unfoldable pub parse_size_t_val : Texto → ℕ
  parse_size_t_val val =
      if contar_cifras val == length val then valor_desde 0 val else buscar val tabla_size_t

  abbrev pub cantidad : Option Texto → ℤ
  cantidad none = pos 1
  cantidad (some v) = parse_int_val v

  -- The end of `parse_line`: `tipo` can only be `T_INT`.
  abbrev pub leer_partes : Partes → InitParser
  leer_partes p = record {
    tipo = t_int;
    cant_vector = cantidad p.vector;
    valor_int = parse_int_val p.valor;
  }

  unfoldable pub parse_line : Texto → Option InitParser
  parse_line line = elim (partir line) [ none ↦ none | some p ↦ some (leer_partes p) ]

  -- How often the loop over `vector` writes the value.
  abbrev pub veces : ℤ → ℕ
  veces (pos n) = n
  veces (negsuc n) = 0

  -- What a line adds before the cells of the lines after it. Both numbers are stored as `int`; it is
  -- `none` if one does not fit.
  abbrev pub escribir : Option InitParser → Option (List ℤ) → Option (List ℤ)
  escribir none memoria = none
  escribir (some p) none = none
  escribir (some p) (some memoria) =
      if cabe_en_int p.cant_vector && cabe_en_int p.valor_int
      then some (replicate (veces p.cant_vector) p.valor_int ++ memoria)
      else none

  -- The lines as `fscanf` reads them into `data [100]`; `none` if one is written over its end.
  abbrev pub leer_lineas : List Texto → Option (List ℤ)
  leer_lineas [] = some []
  leer_lineas (line ∷ lines) =
      let rest = leer_lineas lines in
      if ltb (length line) 100 then escribir (parse_line line) rest else none

  -- The integers that `Grupo::inicializar_memoria` writes from the start of the memory on, for the
  -- lines of the file after the first, which it skips. A group without memory is left alone. `none` is
  -- what C++ does not define: a line or a number that is too long, or a write over the end of the
  -- memory.
  unfoldable pub inicializar_memoria : (mem_size : ℕ) → List Texto → Option (List ℤ)
  inicializar_memoria mem_size lines = if mem_size == 0 then some [] else elim (leer_lineas lines) [
    | none ↦ none
    | some celdas ↦ if leb (sizeof_int * length celdas) mem_size then some celdas else none
  ]
