-- ===== src/Init/Tests.antt =====
-- Lines of the .init files of local_broker/locks, and the theorems at them.
use aeropuerto.Base.{List, replicate, codes, ◌≡◌, refl, [], ◌∷◌, none, some, arith}
use aeropuerto.Init.{
  Texto, inicializar_memoria, pos, negsuc, t_int, parse_int_val, parse_size_t_val, parse_line,
  partir,
}
use aeropuerto.Init.Constantes.{parse_int_val-parse_size_t_val}
use aeropuerto.Init.Lineas.{lineas, celdas, inicializar_memoria-lineas}

-- The first line of cinta_principal.init that is not a comment.
capacidad :
    parse_line 4 64 (codes "int CAPACIDAD_CINTA_CENTRAL")
    ≡ some (record { tipo = t_int; cant_vector = pos 1; valor_int = pos 10 })
unfolding parse_line partir parse_int_val
capacidad = refl

-- Its last line.
productores :
    parse_line 4 64 (codes "int [CANTIDAD_MAX_PRODUCTORES_CINTA_CENTRAL] 0")
    ≡ some (record { tipo = t_int; cant_vector = pos 6; valor_int = pos 0 })
unfolding parse_line partir parse_int_val
productores = refl

negativo : parse_int_val 4 64 (codes "-12") ≡ negsuc 11
unfolding parse_int_val
negativo = refl

parse_int_val-parse_size_t_val_example :
    parse_int_val 4 64 (codes "TAMANIO_MEMORIA_CINTA_SCANNER")
    ≡ pos (parse_size_t_val 4 64 (codes "TAMANIO_MEMORIA_CINTA_SCANNER"))
parse_int_val-parse_size_t_val_example =
    parse_int_val-parse_size_t_val 4 64 (codes "TAMANIO_MEMORIA_CINTA_SCANNER") (λ f. omega arith)

-- The belt's file, after its comment: capacity, indices, count, users, sleepers, flags.
abbrev cinta_principal : List Texto
cinta_principal =
    codes "int CAPACIDAD_CINTA_CENTRAL"
    ∷ codes "int 0"
    ∷ codes "int 0"
    ∷ codes "int 0"
    ∷ codes "int CANTIDAD_MAX_PRODUCTORES_CINTA_CENTRAL"
    ∷ codes "int CANTIDAD_MAX_CONSUMIDORES_CINTA_CENTRAL"
    ∷ codes "int 0"
    ∷ codes "int 0"
    ∷ codes "int [CANTIDAD_MAX_PRODUCTORES_CINTA_CENTRAL] 0"
    ∷ []

memoria_principal :
    inicializar_memoria 4 64 136 cinta_principal
    ≡ some (pos 10 ∷ pos 0 ∷ pos 0 ∷ pos 0 ∷ pos 6 ∷ pos 3 ∷ pos 0 ∷ pos 0 ∷ replicate 6 (pos 0))
unfolding inicializar_memoria parse_line partir parse_int_val
memoria_principal = refl

-- The memory has no room for the last cell.
sin_espacio : inicializar_memoria 4 64 52 cinta_principal ≡ none
unfolding inicializar_memoria parse_line partir parse_int_val
sin_espacio = refl

inicializar_memoria-lineas_example :
    inicializar_memoria 4 64 16 (lineas ((1, 10) ∷ (3, 0) ∷ []))
    ≡ some (celdas ((1, 10) ∷ (3, 0) ∷ []))
inicializar_memoria-lineas_example =
    inicializar_memoria-lineas 4 64 16 ((1, 10) ∷ (3, 0) ∷ [])
      (omega arith, omega arith, (omega arith, omega arith, tt))
