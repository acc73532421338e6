-- ===== src/MessageBroker/Tests.antt =====
-- A queue that is created, found and destroyed.
use aeropuerto.Base.{◌≡◌, ◌≢◌, refl, replicate, ◌++◌, [], ◌∷◌, true, set}
use aeropuerto.Grupo.{Nombre, no_vacio}
use aeropuerto.MessageBroker.{
  Colas, colas_inicial, ok, pisa, allocate_queue_id, get_proj_id, exist_queue, deallocate_queue_id,
  create_queue,
}
use aeropuerto.MessageBroker.Registro.{
  TrasAllocate, allocate_queue_id_lem, allocate_queue_id-get_proj_id,
}

abbrev cola : Nombre
cola = 113 ∷ 49 ∷ []

abbrev con_cola : Colas
con_cola = set colas_inicial 0 cola

crear : create_queue (λ p. true) cola colas_inicial ≡ ok con_cola 0
unfolding create_queue allocate_queue_id
crear = refl

allocate_queue_id_lem_example : TrasAllocate cola con_cola (allocate_queue_id cola con_cola)
allocate_queue_id_lem_example = allocate_queue_id_lem cola con_cola

asignar : allocate_queue_id cola colas_inicial ≡ ok con_cola 0
unfolding allocate_queue_id
asignar = refl

allocate_queue_id-get_proj_id_example :
    (get_proj_id cola con_cola ≡ 0)
    × ((otro : Nombre)
        → no_vacio otro ≡ true
        → otro ≢ cola
        → get_proj_id otro con_cola ≡ get_proj_id otro colas_inicial)
    × (deallocate_queue_id cola con_cola ≡ ok colas_inicial 0)
unfolding exist_queue
allocate_queue_id-get_proj_id_example =
    allocate_queue_id-get_proj_id cola colas_inicial refl refl asignar

-- 256 characters in the first entry: the last of them stands in the second.
larga :
    allocate_queue_id (replicate 255 97 ++ 98 ∷ []) colas_inicial
    ≡ pisa (set (set colas_inicial 0 (replicate 255 97 ++ 98 ∷ [])) 1 (98 ∷ [])) 0
unfolding allocate_queue_id
larga = refl
