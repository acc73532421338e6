-- ===== src/AnilloDeBrokers/Nodo/Tests.antt =====
-- Two hosts.
use aeropuerto.Base.{ℕ, ◌≡◌, refl, Bool, true, false, List, [], ◌∷◌, replicate, some, arith}
use aeropuerto.AnilloDeBrokers.{Mensaje, group_discover, sprintf_numero}
use aeropuerto.AnilloDeBrokers.Nodo.{
  Nodo, vuelta, presentacion, atender, recv_token, procesar_mensaje,
}
use aeropuerto.AnilloDeBrokers.Nodo.Vuelta.{regreso, vuelta-regreso}
use aeropuerto.AnilloDeBrokers.Nodo.Numeros.{TrasVuelta, vuelta-NumeradosDesde}

abbrev nodo : ℕ → Bool → Nodo
nodo nombre es_leader = record {
  broker_local = nombre ∷ [];
  receptor = record {
    mem_size = 1;
    es_leader = es_leader;
    numero_de_nodo = 0;
    token_inicializado = true;
    siguiente = 0;
    cantidad_recibida_token = 0;
    data_token = 0 ∷ [];
    siguiente_replica = 0;
    cantidad_recibida_replica = 0;
    replica_ok = false;
    data_replica = 0 ∷ [];
  };
  mutex = false;
  crear_token = false;
  memoria_inicializada = true;
  data_group = replicate 256 0;
  cantidad_recibida_grupo = 0;
  grupo = record {
    cant_clientes = 0;
    mem_size = 1;
    client_names = [];
    tengo_token_grupo = 0;
    tengo_token_cliente = 0;
    token_enviado = 0;
    avisar_envio = 0;
    mutex = 1;
    cola = [];
    numero_base_cola_asignada = 0;
    numero_cola_asignada = 0;
    cliente_actual = 0;
  };
  memoria = 0 ∷ [];
  cola_token_manager = [];
  leader_q = [];
  lider_lanzado = false;
}

abbrev saludo : Mensaje
saludo = presentacion (97 ∷ []) (replicate 256 0)

-- The leader is the first of the two: its answer gets lost.
abbrev hosts : List Nodo
hosts = nodo 98 true ∷ nodo 99 false ∷ []

perdida : vuelta (λ m. m) 0 hosts (saludo ∷ []) ≡ some (hosts, [])
unfolding atender recv_token procesar_mensaje
perdida = refl

vuelta-regreso_example : vuelta (λ m. m) 0 hosts (saludo ∷ []) ≡ some (hosts, regreso hosts saludo)
vuelta-regreso_example = vuelta-regreso (λ m. m) 0 hosts saludo refl (refl, (refl, tt))

abbrev preguntados : List Nodo
preguntados = nodo 98 false ∷ nodo 99 false ∷ []

abbrev pregunta : Mensaje
pregunta = record {
  tipo = group_discover;
  numero_de_mensaje = 1;
  cantidad_bytes_total = 1;
  data_bytes = sprintf_numero 1 (replicate 256 0);
}

vuelta-NumeradosDesde_example :
    TrasVuelta 1 preguntados (vuelta (λ m. m) 0 preguntados (pregunta ∷ []))
vuelta-NumeradosDesde_example =
    vuelta-NumeradosDesde (λ m. m) 0 preguntados 1 (replicate 256 0) pregunta refl (omega arith)
      refl (refl, (refl, tt))
