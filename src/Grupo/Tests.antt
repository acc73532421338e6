-- ===== src/Grupo/Tests.antt =====
-- Runs of a group of two clients, and the theorems at them.
use aeropuerto.Base.{
  ℕ, ◌+◌, ◌<◌, ◌≡◌, ◌⊎◌, refl, List, [], ◌∷◌, true, false, some, if◌then◌else◌, get_or, set,
  replicate, length, arith,
}
use aeropuerto.Grupo.{
  Grupo, localbroker, strncmp_igual, max_nombre_recurso, max_clients, registrado, join, locked_join,
  anotar, ya_esta_cliente, locked_ya_esta_cliente, leave, locked_leave, con_mutex, wait_on_mutex,
  signalize_mutex, obtener_proximo_cliente, locked_proximo_cliente, buscar_proximo,
  pasar_token_a_proximo_cliente, locked_pasar_token, entregar_token,
}
use aeropuerto.Grupo.Clientes.{EsGrupo}
use aeropuerto.Grupo.Turno.{EsProximo}
use aeropuerto.Grupo.Registro.{Esta, TrasJoin, join_lem}
use aeropuerto.Grupo.Bajas.{ya_esta_cliente_lem, leave_lem}
use aeropuerto.Grupo.Token.{tengo_el_token_cliente}
use aeropuerto.Grupo.Token.Paso.{Paso, pasar_token_lem}
use aeropuerto.Grupo.Equidad.{Pases, Atendido, Pases-Atendido, Pases-existe}

-- The local broker in slot 0 and a client "a" in slot 2, which has the token.
abbrev dos : Grupo
dos = record {
  cant_clientes = 2;
  mem_size = 0;
  client_names = localbroker ∷ [] ∷ (97 ∷ []) ∷ replicate 47 [];
  tengo_token_grupo = 1;
  tengo_token_cliente = 2;
  token_enviado = 1;
  avisar_envio = 0;
  mutex = 1;
  cola = [];
  numero_base_cola_asignada = 51;
  numero_cola_asignada = 51;
  cliente_actual = 2;
}

-- The same once a client "b" has joined.
abbrev tres : Grupo
tres = record dos {
  cant_clientes = 3;
  client_names = localbroker ∷ (98 ∷ []) ∷ (97 ∷ []) ∷ replicate 47 [];
  numero_cola_asignada = 52;
}

-- The same once the token of `dos` has gone to the local broker.
abbrev pasado : Grupo
pasado = record dos {
  tengo_token_grupo = 0;
  tengo_token_cliente = 0;
  token_enviado = 0;
  cliente_actual = 0;
  cola = record { mtype = 51; tipo = 1 } ∷ [];
}

dos-EsGrupo : EsGrupo dos
dos-EsGrupo = record { length_names = refl; cuantos = refl; actual_dentro = omega arith }

unir_b : join (98 ∷ []) dos ≡ some (tres, registrado)
unfolding join con_mutex wait_on_mutex signalize_mutex locked_join locked_ya_esta_cliente anotar
unir_b = refl

buscar_a : ya_esta_cliente (97 ∷ []) dos ≡ some (record dos { mutex = 2 }, true)
unfolding ya_esta_cliente con_mutex wait_on_mutex signalize_mutex locked_ya_esta_cliente
buscar_a = refl

-- `dos` once "a" has left.
abbrev uno : Grupo
uno = record dos { cant_clientes = 1; client_names = localbroker ∷ replicate 49 [] }

dejar_a : leave (97 ∷ []) dos ≡ some (uno, tt)
unfolding leave con_mutex wait_on_mutex signalize_mutex locked_leave
dejar_a = refl

obtener_siguiente : obtener_proximo_cliente dos ≡ some (record dos { cliente_actual = 0 }, 0)
unfolding obtener_proximo_cliente con_mutex wait_on_mutex signalize_mutex locked_proximo_cliente
    buscar_proximo
obtener_siguiente = refl

pasar_al_broker : pasar_token_a_proximo_cliente dos ≡ some (pasado, tt)
unfolding pasar_token_a_proximo_cliente con_mutex wait_on_mutex signalize_mutex locked_pasar_token
    entregar_token buscar_proximo
pasar_al_broker = refl

no_es_mio :
    tengo_el_token_cliente (record pasado { numero_cola_asignada = 2 + 51 })
    ≡ some (record pasado { numero_cola_asignada = 53 }, false)
unfolding tengo_el_token_cliente con_mutex wait_on_mutex signalize_mutex
no_es_mio = refl

join_lem_example : EsGrupo tres × TrasJoin (98 ∷ []) dos tres registrado
join_lem_example = join_lem dos dos-EsGrupo (98 ∷ []) refl unir_b

ya_esta_cliente_lem_example :
    ((true ≡ true) → Esta (97 ∷ []) dos)
    × ((true ≡ false) → ¬ Esta (97 ∷ []) dos)
    × (record dos { mutex = 2 } ≡ record dos { mutex = 1 + (if true then 1 else 0) })
ya_esta_cliente_lem_example = ya_esta_cliente_lem dos dos-EsGrupo (97 ∷ []) buscar_a

leave_lem_example :
    EsGrupo uno
    × ((¬ Esta (97 ∷ []) dos × (uno ≡ dos))
        ⊎ ((i : ℕ) × (i < max_clients)
            × (strncmp_igual max_nombre_recurso (get_or dos.client_names i []) (97 ∷ []) ≡ true)
            × (uno.client_names ≡ set dos.client_names i [])
            × (uno.cant_clientes + 1 ≡ dos.cant_clientes)
            × (uno.mutex ≡ dos.mutex)))
leave_lem_example = leave_lem dos dos-EsGrupo (97 ∷ []) refl dejar_a

pasar_token_lem_example : EsProximo dos.client_names 2 0 × Paso dos dos-EsGrupo pasado
pasar_token_lem_example = pasar_token_lem dos dos-EsGrupo (omega arith) pasar_al_broker

-- A whole round of the table.
abbrev vuelta :
    (atendidos : List ℕ) × (g' : Grupo) × (length atendidos ≡ 50) × Pases dos atendidos g'
vuelta = Pases-existe 50 dos dos-EsGrupo (omega arith) (omega arith)

Pases-Atendido_example : Atendido 2 vuelta.0
Pases-Atendido_example =
    Pases-Atendido 2 (omega arith) dos-EsGrupo refl (let e = vuelta.2 in omega arith) vuelta.3
