-- ===== src/Registracion/Tests.antt =====
-- A client and an empty group.
use aeropuerto.Base.{◌≡◌, refl, [], ◌∷◌, true, replicate, arith}
use aeropuerto.Grupo.{Nombre, con_mutex, locked_join, wait_on_mutex, signalize_mutex}
use aeropuerto.Grupo.{join as unir}
use aeropuerto.Transferencia.{join}
use aeropuerto.Registracion.{
  error, Handler, devuelve, registrar, procesar_peticion, responder_join, join_group,
  avisar_creacion_grupo, lanza, unirse,
}
use aeropuerto.Registracion.Union.{TrasUnirse, unirse_lem}

abbrev cinta : Nombre
cinta = 99 ∷ 105 ∷ []

abbrev handler : Handler
handler = record {
  nombre_cliente = 114 ∷ [];
  nombre_grupo = [];
  tipo_join = join;
  cantidad_de_bloques_a_enviar = 0;
  tamanio_memoria = 0;
  cola_token_manager = [];
  grupo = record {
    cant_clientes = 0;
    mem_size = 300;
    client_names = replicate 50 [];
    tengo_token_grupo = 0;
    tengo_token_cliente = 0;
    token_enviado = 0;
    avisar_envio = 0;
    mutex = 1;
    cola = [];
    numero_base_cola_asignada = 0;
    numero_cola_asignada = 0;
    cliente_actual = 0;
  };
}

-- What stood in the client's message comes back as the answer.
sin_respuesta :
    registrar error (114 ∷ []) (record handler { nombre_cliente = [] }) ≡ devuelve (handler, true)
unfolding registrar procesar_peticion
sin_respuesta = refl

unirse_lem_example : TrasUnirse cinta handler (unirse error true 0 cinta handler)
unirse_lem_example =
    unirse_lem error true 0 cinta handler (omega arith)
      ((λ e. omega (arith, e)), ((λ e. omega (arith, e)), tt))

abbrev lleno : Handler
lleno = record handler { grupo = record handler.grupo { cant_clientes = 50 } }

-- A full group refuses the client: nothing is sent.
rechazado :
    unirse error true 0 cinta lleno
    ≡ lanza (record lleno {
      nombre_grupo = cinta;
      cola_token_manager = record { mtype = 1; tipo = 3 } ∷ [];
    })
unfolding unirse procesar_peticion responder_join join_group avisar_creacion_grupo unir con_mutex
    locked_join wait_on_mutex signalize_mutex
rechazado = refl
