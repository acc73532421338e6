-- ===== src/Multiplexer/Tests.antt =====
-- Two groups.
use aeropuerto.Base.{◌≡◌, refl, sym, some_ne_none, [], ◌∷◌, some, arith}
use aeropuerto.Grupo.{Nombre}
use aeropuerto.AnilloDeBrokers.{token_deliver}
use aeropuerto.Multiplexer.{
  Paquete, Multiplexer, wait_on_mutex, signalize_mutex, registrar, forward_message,
}
use aeropuerto.Multiplexer.Reparto.{TrasForward, forward_message_lem}

abbrev cinta : Nombre
cinta = 99 ∷ 105 ∷ []

abbrev robot : Nombre
robot = 114 ∷ 111 ∷ []

abbrev paquete : Nombre → Paquete
paquete nombre_grupo = record {
  nombre_grupo = nombre_grupo;
  mensaje = record {
    tipo = token_deliver;
    numero_de_mensaje = 0;
    cantidad_bytes_total = 0;
    data_bytes = [];
  };
}

abbrev con_cinta : Multiplexer
con_cinta = record {
  lider = 0;
  grupos_creados = cinta ∷ [] ∷ [] ∷ [];
  mutex = 1;
  grupos = [];
  interfaz_grupos = paquete cinta ∷ paquete robot ∷ [];
  cola_espera_grupos = [];
}

abbrev con_robot : Multiplexer
con_robot = record con_cinta { grupos_creados = cinta ∷ robot ∷ [] ∷ [] }

registrado : registrar 0 (paquete robot) robot con_cinta ≡ some (con_robot, 2)
unfolding registrar wait_on_mutex signalize_mutex
registrado = refl

forward_message_lem_example :
    TrasForward (paquete cinta) (paquete robot ∷ []) con_cinta (forward_message con_cinta)
forward_message_lem_example =
    forward_message_lem (paquete cinta) (paquete robot ∷ []) con_cinta refl refl (omega arith)
      (λ nombre k l e. absurd (some_ne_none (sym e)))
