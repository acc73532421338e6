-- ===== src/Grupos/Tests.antt =====
-- The creation of a group for which a client waits.
use aeropuerto.Base.{◌≡◌, refl, [], ◌∷◌, none, some, arith, set, wait_on, signalize}
use aeropuerto.Grupos.{Grupos, grupos_inicial, buscar_grupo, crear_grupo, crear_con_lock}
use aeropuerto.Grupos.Creacion.{TrasCrear, crear_grupo_lem}

-- A memory for two groups, whose table takes 9000 bytes.
abbrev nueva : Grupos
nueva = grupos_inicial 9000 2

-- The same once somebody has looked for a group in vain.
abbrev esperada : Grupos
esperada = record nueva { cantidad_clientes_esperando = 1 }

-- The same once the group "a" with 40 bytes is created, and the client woken.
abbrev con_grupo_a : Grupos
con_grupo_a = record nueva {
  semaforos = 1 ∷ 1 ∷ 1 ∷ 1 ∷ [];
  grupos_creados = set nueva.grupos_creados 0 (97 ∷ []);
  offsets = set nueva.offsets 1 9140;
}

buscar_en_vano : buscar_grupo (97 ∷ []) nueva ≡ some (esperada, none)
unfolding buscar_grupo wait_on signalize
buscar_en_vano = refl

crear_a : crear_grupo 100 (97 ∷ []) 40 esperada ≡ some (con_grupo_a, 0)
unfolding crear_grupo crear_con_lock wait_on signalize
crear_a = refl

crear_grupo_lem_example : TrasCrear 100 (97 ∷ []) 40 esperada (con_grupo_a, 0)
crear_grupo_lem_example = crear_grupo_lem 100 (97 ∷ []) 40 esperada refl (omega arith) crear_a
