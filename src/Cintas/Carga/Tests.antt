-- ===== src/Cintas/Carga/Tests.antt =====
-- Runs of a small container belt, and the theorems at them.
use aeropuerto.Base.{
  ℕ, ◌≡◌, refl, [], ◌∷◌, ◌++◌, true, false, none, some, arith, wait_on, signalize,
}
use aeropuerto.Cintas.Lado.{esperar_turno, dar_turno, dormir, despertar}
use aeropuerto.Cintas.Checkin
use aeropuerto.Cintas.Checkin.{Cinta, cinta_inicial}
use aeropuerto.Cintas.Checkin.Invariante.{cinta_inicial-EsValida, equipajes}
use aeropuerto.Cintas.Carga.{
  CintaCarga, poner_equipaje, sacar_equipaje, sacar_con_lock, avisar_cierre_de_checkin,
  comenzar_nueva_carga, checkin_ya_cerro, cantidad_valijas_totales, despertar_consumidores,
}
use aeropuerto.Cintas.Carga.Invariante.{
  EsCarga, avisar_cierre_de_checkin-EsCarga, sacar_equipaje-Saco,
}
use aeropuerto.Cintas.Carga.Cierre.{avisar_cierre_de_checkin_llega}
use aeropuerto.Cintas.Carga.Recorrido.{
  Recorrido, inicio, pone, saca, avisa, comienza, Recorrido-equipajes,
}

-- An empty belt for two pieces.
abbrev vacia : CintaCarga ℕ
vacia = record {
  cinta = cinta_inicial 2 1 1 0;
  checkin_cerrado = 0;
  numero_de_valijas_totales = 0;
  ya_me_desperto = false;
}

-- The consumer has found it empty and sleeps.
abbrev dormida : CintaCarga ℕ
dormida = record vacia {
  cinta = record (vacia.cinta) {
    consumidores = record { cantidad = 1; esperando = 1; ids = 1 ∷ []; semaforo = 0 ∷ [] };
  };
}

-- The check-in closes with 5 pieces, and the consumer learns it.
abbrev avisada : CintaCarga ℕ
avisada = record vacia { checkin_cerrado = 1; numero_de_valijas_totales = 5; ya_me_desperto = true }

-- A piece is placed after that.
abbrev con_una : CintaCarga ℕ
con_una = record avisada {
  cinta = record (vacia.cinta) {
    posicion_libre = 1;
    cantidad_elementos = 1;
    vector_elementos = 9 ∷ 0 ∷ [];
  };
}

sacar_vacia : sacar_equipaje 0 1 vacia ≡ some (dormida, none)
unfolding sacar_equipaje esperar_turno wait_on sacar_con_lock Checkin.sacar_con_lock
    Checkin.ceder_consumidor dormir
sacar_vacia = refl

sacar_cerrada : sacar_equipaje 0 1 (avisar_cierre_de_checkin 5 dormida) ≡ some (avisada, some 0)
unfolding avisar_cierre_de_checkin despertar_consumidores Checkin.despertar_consumidores despertar
    signalize sacar_equipaje esperar_turno wait_on sacar_con_lock dar_turno
sacar_cerrada = refl

poner_avisada : poner_equipaje 9 1 avisada ≡ some (con_una, true)
unfolding poner_equipaje Checkin.poner_equipaje esperar_turno wait_on Checkin.poner_con_lock
    Checkin.colocar Checkin.despertar_consumidores despertar Checkin.ceder_productor dar_turno
    signalize
poner_avisada = refl

vacia-EsCarga : EsCarga vacia
vacia-EsCarga = record {
  cinta = cinta_inicial-EsValida 2 1 1 0 (omega arith) (omega arith);
  cerrado = omega arith;
  avisado = λ e. absurd (cc);
}

dormida-EsCarga : EsCarga dormida
dormida-EsCarga =
    (sacar_equipaje-Saco 0 vacia vacia-EsCarga 1 (omega arith) (omega arith) sacar_vacia).0

avisar_cierre_de_checkin_llega_example :
    (k' : CintaCarga ℕ) × (sacar_equipaje 0 1 (avisar_cierre_de_checkin 5 dormida)
      ≡ some (k', some 0))
    × (equipajes 0 k'.cinta ≡ equipajes 0 dormida.cinta)
    × (checkin_ya_cerro k' ≡ true)
    × (cantidad_valijas_totales k' ≡ some 5)
avisar_cierre_de_checkin_llega_example =
    avisar_cierre_de_checkin_llega 0 dormida dormida-EsCarga 5 1 (omega arith) (omega arith) refl

avisada-EsCarga : EsCarga avisada
unfolding avisar_cierre_de_checkin despertar_consumidores Checkin.despertar_consumidores despertar
avisada-EsCarga =
    (sacar_equipaje-Saco 0 (avisar_cierre_de_checkin 5 dormida)
      (avisar_cierre_de_checkin-EsCarga dormida dormida-EsCarga 5) 1 (omega arith) (omega arith)
      sacar_cerrada).0

un_vuelo : Recorrido 0 vacia (9 ∷ []) [] (comenzar_nueva_carga con_una)
unfolding avisar_cierre_de_checkin despertar_consumidores Checkin.despertar_consumidores despertar
un_vuelo = comienza (
    pone
      (saca (avisa (saca inicio 1 none (omega arith) (omega arith) sacar_vacia refl) 5) 1 (some 0)
        (omega arith) (omega arith) sacar_cerrada refl)
      9 1 true (omega arith) (omega arith) poner_avisada refl)

Recorrido-equipajes_example :
    equipajes 0 vacia.cinta ++ 9 ∷ [] ≡ [] ++ equipajes 0 (comenzar_nueva_carga con_una).cinta
Recorrido-equipajes_example = Recorrido-equipajes 0 vacia-EsCarga un_vuelo
