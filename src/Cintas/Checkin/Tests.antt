-- ===== src/Cintas/Checkin/Tests.antt =====
-- Runs of a small check-in belt, and the theorems at them.
use aeropuerto.Base.{ℕ, ◌≡◌, refl, [], ◌∷◌, ◌++◌, true, some, arith, wait_on, signalize}
use aeropuerto.Cintas.Lado.{esperar_turno, dar_turno, dormir, despertar}
use aeropuerto.Cintas.Checkin.{
  Cinta, cinta_inicial, poner_equipaje, sacar_equipaje, poner_con_lock, sacar_con_lock,
  ceder_productor, ceder_consumidor, colocar, quitar, despertar_productores, despertar_consumidores,
}
use aeropuerto.Cintas.Checkin.Invariante.{EsValida, cinta_inicial-EsValida, equipajes}
use aeropuerto.Cintas.Checkin.Pasadas.{poner_equipaje_lem}
use aeropuerto.Cintas.Checkin.Avance.{Traza-poner_avanza, Traza-sacar_avanza}
use aeropuerto.Cintas.Checkin.Traza.{Traza, inicio, pone, saca, Traza-equipajes}

-- An empty belt for two pieces with two producers.
abbrev vacia : Cinta ℕ
vacia = cinta_inicial 2 2 1 0

-- The same once producer 1 has placed a 7.
abbrev con_una : Cinta ℕ
con_una = record vacia { posicion_libre = 1; cantidad_elementos = 1; vector_elementos = 7 ∷ 0 ∷ [] }

-- The same once producer 2 has placed an 8, filled the belt and gone to sleep.
abbrev llena : Cinta ℕ
llena = record con_una {
  posicion_libre = 0;
  cantidad_elementos = 2;
  productores = record { cantidad = 2; esperando = 1; ids = 0 ∷ 1 ∷ []; semaforo = 1 ∷ 0 ∷ [] };
  vector_elementos = 7 ∷ 8 ∷ [];
}

-- The same once the consumer has taken the 7, which wakes producer 2.
abbrev despierta : Cinta ℕ
despierta = record con_una {
  posicion_libre = 0;
  posicion_ocupada = 1;
  vector_elementos = 7 ∷ 8 ∷ [];
}

poner_primera : poner_equipaje 7 1 vacia ≡ some (con_una, true)
unfolding poner_equipaje esperar_turno wait_on poner_con_lock colocar ceder_productor dar_turno
    signalize despertar_consumidores despertar
poner_primera = refl

poner_llena : poner_equipaje 8 2 con_una ≡ some (llena, true)
unfolding poner_equipaje esperar_turno wait_on poner_con_lock colocar ceder_productor dormir
poner_llena = refl

sacar_despierta : sacar_equipaje 0 llena ≡ some (despierta, some 7)
unfolding sacar_equipaje esperar_turno wait_on sacar_con_lock quitar despertar_productores despertar
    signalize ceder_consumidor dar_turno
sacar_despierta = refl

vacia-EsValida : EsValida vacia
vacia-EsValida = cinta_inicial-EsValida 2 2 1 0 (omega arith) (omega arith)

con_una-EsValida : EsValida con_una
con_una-EsValida =
    (poner_equipaje_lem 0 vacia vacia-EsValida 7 1 (omega arith) (omega arith) poner_primera).0

llena-EsValida : EsValida llena
llena-EsValida =
    (poner_equipaje_lem 0 con_una con_una-EsValida 8 2 (omega arith) (omega arith) poner_llena).0

tres_pasadas : Traza 0 vacia (7 ∷ 8 ∷ []) (7 ∷ []) despierta
tres_pasadas =
    saca
      (pone (pone inicio 7 1 true (omega arith) (omega arith) poner_primera refl) 8 2 true
        (omega arith) (omega arith) poner_llena refl)
      (some 7) sacar_despierta refl

Traza-equipajes_example : equipajes 0 vacia ++ 7 ∷ 8 ∷ [] ≡ 7 ∷ [] ++ equipajes 0 despierta
Traza-equipajes_example = Traza-equipajes 0 vacia-EsValida tres_pasadas

Traza-poner_avanza_example :
    (d' : Cinta ℕ) × (poner_equipaje 9 2 despierta ≡ some (d', true))
    × (equipajes 0 d' ≡ equipajes 0 despierta ++ 9 ∷ [])
Traza-poner_avanza_example =
    Traza-poner_avanza 0 2 2 1 (omega arith) (omega arith) tres_pasadas 9 2 (omega arith)
      (omega arith) (omega arith)

Traza-sacar_avanza_example :
    (d' : Cinta ℕ) × (x : ℕ) × (sacar_equipaje 0 despierta ≡ some (d', some x))
    × (equipajes 0 despierta ≡ x ∷ equipajes 0 d')
Traza-sacar_avanza_example =
    Traza-sacar_avanza 0 2 2 1 (omega arith) (omega arith) tres_pasadas (omega arith)
