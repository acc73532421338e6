-- ===== src/Cintas/Principal/Tests.antt =====
-- Runs of a small central belt, and the theorems at them.
use aeropuerto.Base.{
  ℕ, List, ◌≤◌, ◌<◌, ◌≡◌, refl, sym, subst, [], ◌∷◌, ◌++◌, true, some, arith, wait_on, signalize,
  length,
}
use aeropuerto.Cintas.Lado.{esperar_turno, dar_turno}
use aeropuerto.Cintas.Principal.{
  CintaPrincipal, cinta_inicial, colocar_elemento, colocar_con_lock, colocar, ceder_productor,
  leer_elemento, leer_con_lock, avanzar_cinta, extraer_elemento, signalize_consumidor,
}
use aeropuerto.Cintas.Principal.Invariante.{EsValida, cinta_inicial-EsValida, equipajes}
use aeropuerto.Cintas.Principal.Pasadas.{colocar_elemento_lem, leer_elemento_lem}
use aeropuerto.Cintas.Principal.Paseos.{
  Paseo, inicio, coloca, lee, avanza, extrae, Paseo-equipajes, Paseo-exclusion, Paseo-leer_avanza,
}

-- An empty belt for two pieces with two producers and two consumers.
abbrev vacia : CintaPrincipal ℕ
vacia = cinta_inicial 2 2 1 0

-- The same once producer 1 has placed a 7.
abbrev con_una : CintaPrincipal ℕ
con_una = record vacia { posicion_libre = 1; cantidad_elementos = 1; vector_elementos = 7 ∷ 0 ∷ [] }

-- The same once consumer 1 has read it.
abbrev leida : CintaPrincipal ℕ
leida = record con_una { semaforo_consumidores = 0 ∷ 0 ∷ [] }

-- The same once he has passed the turn on.
abbrev pasada : CintaPrincipal ℕ
pasada = record con_una { semaforo_consumidores = 0 ∷ 1 ∷ [] }

colocar_primera : colocar_elemento 7 1 vacia ≡ some (con_una, true)
unfolding colocar_elemento esperar_turno wait_on colocar_con_lock colocar ceder_productor dar_turno
    signalize
colocar_primera = refl

leer_uno : leer_elemento 0 1 con_una ≡ some (leida, some 7)
unfolding leer_elemento wait_on leer_con_lock
leer_uno = refl

avanzar_uno : avanzar_cinta 1 leida ≡ pasada
unfolding avanzar_cinta signalize_consumidor signalize
avanzar_uno = refl

leer_dos : leer_elemento 0 2 (avanzar_cinta 1 leida) ≡ some (leida, some 7)
unfolding avanzar_cinta signalize_consumidor signalize leer_elemento wait_on leer_con_lock
leer_dos = refl

vacia-EsValida : EsValida 0 vacia []
vacia-EsValida = cinta_inicial-EsValida 2 2 1 0 (omega arith)

con_una-EsValida : EsValida 0 con_una []
con_una-EsValida =
    (colocar_elemento_lem 0 vacia vacia-EsValida 7 1 (omega arith) (omega arith) colocar_primera).0

leida-EsValida : EsValida 0 leida (7 ∷ [])
leida-EsValida =
    (leer_elemento_lem 0 con_una con_una-EsValida 1 (omega arith) (omega arith) leer_uno).1

leyendo : Paseo 0 vacia (7 ∷ []) [] (7 ∷ []) leida
leyendo =
    lee (coloca inicio 7 1 true (omega arith) (omega arith) colocar_primera refl) 1 (some 7)
      (omega arith) (omega arith) leer_uno refl

-- Consumer 1 passes the piece on, consumer 2 reads it and takes it out.
recorrido : Paseo 0 vacia (7 ∷ []) (7 ∷ []) [] (extraer_elemento leida)
recorrido =
    extrae
      (lee (avanza leyendo 1) 2 (some 7) (omega arith)
        (subst (λ d. 2 ≤ d.cantidad_consumidores) (sym avanzar_uno) (omega arith)) leer_dos refl)
      refl

Paseo-equipajes_example :
    equipajes 0 vacia ++ 7 ∷ [] ≡ 7 ∷ [] ++ equipajes 0 (extraer_elemento leida)
Paseo-equipajes_example = Paseo-equipajes 0 vacia-EsValida recorrido

Paseo-exclusion_example : length {A = ℕ} (7 ∷ []) ≤ 1
Paseo-exclusion_example = Paseo-exclusion 0 vacia-EsValida leyendo

Paseo-leer_avanza_example :
    (id_consumidor : ℕ) × (0 < id_consumidor)
    × (id_consumidor ≤ 2)
    × ((d' : CintaPrincipal ℕ) × (x : ℕ) × (leer_elemento 0 id_consumidor con_una
          ≡ some (d', some x))
        × ((r : List ℕ) × (equipajes 0 con_una ≡ x ∷ r)))
Paseo-leer_avanza_example =
    Paseo-leer_avanza 0 2 2 1 (omega arith)
      (coloca inicio 7 1 true (omega arith) (omega arith) colocar_primera refl) (omega arith)
